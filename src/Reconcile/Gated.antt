-- ===== src/Reconcile/Gated.antt =====
-- internal/controller/bindplane_controller.go: the gate of Reconcile, and what is downstream of it.
use bindplane_operator.Reconcile.{
  reconcile_step, save_status, save_object, handle_deletion, deleted, add_finalizer, paused,
  invalid, downstream, after_gate, after_migrate, reconcile_valid, validated, reconcile_fetched,
  fetched, reconcile, default_phase,
}
use bindplane_operator.Workloads.Built.{builds}
use bindplane_operator.Cluster.{
  Step, Reply, returns, fails, panics, tls_certificates, session_secret, status_secret,
  transform_agent, tsdb, jobs, nats, node, opamp, Call, get_bindplane, update_status, run_step,
  Answer, accepted, not_found, refused, Server, Library, Run, ◌>>=◌, must,
}
use bindplane_operator.Validation.All.{validate_bindplane}
use bindplane_operator.Validation.Errors.{Error}
use bindplane_operator.Reconcile.Order.{
  must_quiet, IsDownstream, Approved, Ordered, IsOpen, Start, Judged, migrate_ok,
}
use bindplane_operator.Controller.{
  set_migrate_failure_condition, halt, halt_failed, gate_of, apply_migrate_gate,
}
use bindplane_operator.Prelude.{
  ◌∙◌, sym, ◌==◌, ℤ, ℕ, ◌≡◌, refl, ◌⊎◌, inl, inr, Bool, true, false, List, [], ◌∷◌, Option, none,
  some, Bool-cases, if◌then◌else◌, arith,
}
use bindplane_operator.Crd.{Bindplane, zero_bindplane}
use bindplane_operator.Images.{
  annotation_enabled, skip_migrate_check, get_bindplane_jobs_migrate_image,
}
use bindplane_operator.Migrate.{MigrateState, in_progress, complete, failed, reconcile_migrate_job}
use bindplane_operator.Status.{
  ready_replicas, update_ready, ready_if, node_desired, update_ready_replica_status,
}
use bindplane_operator.Cluster.Traces.{State, Ends, Triple, bind}

-- Calls that are not downstream, and changes of the local copy, keep the order.
module _ (lib : Library) (server : Server) (b₀ : Bindplane) (G : Type 0) where
  abbrev O : State
  O b cs = Ordered server (get_bindplane_jobs_migrate_image b₀) G cs

  -- The downstream calls are allowed.
  abbrev Open : State
  Open b cs = (G ⊎ Approved server (get_bindplane_jobs_migrate_image b₀) cs) × O b cs

  must-open : (c : Call) → Triple Open (must server c) (λ _. Open) O
  must-open c b cs (g, o) = ground arith

  step_open : (s : Step) → Triple Open (reconcile_step lib server s) (λ _. Open) O
  unfolding reconcile_step
  step_open s =
      bind (λ _. Open) (λ _. Open) O Open (must server (run_step s)) _ (must-open (run_step s))
        (λ _ b cs p. elim (Bool-cases (builds lib.quantities lib.codecs s b)) [
          | inl e ↦ rw e p
          | inr e ↦ rw e p.1
        ])

  quiet : (c : Call) → ¬ IsDownstream c → Triple O (must server c) (λ _. O) O
  quiet c n b cs o = ground arith

  save_quiet : Triple O (save_status lib server) (λ _. O) O
  unfolding save_status
  save_quiet b cs o = quiet (update_status b.status) (λ x. x) b cs o

  -- One quiet run after the other.
  after :
      {A B : Type 0} (m : Run A) (k : A → Run B)
      → Triple O m (λ _. O) O
      → ((a : A) → Triple O (k a) (λ _. O) O)
      → Triple O (m >>= k) (λ _. O) O
  after m k = bind (λ _. O) (λ _. O) O O m k

  update_ready_quiet :
      (remote enabled : Bool) (n : Option ℤ) (c : Bindplane)
      → Triple O (update_ready server remote enabled n c) (λ _. O) O
  unfolding update_ready ready_replicas ready_if node_desired
  update_ready_quiet true true none c b cs o = ground arith
  update_ready_quiet true false none c b cs o = ground arith
  update_ready_quiet false true none c b cs o = ground arith
  update_ready_quiet false false none c b cs o = ground arith
  update_ready_quiet true true (some n) c b cs o = ground arith
  update_ready_quiet true false (some n) c b cs o = ground arith
  update_ready_quiet false true (some n) c b cs o = ground arith
  update_ready_quiet false false (some n) c b cs o = ground arith

  status_quiet : Triple O (update_ready_replica_status server) (λ _. O) O
  unfolding update_ready_replica_status
  status_quiet b = update_ready_quiet _ _ _ b b

  downstream_ok :
      (state : MigrateState) (n : ℕ) → Triple Open (downstream lib server state n) (λ _. O) O
  unfolding downstream
  downstream_ok state n =
      bind (λ _. Open) (λ _. O) O Open _ _ (step_open jobs)
        (λ _.
          bind (λ _. Open) (λ _. O) O Open _ _ (step_open nats)
            (λ _.
              bind (λ _. Open) (λ _. O) O Open _ _ (step_open node)
                (λ _.
                  bind (λ _. Open) (λ _. O) O Open _ _ (step_open opamp)
                    (λ _ b cs (g, o).
                      after _ _ status_quiet
                        (λ _ b' cs' o'. after _ _ save_quiet (λ _ _ _ p. p) _ cs' o') _ cs o))))

module _ (lib : Library) (server : Server) (b₀ : Bindplane) where
  abbrev P : State
  P = O lib server b₀ (IsOpen lib b₀)

  abbrev S : State
  S = Start lib server b₀ (IsOpen lib b₀)

  abbrev J : MigrateState → State
  J = Judged lib server b₀ (IsOpen lib b₀)

  -- Where the check is skipped.
  skipped_ok :
      (state : MigrateState) (n : ℕ) (b : Bindplane) (cs : List Call)
      → J state b cs
      → skip_migrate_check lib.parse_bool b ≡ true
      → Ends (λ _. P) P (downstream lib server state n b cs)
  skipped_ok state n b cs (j, (k, o)) s =
      downstream_ok lib server b₀ (IsOpen lib b₀) state n b cs (inl (inl (sym k ∙ s)), o)

  halt_ok : Triple P (halt_failed lib server) (λ g b cs. (g ≡ halt 0) × P b cs) P
  unfolding halt_failed set_migrate_failure_condition
  halt_ok b cs o = ground arith

  gate_ok : (state : MigrateState) → Triple (J state) (after_migrate lib server state) (λ _. P) P
  unfolding after_migrate after_gate apply_migrate_gate gate_of
  gate_ok complete b cs (j, (k, o)) =
      downstream_ok lib server b₀ (IsOpen lib b₀) complete 0 b cs
        (elim (j refl) [ inl a ↦ inr a | inr r ↦ inl (inr r) ], o)
  gate_ok in_progress b cs h = elim (Bool-cases (skip_migrate_check lib.parse_bool b)) [
    | inl s ↦ rw s (skipped_ok in_progress 10 b cs h s)
    | inr s ↦ rw s h.1.1
  ]
  gate_ok failed b cs h = elim (Bool-cases (skip_migrate_check lib.parse_bool b)) [
    | inl s ↦ rw s (skipped_ok failed 0 b cs h s)
    | inr s ↦ rw s (
        bind (λ g b cs. (g ≡ halt 0) × P b cs) (λ _. P) P P (halt_failed lib server)
          (after_gate lib server failed) halt_ok (λ g b' cs' (e, o). rw e o) b cs h.1.1)
  ]

  step_quiet :
      (s : Step) → ¬ IsDownstream (run_step s) → Triple S (reconcile_step lib server s) (λ _. S) P
  unfolding reconcile_step
  step_quiet s n =
      bind (λ _. S) (λ _. S) P S (must server (run_step s)) _
        (must_quiet lib server b₀ (IsOpen lib b₀) (run_step s) n)
        (λ _ b cs p. elim (Bool-cases (builds lib.quantities lib.codecs s b)) [
          | inl e ↦ rw e p
          | inr e ↦ rw e p.1
        ])

  then_quiet :
      (s : Step) (k : Unit {0} → Run ℕ)
      → ¬ IsDownstream (run_step s)
      → Triple S (k tt) (λ _. P) P
      → Triple S (reconcile_step lib server s >>= k) (λ _. P) P
  then_quiet s k n t =
      bind (λ _. S) (λ _. P) P S (reconcile_step lib server s) k (step_quiet s n) (λ a. t)

  valid_ok : Triple S (reconcile_valid lib server) (λ _. P) P
  unfolding reconcile_valid
  valid_ok =
      then_quiet tls_certificates _ (λ x. x)
        (then_quiet session_secret _ (λ x. x)
          (then_quiet status_secret _ (λ x. x)
            (then_quiet transform_agent _ (λ x. x)
              (then_quiet tsdb _ (λ x. x)
                (bind J (λ _. P) P S (reconcile_migrate_job lib server) (after_migrate lib server)
                  (migrate_ok lib server b₀ (IsOpen lib b₀)) gate_ok)))))

  validated_ok : (e : Option Error) → Triple S (validated lib server e) (λ _. P) P
  unfolding validated invalid save_status
  validated_ok none b cs s = valid_ok b cs s
  validated_ok (some e) b cs (s, o) = ground arith

  deleted_ok : Triple S (deleted lib server b₀) (λ _. P) P
  unfolding deleted handle_deletion save_object
  deleted_ok b cs (s, o) = ground arith

  add_finalizer_ok : Triple S (add_finalizer lib server) (λ _. P) P
  unfolding add_finalizer save_object
  add_finalizer_ok b cs (s, o) = ground arith

  paused_ok : Triple S (paused lib server) (λ _. P) P
  unfolding paused save_status
  paused_ok b cs (s, o) = ground arith

  -- The decision on the fetched resource, which is b₀ once its phase is set.
  decided_ok :
      (gone kept stopped : Bool)
      → Triple S
          (if gone
            then deleted lib server b₀
            else if kept
            then add_finalizer lib server
            else if stopped
            then paused lib server
            else validated lib server (validate_bindplane lib.environment b₀))
          (λ _. P)
          P
  decided_ok true kept stopped b cs s = deleted_ok b cs s
  decided_ok false true stopped b cs s = add_finalizer_ok b cs s
  decided_ok false false true b cs s = paused_ok b cs s
  decided_ok false false false b cs s = validated_ok (validate_bindplane lib.environment b₀) b cs s

  fetched_ok :
      (b : Bindplane) (cs : List Call)
      → default_phase b ≡ b₀
      → P b cs
      → Ends (λ _. P) P (reconcile_fetched lib server b cs)
  unfolding reconcile_fetched
  fetched_ok b cs e o = rw e (decided_ok _ _ _ b₀ cs (refl, o))

-- What a run leaves behind, whatever it came to.
of_Ends : (F : State) (r : Reply ℕ × Bindplane × List Call) → Ends (λ _. F) F r → F r.1 r.2
of_Ends F (returns n, b, cs) h = h
of_Ends F (fails, b, cs) h = h
of_Ends F (panics, b, cs) h = h

-- Setting the phase leaves the gate as it is.
same_gate :
    (lib : Library) (server : Server) (cs : List Call) (b : Bindplane)
    → Ordered server
        (get_bindplane_jobs_migrate_image (default_phase b))
        (IsOpen lib (default_phase b))
        cs
    → Ordered server (get_bindplane_jobs_migrate_image b) (IsOpen lib b) cs
unfolding get_bindplane_jobs_migrate_image skip_migrate_check annotation_enabled
same_gate lib server cs b o = elim (Bool-cases (b.status.phase == "")) [
  | inl e ↦ rw e at o
  | inr e ↦ rw e at o
]

-- In every run of Reconcile, whatever the API server answers, a call that acts on Jobs, NATS, Node
-- or OpAMP comes after the migration: the Job of the desired image was found done and the server
-- accepted the record of it, unless the fetched resource skips the check, or has that image
-- recorded as migrated and forces no new run.
pub reconcile-Ordered :
    (lib : Library) (server : Server)
    → Ordered server
        (get_bindplane_jobs_migrate_image server.bindplane)
        (IsOpen lib server.bindplane)
        (reconcile lib server zero_bindplane []).2
unfolding reconcile fetched
reconcile-Ordered lib server = elim (answer_cases (server.answer [] get_bindplane)) [
  | inl found ↦ rw found (
      same_gate lib server _ server.bindplane (
        of_Ends (P lib server (default_phase server.bindplane)) _ (
          fetched_ok lib server (default_phase server.bindplane) server.bindplane
            (get_bindplane ∷ []) refl ((λ x. absurd x), tt))))
  | inr (inl gone) ↦ rw gone ((λ x. absurd x), tt)
  | inr (inr bad) ↦ rw bad ((λ x. absurd x), tt)
]
  where
    answer_cases : (a : Answer) → (a ≡ accepted) ⊎ (a ≡ not_found) ⊎ (a ≡ refused)
    answer_cases accepted = inl refl
    answer_cases not_found = inr (inl refl)
    answer_cases refused = inr (inr refl)
