-- ===== src/Reconcile/Progress.antt =====
-- Reconcile on a server that accepts every call, for a resource that is settled.
use bindplane_operator.Reconcile.Branches.{IsActive}
use bindplane_operator.Reconcile.{
  default_phase, reconcile_fetched, fetched, reconcile, validated, deleted, add_finalizer, paused,
  save_status, downstream, after_gate, after_migrate, reconcile_valid, reconcile_step,
}
use bindplane_operator.Validation.All.{validate_bindplane}
use bindplane_operator.Controller.{
  bindplane_finalizer, annotation_pause_reconciliation, put_phase, gate_of, apply_migrate_gate,
}
use bindplane_operator.Prelude.{
  is_some, not, ℕ, ℤ, ◌≡◌, refl, inl, inr, Bool, true, false, List, [], Option, none, some, In,
  ◌==◌, eq_iff, Bool-cases, if◌then◌else◌, arith, ◌∷◌, sym,
}
use bindplane_operator.Crd.{Bindplane, zero_bindplane}
use bindplane_operator.Images.{annotation_enabled, get_bindplane_jobs_migrate_image}
use bindplane_operator.Migrate.{
  complete, force_migrate_annotation, clean_legacy, ensure_migrated, reconcile_migrate_job,
}
use bindplane_operator.Status.{
  ready_replicas, ready_if, node_desired, update_ready, update_ready_replica_status,
}
use bindplane_operator.Workloads.Built.{GivesReplicas, builds_given}
use mathlib.Core.Path.{subst}
use bindplane_operator.Cluster.{
  ◌>>=◌, Step, tls_certificates, session_secret, status_secret, transform_agent, tsdb, jobs, nats,
  node, opamp, Call, run_step, accepted, Job, Server, Library, Workload, Reply, returns, fails,
  panics, resume, Run,
}
use bindplane_operator.Cluster.Traces.{State}

-- A server that accepts every call.
abbrev pub accepting : Bindplane → (List Call → Job) → (List Call → Workload → ℤ) → Server
accepting b job ready = record {
  answer = λ cs c. accepted;
  bindplane = b;
  job = job;
  ready_replicas = ready;
}

-- The run returns that value, with that said of the end.
abbrev pub Gives : {A : Type 0} → A → State → Reply A × Bindplane × List Call → Type 0
Gives a P (returns a', b, cs) = (a' ≡ a) × P b cs
Gives a P (fails, b, cs) = ⊥
Gives a P (panics, b, cs) = ⊥

resume-Gives :
    {A B : Type 0} (a : A) (c : B) (P Q : State) (k : A → Run B)
    (r : Reply A × Bindplane × List Call)
    → Gives a P r
    → ((b : Bindplane) → (cs : List Call) → P b cs → Gives c Q (k a b cs))
    → Gives c Q (resume k r)
resume-Gives a c P Q k (returns a', b, cs) (e, p) h = rw e (h b cs p)
resume-Gives a c P Q k (fails, b, cs) e h = absurd e
resume-Gives a c P Q k (panics, b, cs) e h = absurd e

-- The four workloads have been acted on.
abbrev pub AllActed : List Call → Type 0
AllActed cs =
    In (run_step jobs) cs × In (run_step nats) cs × In (run_step node) cs × In (run_step opamp) cs

module _ (lib : Library) (stored : Bindplane) (job : List Call → Job)
    (ready : List Call → Workload → ℤ) where
  abbrev server : Server
  server = accepting stored job ready

  status-Gives :
      (remote enabled : Bool) (n : ℤ) (c b : Bindplane) (cs : List Call)
      → AllActed cs
      → Gives tt (λ _ cs'. AllActed cs') (update_ready server remote enabled (some n) c b cs)
  unfolding update_ready ready_replicas ready_if node_desired
  status-Gives true true n c b cs h = ground arith
  status-Gives true false n c b cs h = ground arith
  status-Gives false true n c b cs h = ground arith
  status-Gives false false n c b cs h = ground arith

  status_of :
      (remote enabled : Bool) (o : Option ℤ) (n : ℤ) (c b : Bindplane) (cs : List Call)
      → o ≡ some n
      → AllActed cs
      → Gives tt (λ _ cs'. AllActed cs') (update_ready server remote enabled o c b cs)
  status_of remote enabled none n c b cs e h = ground arith
  status_of remote enabled (some m) n c b cs e h = status-Gives remote enabled m c b cs h

  status_all :
      (n : ℤ) (b : Bindplane) (cs : List Call)
      → b.spec.bindplane.replicas ≡ some n
      → AllActed cs
      → Gives tt (λ _ cs'. AllActed cs') (update_ready_replica_status server b cs)
  unfolding update_ready_replica_status
  status_all n b cs e h = status_of _ _ b.spec.bindplane.replicas n b b cs e h

  -- A step that builds its object is one accepted call.
  reconcile_step_built :
      (s : Step) (b : Bindplane) (cs : List Call)
      → GivesReplicas b
      → reconcile_step lib server s b cs ≡ (returns tt, b, run_step s ∷ cs)
  unfolding reconcile_step
  reconcile_step_built s b cs g = rw (builds_given lib.quantities lib.codecs b g s) refl

  downstream-Gives :
      (k : ℕ) (b : Bindplane) (cs : List Call)
      → GivesReplicas b
      → Gives k (λ _ cs'. AllActed cs') (downstream lib server complete k b cs)
  unfolding downstream save_status
  downstream-Gives k b cs g =
      rw
        (
          reconcile_step_built jobs b cs g,
          reconcile_step_built nats b _ g,
          reconcile_step_built node b _ g,
          reconcile_step_built opamp b _ g,
        )
        (resume-Gives tt k (λ _ cs'. AllActed cs') (λ _ cs'. AllActed cs') _
          (update_ready_replica_status server _ _)
          (status_all g.node_replicas _ _ g.gives_node_replicas
            (inr (inr (inr (inl refl))), inr (inr (inl refl)), inr (inl refl), inl refl))
          (λ b' cs' (p, q, r, s). (refl, (inr p, inr q, inr r, inr s))))

  then-Gives :
      (s : Step) (k : Unit {0} → Run ℕ) (b : Bindplane) (cs : List Call)
      → GivesReplicas b
      → Gives 0 (λ _ cs'. AllActed cs') (k tt b (run_step s ∷ cs))
      → Gives 0 (λ _ cs'. AllActed cs') ((reconcile_step lib server s >>= k) b cs)
  then-Gives s k b cs g h =
      subst (λ r. Gives 0 (λ _ cs'. AllActed cs') (resume k r))
        (sym (reconcile_step_built s b cs g)) h

  migrated-Gives :
      (b : Bindplane) (cs : List Call)
      → GivesReplicas b
      → b.status.components.jobs_migrate.image ≡ get_bindplane_jobs_migrate_image b
      → annotation_enabled lib.parse_bool b.meta.annotations force_migrate_annotation ≡ false
      → Gives 0
          (λ _ cs'. AllActed cs')
          ((reconcile_migrate_job lib server >>= after_migrate lib server) b cs)
  unfolding reconcile_migrate_job clean_legacy ensure_migrated after_migrate apply_migrate_gate
      gate_of after_gate
  migrated-Gives b cs g m f =
      rw
        (
          f,
          (eq_iff b.status.components.jobs_migrate.image (get_bindplane_jobs_migrate_image b)).1 m,
        )
        (downstream-Gives 0 b _ g)

  -- What is left of a run before each step.
  abbrev migrating : Run ℕ
  migrating = reconcile_migrate_job lib server >>= after_migrate lib server

  abbrev from_tsdb : Run ℕ
  from_tsdb = reconcile_step lib server tsdb >>= (λ _. migrating)

  abbrev from_agent : Run ℕ
  from_agent = reconcile_step lib server transform_agent >>= (λ _. from_tsdb)

  abbrev from_status : Run ℕ
  from_status = reconcile_step lib server status_secret >>= (λ _. from_agent)

  abbrev from_session : Run ℕ
  from_session = reconcile_step lib server session_secret >>= (λ _. from_status)

  from_tsdb-Gives :
      (b : Bindplane) (cs : List Call)
      → GivesReplicas b
      → b.status.components.jobs_migrate.image ≡ get_bindplane_jobs_migrate_image b
      → annotation_enabled lib.parse_bool b.meta.annotations force_migrate_annotation ≡ false
      → Gives 0 (λ _ cs'. AllActed cs') (from_tsdb b cs)
  from_tsdb-Gives b cs g m f =
      then-Gives tsdb (λ _. migrating) b cs g (migrated-Gives b (run_step tsdb ∷ cs) g m f)

  from_status-Gives :
      (b : Bindplane) (cs : List Call)
      → GivesReplicas b
      → b.status.components.jobs_migrate.image ≡ get_bindplane_jobs_migrate_image b
      → annotation_enabled lib.parse_bool b.meta.annotations force_migrate_annotation ≡ false
      → Gives 0 (λ _ cs'. AllActed cs') (from_status b cs)
  from_status-Gives b cs g m f =
      then-Gives status_secret (λ _. from_agent) b cs g
        (then-Gives transform_agent (λ _. from_tsdb) b (run_step status_secret ∷ cs) g
          (from_tsdb-Gives b (run_step transform_agent ∷ run_step status_secret ∷ cs) g m f))

  valid-Gives :
      (b : Bindplane) (cs : List Call)
      → GivesReplicas b
      → b.status.components.jobs_migrate.image ≡ get_bindplane_jobs_migrate_image b
      → annotation_enabled lib.parse_bool b.meta.annotations force_migrate_annotation ≡ false
      → Gives 0 (λ _ cs'. AllActed cs') (reconcile_valid lib server b cs)
  unfolding reconcile_valid
  valid-Gives b cs g m f =
      then-Gives tls_certificates (λ _. from_session) b cs g
        (then-Gives session_secret (λ _. from_status) b (run_step tls_certificates ∷ cs) g
          (from_status-Gives b (run_step session_secret ∷ run_step tls_certificates ∷ cs) g m f))

  -- The facts on the fetched resource, once its phase is set.
  fetched-Gives :
      (b b₀ : Bindplane) (cs : List Call)
      → default_phase b ≡ b₀
      → IsActive lib b₀
      → validate_bindplane lib.environment b₀ ≡ none
      → GivesReplicas b₀
      → b₀.status.components.jobs_migrate.image ≡ get_bindplane_jobs_migrate_image b₀
      → annotation_enabled lib.parse_bool b₀.meta.annotations force_migrate_annotation ≡ false
      → Gives 0 (λ _ cs'. AllActed cs') (reconcile_fetched lib server b cs)
  unfolding reconcile_fetched validated
  fetched-Gives b b₀ cs e (gone, kept, stopped) v g m f = rw (e, decide) (valid-Gives b₀ cs g m f)
    where
      decide :
          (if is_some b₀.meta.deletion_timestamp
            then deleted lib server b₀
            else if not (lib.contains_finalizer b₀.meta.finalizers bindplane_finalizer)
            then add_finalizer lib server
            else if annotation_enabled lib.parse_bool b₀.meta.annotations
                annotation_pause_reconciliation
            then paused lib server
            else validated lib server (validate_bindplane lib.environment b₀))
          ≡ reconcile_valid lib server
      decide = unfold validated in rw (v, stopped, kept, gone) refl

  -- What a run that gives a value comes to.
  of_Gives :
      (r : Reply ℕ × Bindplane × List Call)
      → Gives 0 (λ _ cs. AllActed cs) r
      → (r.0 ≡ returns 0) × AllActed r.2
  of_Gives (returns n, b, cs) (e, h) = (rw e refl, h)
  of_Gives (fails, b, cs) e = absurd e
  of_Gives (panics, b, cs) e = absurd e

  pending-GivesReplicas : GivesReplicas stored → GivesReplicas (put_phase "Pending" stored)
  pending-GivesReplicas g = record {
    agent = g.agent;
    gives_agent = g.gives_agent;
    agent_replicas = g.agent_replicas;
    gives_agent_replicas = g.gives_agent_replicas;
    bus = g.bus;
    gives_bus = g.gives_bus;
    bus_replicas = g.bus_replicas;
    gives_bus_replicas = g.gives_bus_replicas;
    node_replicas = g.node_replicas;
    gives_node_replicas = g.gives_node_replicas;
  }

  -- On a server that accepts every call, a resource that is active and valid, gives the replicas of
  -- the Transform Agent, of NATS and of the node, and has its image recorded as migrated with no run
  -- forced, is brought to the end: no builder dereferences nil, Reconcile returns without a requeue,
  -- and has acted on Jobs, NATS, Node and OpAMP.
  pub reconcile_of_settled :
      IsActive lib stored
      → validate_bindplane lib.environment (default_phase stored) ≡ none
      → GivesReplicas stored
      → stored.status.components.jobs_migrate.image ≡ get_bindplane_jobs_migrate_image stored
      → annotation_enabled lib.parse_bool stored.meta.annotations force_migrate_annotation ≡ false
      → ((reconcile lib (accepting stored job ready) zero_bindplane []).0 ≡ returns 0)
        × AllActed (reconcile lib (accepting stored job ready) zero_bindplane []).2
  unfolding reconcile fetched get_bindplane_jobs_migrate_image
  reconcile_of_settled active v g m f = elim (Bool-cases (stored.status.phase == "")) [
    | inl e ↦ of_Gives _ (
        fetched-Gives stored (put_phase "Pending" stored) _ (rw e refl) active (rw e at v)
          (pending-GivesReplicas g) m f)
    | inr e ↦ of_Gives _ (fetched-Gives stored stored _ (rw e refl) active (rw e at v) g m f)
  ]
