-- ===== src/Reconcile/Branches.antt =====
-- The early returns of Reconcile, and the forced migration.
use bindplane_operator.Cluster.{
  get_bindplane, Call, get_job, patch_annotations, update_status, run_step, migrate_service_account,
  accepted, Reply, returns, fails, panics, Server, Library, Run, ask, must, ◌>>◌, return,
}
use bindplane_operator.Prelude.{
  ◌≡◌, refl, true, false, List, [], ◌∷◌, none, some, lookup, lookup-remove, if◌then◌else◌, eq_refl,
  arith,
}
use bindplane_operator.Crd.{Bindplane, BindplaneStatus, zero_bindplane}
use bindplane_operator.Images.{annotation_enabled}
use bindplane_operator.Migrate.{
  MigrateState, in_progress, force_migrate_annotation, record_image, drop_force, clean_legacy,
  delete_for_force, save_image, force_migrate, ensure_migrated, reconcile_migrate_job,
}
use bindplane_operator.Validation.Errors.{Error}
use bindplane_operator.Validation.All.{validate_bindplane}
use bindplane_operator.Controller.{
  bindplane_finalizer, annotation_pause_reconciliation, reconciled, put_condition, put_phase,
}
use bindplane_operator.Reconcile.{
  default_phase, save_status, invalid, validated, reconcile_fetched, fetched, reconcile,
}
use bindplane_operator.Cluster.Traces.{State, Ends, Triple, bind}

module _ (lib : Library) (server : Server) where
  -- The annotation is set on the local copy.
  abbrev Forced : State
  Forced b cs = annotation_enabled lib.parse_bool b.meta.annotations force_migrate_annotation ≡ true

  abbrev pub Any : State
  Any b cs = Unit

  -- The image is forgotten and the annotation gone, and the server has accepted both writes, the
  -- annotation's first.
  abbrev pub Reset : MigrateState → State
  Reset state b cs =
      (state ≡ in_progress)
      × (b.status.components.jobs_migrate.image ≡ "")
      × (lookup force_migrate_annotation b.meta.annotations ≡ none)
      × (before : List Call) × (cs
          ≡ update_status b.status ∷ patch_annotations b.meta.annotations ∷ before)

  -- The local copy and the calls are these.
  abbrev At : Bindplane → List Call → State
  At x before b cs = (b ≡ x) × (cs ≡ before)

  must-at :
      (c : Call) (x : Bindplane) (before : List Call)
      → Triple (At x before) (must server c) (λ _. At x (c ∷ before)) Any
  must-at c x before b cs (e, f) = ground arith

  lookup-drop_force :
      (b : Bindplane) → lookup force_migrate_annotation (drop_force b).meta.annotations ≡ none
  unfolding drop_force
  lookup-drop_force b = ground (
    arith,
    lookup-remove force_migrate_annotation force_migrate_annotation b.meta.annotations,
    eq_refl force_migrate_annotation,
  )

  save_at :
      (x : Bindplane) (before : List Call)
      → Triple
          (At x before)
          (save_image lib server "")
          (λ _. At (record_image "" x) (update_status (record_image "" x).status ∷ before))
          Any
  unfolding save_image
  save_at x before b cs (e, f) =
      rw (e, f)
        (must-at (update_status (record_image "" x).status) (record_image "" x) before
          (record_image "" x) before (refl, refl))

  clear_at :
      (b : Bindplane) (cs : List Call) (u : Unit {0})
      → Triple
          (At (drop_force b) (patch_annotations (drop_force b).meta.annotations ∷ cs))
          (save_image lib server "" >> return in_progress)
          Reset
          Any
  unfolding record_image
  clear_at b cs u =
      bind
        (λ _. At (record_image "" (drop_force b)) (
          update_status (record_image "" (drop_force b)).status
          ∷ patch_annotations (drop_force b).meta.annotations
          ∷ cs))
        Reset Any (At (drop_force b) (patch_annotations (drop_force b).meta.annotations ∷ cs))
        (save_image lib server "") _
        (save_at (drop_force b) (patch_annotations (drop_force b).meta.annotations ∷ cs))
        (λ _ b' cs' (e, f). rw (e, f) (refl, refl, lookup-drop_force b, cs, refl))

  reset_ok :
      (u : Unit {0})
      → Triple Any
          (λ b.
            (do
              must server (patch_annotations (drop_force b).meta.annotations)
              save_image lib server ""
              return in_progress)
              (drop_force b))
          Reset
          Any
  reset_ok u b cs h =
      bind (λ _. At (drop_force b) (patch_annotations (drop_force b).meta.annotations ∷ cs)) Reset
        Any (At (drop_force b) cs) (must server (patch_annotations (drop_force b).meta.annotations))
        _ (must-at (patch_annotations (drop_force b).meta.annotations) (drop_force b) cs)
        (clear_at b cs) (drop_force b) cs (refl, refl)

  -- Nothing is said of where a run ends.
  any : {A : Type 0} (m : Run A) → Triple Any m (λ _. Any) Any
  any {A} m b cs h = of_reply (m b cs)
    where
      of_reply : (r : Reply A × Bindplane × List Call) → Ends (λ _. Any) Any r
      of_reply (returns u, b, cs) = tt
      of_reply (fails, b, cs) = tt
      of_reply (panics, b, cs) = tt

  force_resets : Triple Any (force_migrate lib server) Reset Any
  unfolding force_migrate
  force_resets =
      bind (λ _. Any) Reset Any Any (ask server get_job) _ (λ _ _ _. tt)
        (λ a.
          bind (λ _. Any) Reset Any Any (delete_for_force lib server a) _
            (any (delete_for_force lib server a)) reset_ok)

  -- With the annotation force-migrate, whatever the server answers, the migration is never reported
  -- complete or failed: where reconcileMigrateJob returns, it is in progress, the recorded image is
  -- empty, the annotation is gone, and the last two calls are the writes of both.
  pub reconcile_migrate_job-Reset :
      (b : Bindplane) (cs : List Call)
      → annotation_enabled lib.parse_bool b.meta.annotations force_migrate_annotation ≡ true
      → Ends Reset Any (reconcile_migrate_job lib server b cs)
  unfolding reconcile_migrate_job
  reconcile_migrate_job-Reset b cs h =
      bind (λ _. Forced) Reset Any Forced (clean_legacy lib server) _ keep_legacy
        (λ _.
          bind (λ _. Forced) Reset Any Forced (must server (run_step migrate_service_account)) _
            keep_account choose)
        b cs h
    where
      keep_legacy : Triple Forced (clean_legacy lib server) (λ _. Forced) Any
      keep_legacy b cs h = unfold clean_legacy in ground arith

      keep_account :
          Triple Forced (must server (run_step migrate_service_account)) (λ _. Forced) Any
      keep_account b cs h = ground arith

      choose :
          (u : Unit {0})
          → Triple Forced
              (λ b.
                (if annotation_enabled lib.parse_bool b.meta.annotations force_migrate_annotation
                    then force_migrate lib server
                    else ensure_migrated lib server b)
                  b)
              Reset
              Any
      choose u b cs h = rw h (force_resets b cs tt)

-- A resource that is neither being deleted, nor without the finalizer, nor paused.
abbrev pub IsActive : Library → Bindplane → Type 0
IsActive lib b =
    (b.meta.deletion_timestamp ≡ none)
    × (lib.contains_finalizer b.meta.finalizers bindplane_finalizer ≡ true)
    × (annotation_enabled lib.parse_bool b.meta.annotations annotation_pause_reconciliation ≡ false)

-- A fetched resource that is active and that the validator refuses is only marked: the one call
-- after the Get is an update of its status, with the phase Degraded and the observed generation.
pub reconcile_of_invalid :
    (lib : Library) (server : Server) (e : Error)
    → server.answer [] get_bindplane ≡ accepted
    → IsActive lib server.bindplane
    → validate_bindplane lib.environment (default_phase server.bindplane) ≡ some e
    → (s : BindplaneStatus) × ((reconcile lib server zero_bindplane []).2
        ≡ update_status s ∷ get_bindplane ∷ [])
      × (s.phase ≡ "Degraded")
      × (s.observed_generation ≡ server.bindplane.meta.generation)
unfolding reconcile fetched reconcile_fetched validated invalid save_status
reconcile_of_invalid lib server e h active v = (
  (put_phase "Degraded"
      (put_condition lib (reconciled "False" "Invalid" (lib.error_text e) b) b)).status,
  ground arith,
  refl,
  ground arith,
)
  where
    b : Bindplane
    b = default_phase server.bindplane
