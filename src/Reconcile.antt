-- ===== src/Reconcile.antt =====
-- internal/controller/bindplane_controller.go: Reconcile, from the fetched resource to the result.
pub mod Order
pub mod Gated
pub mod Branches
pub mod Progress
use bindplane_operator.Prelude.{
  ℕ, Bool, true, false, not, String, Option, none, some, ◌==◌, ◌^^◌, is_some, if◌then◌else◌,
}
use bindplane_operator.Kube.{Condition, ObjectMeta}
use bindplane_operator.Crd.{Bindplane, BindplaneStatus}
use bindplane_operator.Validation.Errors.{Error}
use bindplane_operator.Validation.All.{validate_bindplane}
use bindplane_operator.Images.{annotation_enabled}
use bindplane_operator.Migrate.{MigrateState, reconcile_migrate_job}
use bindplane_operator.Status.{update_ready_replica_status, update_image_status}
use bindplane_operator.Controller.{
  bindplane_finalizer, annotation_pause_reconciliation, reconciled, put_condition, put_phase,
  reconciled_condition, Gate, halt, proceed, apply_migrate_gate,
}
use bindplane_operator.Workloads.Built.{builds}
use bindplane_operator.Cluster.{
  Step, panic, tls_certificates, session_secret, status_secret, transform_agent, tsdb, jobs, nats,
  node, opamp, get_bindplane, update_object, update_status, run_step, Answer, accepted, not_found,
  refused, Server, Library, Run, ◌>>=◌, ◌>>◌, return, fail, local_copy, modify, ask, must,
}

-- `if bindplane.Status.Phase == "" { … }`
abbrev pub default_phase : Bindplane → Bindplane
default_phase b = if b.status.phase == "" then put_phase "Pending" b else b

module _ (lib : Library) (server : Server) where
  -- `r.Status().Update(ctx, bindplane)`
  unfoldable pub save_status : Run (Unit {0})
  save_status = do b ← local_copy; must server (update_status b.status)

  -- `r.Update(ctx, bindplane)`
  unfoldable pub save_object : Run (Unit {0})
  save_object = do b ← local_copy; must server (update_object b.meta)

  -- handleDeletion; the error of the update of the status is only logged.
  unfoldable pub handle_deletion : Run (Unit {0})
  unfolding save_object
  handle_deletion = do
    modify (put_phase "Deleting")
    b ← local_copy
    ask server (update_status b.status)
    modify λ x. record x {
      meta = record x.meta {
        finalizers = lib.remove_finalizer x.meta.finalizers bindplane_finalizer;
      };
    }
    save_object

  -- The branch of an object that is being deleted.
  unfoldable pub deleted : Bindplane → Run ℕ
  unfolding handle_deletion
  deleted b =
      if lib.contains_finalizer b.meta.finalizers bindplane_finalizer
      then (handle_deletion >> return 0)
      else return 0

  -- The branch that adds the finalizer.
  unfoldable pub add_finalizer : Run ℕ
  unfolding save_object
  add_finalizer = do
    modify λ x. record x {
      meta = record x.meta { finalizers = lib.add_finalizer x.meta.finalizers bindplane_finalizer };
    }
    save_object
    return 0

  -- The branch of the annotation pause-reconciliation.
  unfoldable pub paused : Run ℕ
  unfolding save_status
  paused = do
    modify λ b.
        put_condition lib
          (reconciled "False" "Paused"
            "Reconciliation paused. Remove annotation k8s.bindplane.com/pause-reconciliation or set to false to resume."
            b)
          b
    save_status
    return 0

  -- The branch of a resource that the validator refuses.
  unfoldable pub invalid : Error → Run ℕ
  unfolding save_status
  invalid e = do
    modify λ b.
        put_phase "Degraded"
          (put_condition lib (reconciled "False" "Invalid" (lib.error_text e) b) b)
    save_status
    return 0

  -- A sub-reconciler, which is one call; where it is let through and its builder dereferences nil,
  -- it panics.
  unfoldable pub reconcile_step : Step → Run (Unit {0})
  unfolding builds
  reconcile_step step = do
    must server (run_step step)
    b ← local_copy
    if builds lib.quantities lib.codecs step b then return tt else panic

  -- What follows the gate.
  unfoldable pub downstream : MigrateState → ℕ → Run ℕ
  unfolding save_status reconcile_step
  downstream state requeue_after = do
    reconcile_step jobs
    reconcile_step nats
    reconcile_step node
    reconcile_step opamp
    modify λ b. record b {
      status = record b.status {
        conditions =
            lib.set_status_condition b.status.conditions
              (reconciled_condition lib.parse_bool b state);
      };
    }
    update_ready_replica_status server
    modify λ b.
        let c = update_image_status b in
        record c { status = record c.status { observed_generation = c.meta.generation } }
    save_status
    return requeue_after

  unfoldable pub after_gate : MigrateState → Gate → Run ℕ
  unfolding downstream
  after_gate state (halt requeue_after) = return requeue_after
  after_gate state (proceed requeue_after) = downstream state requeue_after

  unfoldable pub after_migrate : MigrateState → Run ℕ
  unfolding after_gate
  after_migrate state = apply_migrate_gate lib server state >>= after_gate state

  -- The reconciliation of a resource that the validator accepts.
  unfoldable pub reconcile_valid : Run ℕ
  unfolding after_migrate reconcile_step
  reconcile_valid = do
    reconcile_step tls_certificates
    reconcile_step session_secret
    reconcile_step status_secret
    reconcile_step transform_agent
    reconcile_step tsdb
    state ← reconcile_migrate_job lib server
    after_migrate state

  unfoldable pub validated : Option Error → Run ℕ
  unfolding invalid reconcile_valid
  validated (some e) = invalid e
  validated none = reconcile_valid

  -- What Reconcile does with the resource that it has fetched.
  unfoldable pub reconcile_fetched : Run ℕ
  unfolding deleted add_finalizer paused validated
  reconcile_fetched = do
    modify default_phase
    b ← local_copy
    if is_some b.meta.deletion_timestamp
        then deleted b
        else if not (lib.contains_finalizer b.meta.finalizers bindplane_finalizer)
        then add_finalizer
        else if annotation_enabled lib.parse_bool b.meta.annotations annotation_pause_reconciliation
        then paused
        else validated (validate_bindplane lib.environment b)

  unfoldable pub fetched : Answer → Run ℕ
  unfolding reconcile_fetched
  fetched not_found = return 0
  fetched refused = fail
  fetched accepted = modify (λ b. server.bindplane) >> reconcile_fetched

  -- Reconcile, which starts with the zero value of the resource.
  unfoldable pub reconcile : Run ℕ
  unfolding fetched
  reconcile = ask server get_bindplane >>= fetched
