-- ===== src/Controller.antt =====
-- internal/controller/bindplane_controller.go: the conditions in the status, and the gate of the
-- migration. A result is the number of seconds after which to requeue, 0 for none.
use bindplane_operator.Prelude.{
  ℕ, Bool, true, false, not, ◌||◌, String, Option, ◌^^◌, if◌then◌else◌,
}
use bindplane_operator.Kube.{Condition}
use bindplane_operator.Crd.{Bindplane}
use bindplane_operator.Images.{get_resource_name, skip_migrate_check}
use bindplane_operator.Migrate.{MigrateState, in_progress, complete, failed}
use bindplane_operator.Cluster.{
  update_status, Server, Library, Run, ◌>>=◌, ◌>>◌, return, local_copy, modify, must,
}

abbrev pub bindplane_finalizer : String
bindplane_finalizer = "k8s.bindplane.com/finalizer"

abbrev pub annotation_pause_reconciliation : String
annotation_pause_reconciliation = "k8s.bindplane.com/pause-reconciliation"

-- migrateJobPollInterval, in seconds.
abbrev pub migrate_job_poll_interval : ℕ
migrate_job_poll_interval = 10

-- A condition of type Reconciled on the generation of the resource.
abbrev pub reconciled : (status reason message : String) → Bindplane → Condition
reconciled status reason message b = record {
  type = "Reconciled";
  status = status;
  reason = reason;
  message = message;
  observed_generation = b.meta.generation;
}

-- setMigrateFailureCondition, and the same assignments of the other early returns.
abbrev pub put_condition : Library → Condition → Bindplane → Bindplane
put_condition lib c b = record b {
  status = record b.status {
    conditions = lib.set_status_condition b.status.conditions c;
    observed_generation = b.meta.generation;
  };
}

abbrev pub put_phase : String → Bindplane → Bindplane
put_phase phase b = record b { status = record b.status { phase = phase } }

-- setMigrateFailureCondition
unfoldable pub set_migrate_failure_condition : Library → Bindplane → Bindplane
set_migrate_failure_condition lib b = put_phase "Degraded" (
    put_condition lib
      (reconciled "False" "MigrationFailed"
        "Jobs Migrate Job failed; downstream workloads are blocked until migration succeeds" b)
      b)

-- The name of a migration's state in the message.
abbrev pub job_state : MigrateState → String
job_state failed = "Failed"
job_state complete = "not yet complete"
job_state in_progress = "not yet complete"

abbrev pub is_complete : MigrateState → Bool
is_complete complete = true
is_complete in_progress = false
is_complete failed = false

-- reconciledCondition
unfoldable pub reconciled_condition : (String → Option Bool) → Bindplane → MigrateState → Condition
unfolding skip_migrate_check get_resource_name
reconciled_condition parse_bool b state =
    if not (skip_migrate_check parse_bool b) || is_complete state
    then reconciled "True" "Reconciled" "All resources reconciled successfully" b
    else reconciled "True" "MigrationCheckSkipped"
        ("Migration gate bypassed by annotation k8s.bindplane.com/skip-migrate-check; Jobs Migrate Job "
          ^^ get_resource_name b "migrate"
          ^^ " is "
          ^^ job_state state
          ^^ ". Downstream workloads were reconciled without a confirmed database migration.")
        b

-- What the gate decides: to return at once, or to go on and to requeue at the end.
pub data Gate : Type 0 where
  halt proceed : (requeue_after : ℕ) → Gate

module _ (lib : Library) (server : Server) where
  -- The migration failed, and nothing bypasses the gate.
  unfoldable pub halt_failed : Run Gate
  unfolding set_migrate_failure_condition
  halt_failed = do
    modify (set_migrate_failure_condition lib)
    b ← local_copy
    must server (update_status b.status)
    return (halt 0)

  unfoldable pub gate_of : Bool → MigrateState → Run Gate
  unfolding halt_failed
  gate_of skip failed = if skip then return (proceed 0) else halt_failed
  gate_of skip in_progress =
      if skip
      then return (proceed migrate_job_poll_interval)
      else return (halt migrate_job_poll_interval)
  gate_of skip complete = return (proceed 0)

  -- applyMigrateGate
  unfoldable pub apply_migrate_gate : MigrateState → Run Gate
  unfolding gate_of skip_migrate_check
  apply_migrate_gate state = do b ← local_copy; gate_of (skip_migrate_check lib.parse_bool b) state
