-- ===== src/Migrate.antt =====
-- internal/controller/jobs.go: the lifecycle of the migration Job. Of the Job that is created the
-- image of its container is kept.

use bindplane_operator.Prelude.{
  Bool, true, false, ◌&&◌, String, List, [], ◌∷◌, ◌==◌, remove, is_some, if◌then◌else◌,
}
use bindplane_operator.Kube.{Container}
use bindplane_operator.Crd.{Bindplane}
use bindplane_operator.Images.{annotation_enabled, get_bindplane_jobs_migrate_image}
use bindplane_operator.Cluster.{
  migrate_service_account, update_status, patch_annotations, run_step, get_legacy_deployment,
  delete_legacy_deployment, get_job, delete_job, own_job, create_job, Answer, accepted, not_found,
  refused, Job, Server, Library, Run, ◌>>=◌, ◌>>◌, return, fail, local_copy, modify, ask, must,
  must_delete, found_job,
}

-- migrateState
pub data MigrateState : Type 0 where
  in_progress complete failed : MigrateState

abbrev pub force_migrate_annotation : String
force_migrate_annotation = "k8s.bindplane.com/force-migrate"

-- One of the conditions is of that type and True.
unfoldable pub has_condition : String → List (String × String) → Bool
has_condition type [] = false
has_condition type ((t, status) ∷ cs) =
    if t == type && status == "True" then true else has_condition type cs

-- isJobSucceeded
unfoldable pub is_job_succeeded : Job → Bool
unfolding has_condition
is_job_succeeded job = has_condition "Complete" job.conditions

-- isJobFailed
unfoldable pub is_job_failed : Job → Bool
unfolding has_condition
is_job_failed job = has_condition "Failed" job.conditions

abbrev pub first_image : List Container → String
first_image [] = ""
first_image (c ∷ cs) = c.image

-- extractJobContainerImage
unfoldable pub extract_job_container_image : Job → String
extract_job_container_image job = first_image job.template.spec.containers

-- `bindplane.Status.Components.JobsMigrate.Image = image`
unfoldable pub record_image : String → Bindplane → Bindplane
record_image image b = record b {
  status = record b.status {
    components = record b.status.components {
      jobs_migrate = record b.status.components.jobs_migrate { image = image };
    };
  };
}

-- `delete(bindplane.Annotations, forceMigrateAnnotation)`
unfoldable pub drop_force : Bindplane → Bindplane
drop_force b = record b {
  meta = record b.meta { annotations = remove force_migrate_annotation b.meta.annotations };
}

module _ (lib : Library) (server : Server) where
  -- The deletion of the legacy Deployment; its error is only logged.
  unfoldable pub clean_legacy : Run (Unit {0})
  clean_legacy = do
    answer ← ask server get_legacy_deployment
    elim answer [
      | accepted ↦ ask server delete_legacy_deployment >> return tt
      | not_found ↦ return tt
      | refused ↦ return tt
    ]

  -- deleteJobWithPods
  unfoldable pub delete_job_with_pods : Run (Unit {0})
  delete_job_with_pods = must_delete server delete_job

  -- The deletion of the Job that the annotation asks for.
  unfoldable pub delete_for_force : Answer → Run (Unit {0})
  unfolding delete_job_with_pods
  delete_for_force accepted = delete_job_with_pods
  delete_for_force not_found = return tt
  delete_for_force refused = fail

  -- `bindplane.Status.Components.JobsMigrate.Image = image`, and the update of the status.
  unfoldable pub save_image : String → Run (Unit {0})
  unfolding record_image
  save_image image = do
    modify (record_image image)
    b ← local_copy
    must server (update_status b.status)

  -- The branch of the annotation force-migrate.
  unfoldable pub force_migrate : Run MigrateState
  unfolding delete_for_force drop_force save_image
  force_migrate = do
    answer ← ask server get_job
    delete_for_force answer
    modify drop_force
    b ← local_copy
    must server (patch_annotations b.meta.annotations)
    save_image ""
    return in_progress

  -- The branch where the server has the Job.
  unfoldable pub examine_job : String → Job → Run MigrateState
  unfolding extract_job_container_image is_job_succeeded is_job_failed delete_job_with_pods
      save_image
  examine_job desired job =
      if is_some job.deletion_timestamp
      then return in_progress
      else if extract_job_container_image job == desired
      then (if is_job_succeeded job
          then save_image desired >> return complete
          else if is_job_failed job
          then return failed
          else return in_progress)
      else (delete_job_with_pods >> return in_progress)

  -- The answer to the Get of the Job.
  unfoldable pub job_lookup : String → Answer → Run MigrateState
  unfolding examine_job
  job_lookup desired refused = fail
  job_lookup desired not_found = do
    must server own_job
    must server (create_job desired)
    return in_progress
  job_lookup desired accepted = found_job server >>= examine_job desired

  unfoldable pub ensure_migrated : Bindplane → Run MigrateState
  unfolding job_lookup get_bindplane_jobs_migrate_image
  ensure_migrated b =
      if b.status.components.jobs_migrate.image == get_bindplane_jobs_migrate_image b
      then return complete
      else (ask server get_job >>= job_lookup (get_bindplane_jobs_migrate_image b))

  -- reconcileMigrateJob
  unfoldable pub reconcile_migrate_job : Run MigrateState
  unfolding clean_legacy force_migrate ensure_migrated annotation_enabled
  reconcile_migrate_job = do
    clean_legacy
    must server (run_step migrate_service_account)
    b ← local_copy
    if annotation_enabled lib.parse_bool b.meta.annotations force_migrate_annotation
        then force_migrate
        else ensure_migrated b
