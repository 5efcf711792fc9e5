-- ===== src/Validation/All.antt =====
-- internal/validation/validate.go: ValidateBindplane, and the webhook that calls it
-- (internal/webhook/v1alpha1).
pub mod Accepts
pub mod Whole
use bindplane_operator.Prelude.{ℤ, Bool, String, Option, none, some, ◌==◌}
use bindplane_operator.Crd.{Bindplane}
use bindplane_operator.Validation.Errors.{Error, version_empty, ◌>>◌, fail_if, on}
use bindplane_operator.Validation.Name.{Unicode, validate_bindplane_name}
use bindplane_operator.Validation.ExtraEnv.{validate_all_extra_env}
use bindplane_operator.Validation.Volumes.{validate_all_extra_volumes}
use bindplane_operator.Validation.Pods.{
  check_replicas, validate_image_overrides, validate_argo_rollout,
  validate_all_pod_disruption_budgets, validate_transform_agent_tls_config,
}
use bindplane_operator.Validation.Config.{
  validate_license_config, validate_status_config, validate_auth_config, validate_metrics_config,
  validate_tracing_config, validate_postgres_config, validate_agent_versions_config,
}

-- What the validators take from Go's library, and the operator's flag --allow-bindplane-extra-env.
pub record Environment : Type 0 where
  pub unicode : Unicode
  pub parse_duration : String → Option ℤ
  pub allow_bindplane_extra_env : Bool

-- ValidateBindplane
unfoldable pub validate_bindplane : Environment → Bindplane → Option Error
validate_bindplane env b = do
  validate_bindplane_name env.unicode b.meta.name
  fail_if (b.spec.version == "") version_empty
  check_replicas "spec.bindplane.replicas" b.spec.bindplane.replicas
  on b.spec.nats λ c. check_replicas "spec.nats.replicas" c.replicas
  on b.spec.transform_agent λ c. check_replicas "spec.transformAgent.replicas" c.replicas
  validate_transform_agent_tls_config b.spec.transform_agent
  validate_all_extra_env env.allow_bindplane_extra_env b
  validate_all_extra_volumes b
  validate_license_config b.spec.config
  validate_status_config b.spec.config
  validate_auth_config b.spec.config
  validate_metrics_config env.parse_duration b.spec.config
  validate_tracing_config b.spec.config
  validate_postgres_config b.spec.config
  validate_agent_versions_config env.parse_duration b.spec.config
  validate_all_pod_disruption_budgets b
  validate_argo_rollout b
  validate_image_overrides b

-- What the API server asks the webhook about; an update is judged by the new object.
pub data Admission : Type 0 where
  create : Bindplane → Admission
  update : (old new : Bindplane) → Admission
  delete : Bindplane → Admission

-- ValidateCreate, ValidateUpdate and ValidateDelete
unfoldable pub admit : Environment → Admission → Option Error
admit env (create b) = validate_bindplane env b
admit env (update old new) = validate_bindplane env new
admit env (delete b) = none
