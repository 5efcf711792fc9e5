-- ===== src/Validation/ExtraEnv.antt =====
-- internal/validation/validate.go: ValidateExtraEnv and validateAllExtraEnv.
pub mod Accepts
use bindplane_operator.Prelude.{
  ℕ, suc, Bool, true, false, not, ◌&&◌, String, List, [], ◌∷◌, Option, none, some, member,
  has_prefix,
}
use bindplane_operator.Kube.{EnvVar}
use bindplane_operator.Crd.{Bindplane}
use bindplane_operator.Validation.Errors.{Error, env_reserved, env_bindplane, ◌>>◌, fail_if, on}

-- reservedExtraEnvNames
abbrev pub reserved_extra_env_names : List String
reserved_extra_env_names =
    "KUBERNETES_NAMESPACE_NAME" ∷ "KUBERNETES_POD_NAME" ∷ "KUBERNETES_CONTAINER_NAME" ∷ "GOMEMLIMIT"
    ∷ "GOMAXPROCS" ∷ []

unfoldable pub check_extra_env : String → Bool → ℕ → List EnvVar → Option Error
check_extra_env path allow i [] = none
check_extra_env path allow i (ev ∷ evs) =
    fail_if (member ev.name reserved_extra_env_names) (env_reserved path i ev.name)
    >> fail_if (not allow && has_prefix ev.name "BINDPLANE_") (env_bindplane path i ev.name)
    >> check_extra_env path allow (suc i) evs

-- ValidateExtraEnv
unfoldable pub validate_extra_env : String → List EnvVar → Bool → Option Error
unfolding check_extra_env
validate_extra_env path vars allow = check_extra_env path allow 0 vars

-- validateAllExtraEnv; `allow` is AllowBindplaneExtraEnv.
unfoldable pub validate_all_extra_env : Bool → Bindplane → Option Error
validate_all_extra_env allow b = do
  validate_extra_env "spec.bindplane.extraEnv" spec.bindplane.extra_env allow
  on spec.bindplane_jobs λ c. validate_extra_env "spec.bindplaneJobs.extraEnv" c.extra_env allow
  on spec.bindplane_jobs_migrate
      λ c. validate_extra_env "spec.bindplaneJobsMigrate.extraEnv" c.extra_env allow
  on spec.transform_agent λ c. validate_extra_env "spec.transformAgent.extraEnv" c.extra_env allow
  on spec.tsdb λ c. validate_extra_env "spec.tsdb.extraEnv" c.extra_env allow
  on spec.nats λ c. validate_extra_env "spec.nats.extraEnv" c.extra_env allow
  on spec.opamp λ c. validate_extra_env "spec.opamp.extraEnv" c.extra_env allow
  where
    open b use {spec}
