-- ===== src/Validation/Pods.antt =====
-- internal/validation/validate.go: the checks on replicas, images, rollouts, disruption budgets and
-- the Transform Agent's TLS.
pub mod Accepts
use bindplane_operator.Prelude.{
  ℕ, ℤ, pos, ltb_ℤ, Bool, true, false, not, ◌&&◌, ◌||◌, String, List, [], ◌∷◌, ◌++◌, Option, none,
  some, codes, has_prefix, is_some, nat_eq, ◌==◌, ◌^^◌, if◌then◌else◌,
}
use bindplane_operator.Kube.{IntOrString, int_val, str_val}
use bindplane_operator.Crd.{Bindplane, PodDisruptionBudgetSpec, TransformAgentComponentSpec}
use bindplane_operator.Validation.Patterns.{is_percent}
use bindplane_operator.Validation.Errors.{
  Error, too_few_replicas, image_whitespace, image_scheme, strategy_and_rollout, budget_both,
  budget_negative, budget_not_percent, tls_without_issuer, ◌>>◌, fail_if, on,
}

-- The three checks on replicas in ValidateBindplane.
unfoldable pub check_replicas : String → Option ℤ → Option Error
check_replicas path replicas = on replicas λ n. fail_if (ltb_ℤ n (pos 1)) (too_few_replicas path n)

-- strings.ContainsAny(s, " \t\n\r")
unfoldable pub contains_whitespace : List ℕ → Bool
contains_whitespace [] = false
contains_whitespace (c ∷ cs) =
    nat_eq c 32 || nat_eq c 9 || nat_eq c 10 || nat_eq c 13 || contains_whitespace cs

unfoldable pub has_scheme : String → Bool
has_scheme s = has_prefix s "http://" || has_prefix s "https://" || has_prefix s "docker://"

-- One round of the loop of ValidateImageOverrides.
unfoldable pub check_image : String → String → Option Error
unfolding contains_whitespace has_scheme
check_image path value =
    if value == ""
    then none
    else (fail_if (contains_whitespace (codes value)) (image_whitespace path)
        >> fail_if (has_scheme value) (image_scheme path))

unfoldable pub check_images : List (String × String) → Option Error
check_images [] = none
check_images ((path, value) ∷ rest) = check_image path value >> check_images rest

-- `if p != nil { fields = append(fields, …) }`
abbrev pub image_of {ℓ} : {A : Type ℓ} → String → (A → String) → Option A → List (String × String)
image_of path image none = []
image_of path image (some c) = (path, image c) ∷ []

unfoldable pub image_fields : Bindplane → List (String × String)
image_fields b =
    ("spec.bindplane.image", b.spec.bindplane.image)
    ∷ (image_of "spec.opamp.image" (λ c. c.image) b.spec.opamp
        ++ (image_of "spec.nats.image" (λ c. c.image) b.spec.nats
            ++ (image_of "spec.bindplaneJobs.image" (λ c. c.image) b.spec.bindplane_jobs
                ++ (image_of "spec.bindplaneJobsMigrate.image" (λ c. c.image)
                      b.spec.bindplane_jobs_migrate
                    ++ (image_of "spec.transformAgent.image" (λ c. c.image) b.spec.transform_agent
                        ++ image_of "spec.tsdb.image" (λ c. c.image) b.spec.tsdb)))))

-- ValidateImageOverrides
unfoldable pub validate_image_overrides : Bindplane → Option Error
unfolding image_fields
validate_image_overrides b = check_images (image_fields b)

-- ValidateArgoRollout
unfoldable pub validate_argo_rollout : Bindplane → Option Error
validate_argo_rollout b = on b.spec.bindplane.argo_rollout λ r.
    if r.enabled then fail_if (is_some b.spec.bindplane.strategy) strategy_and_rollout else none

-- validateIntOrPercent
unfoldable pub validate_int_or_percent : String → Option IntOrString → Option Error
validate_int_or_percent path none = none
validate_int_or_percent path (some (int_val n)) = fail_if (ltb_ℤ n (pos 0)) (budget_negative path n)
validate_int_or_percent path (some (str_val s)) =
    fail_if (not (is_percent s)) (budget_not_percent path s)

-- ValidatePodDisruptionBudget
unfoldable pub validate_pod_disruption_budget :
    String → Option PodDisruptionBudgetSpec → Option Error
unfolding validate_int_or_percent
validate_pod_disruption_budget path budget = on budget λ p. do
  fail_if (is_some p.min_available && is_some p.max_unavailable) (budget_both path)
  validate_int_or_percent (path ^^ ".minAvailable") p.min_available
  validate_int_or_percent (path ^^ ".maxUnavailable") p.max_unavailable

-- validateAllPodDisruptionBudgets
unfoldable pub validate_all_pod_disruption_budgets : Bindplane → Option Error
validate_all_pod_disruption_budgets b = do
  validate_pod_disruption_budget "spec.bindplane.podDisruptionBudget"
      b.spec.bindplane.pod_disruption_budget
  on b.spec.opamp
      λ c. validate_pod_disruption_budget "spec.opamp.podDisruptionBudget" c.pod_disruption_budget
  on b.spec.nats
      λ c. validate_pod_disruption_budget "spec.nats.podDisruptionBudget" c.pod_disruption_budget
  on b.spec.transform_agent λ c.
      validate_pod_disruption_budget "spec.transformAgent.podDisruptionBudget"
        c.pod_disruption_budget

-- ValidateTransformAgentTLSConfig
unfoldable pub validate_transform_agent_tls_config :
    Option TransformAgentComponentSpec → Option Error
validate_transform_agent_tls_config agent = on agent λ a. on a.tls λ tls. elim tls.cert_manager [
  | none ↦ some tls_without_issuer
  | some issuer ↦ fail_if (issuer.name == "") tls_without_issuer
]
