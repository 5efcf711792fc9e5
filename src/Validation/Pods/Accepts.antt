-- ===== src/Validation/Pods/Accepts.antt =====
-- Which disruption budgets, images and rollouts are accepted.
use bindplane_operator.Prelude.{
  ℕ, has_prefix, ◌≢◌, [], ◌∷◌, ℤ, pos, ◌≤ℤ◌, ◌≤◌, ◌≡◌, refl, ◌↔◌, ◌⊎◌, true, false, String, List,
  Option, none, some, All, codes, ◌==◌, eq_iff, ◌^^◌, arith,
}
use bindplane_operator.Kube.{IntOrString, int_val, str_val}
use bindplane_operator.Crd.{
  Bindplane, PodDisruptionBudgetSpec, TransformAgentComponentSpec, TransformAgentTlsConfig,
  CertManagerTlsIssuerRef,
}
use bindplane_operator.Validation.Errors.{tls_without_issuer, fail_if, on, >>-eq-none_iff, Given}
use bindplane_operator.Validation.Patterns.Percentages.{percent_text, is_percent_iff}
use bindplane_operator.Validation.Pods.{
  contains_whitespace, has_scheme, check_image, check_images, validate_int_or_percent,
  validate_pod_disruption_budget, validate_argo_rollout, validate_transform_agent_tls_config,
  check_replicas,
}

-- A number of pods that is not negative, or a percentage from 0 to 100.
abbrev pub IsAmount : IntOrString → Type 0
IsAmount (int_val n) = pos 0 ≤ℤ n
IsAmount (str_val s) = (n : ℕ) × (n ≤ 100) × (codes s ≡ percent_text n)

abbrev pub IsBudget : PodDisruptionBudgetSpec → Type 0
IsBudget p =
    ((p.min_available ≡ none) ⊎ (p.max_unavailable ≡ none))
    × Given IsAmount p.min_available
    × Given IsAmount p.max_unavailable

IsAmount-eq-none_iff :
    (path : String) (v : Option IntOrString)
    → (validate_int_or_percent path v ≡ none) ↔ Given IsAmount v
unfolding validate_int_or_percent
IsAmount-eq-none_iff path none = ground arith
IsAmount-eq-none_iff path (some (int_val n)) = ground arith
IsAmount-eq-none_iff path (some (str_val s)) =
    let (to, from) = is_percent_iff s in (λ h. to (ground arith), λ h. rw (from h))

budget-eq-none_iff :
    (path : String) (p : PodDisruptionBudgetSpec)
    → (validate_pod_disruption_budget path (some p) ≡ none) ↔ (
        ((p.min_available ≡ none) ⊎ (p.max_unavailable ≡ none))
        × (validate_int_or_percent (path ^^ ".minAvailable") p.min_available ≡ none)
        × (validate_int_or_percent (path ^^ ".maxUnavailable") p.max_unavailable ≡ none))
unfolding validate_pod_disruption_budget
budget-eq-none_iff path p = ground arith

-- A disruption budget is accepted exactly when it does not set both amounts, and each that it sets
-- is a number from 0 or a percentage from 0% to 100%.
pub validate_pod_disruption_budget-eq-none_iff :
    (path : String) (budget : Option PodDisruptionBudgetSpec)
    → (validate_pod_disruption_budget path budget ≡ none) ↔ Given IsBudget budget
unfolding validate_pod_disruption_budget
validate_pod_disruption_budget-eq-none_iff path none = ground arith
validate_pod_disruption_budget-eq-none_iff path (some p) =
    let (to, from) = budget-eq-none_iff path p in
    let (min_to, min_from) = IsAmount-eq-none_iff (path ^^ ".minAvailable") p.min_available in
    let (max_to, max_from) = IsAmount-eq-none_iff (path ^^ ".maxUnavailable") p.max_unavailable in
    (
      λ h. let (one, least, most) = to h in (one, min_to least, max_to most),
      λ (one, least, most). from (one, min_from least, max_from most),
    )

-- No space, tab, line feed or carriage return.
abbrev pub IsInk : ℕ → Type 0
IsInk c = (c ≢ 32) × ((c ≢ 9) × ((c ≢ 10) × (c ≢ 13)))

-- An image reference that is empty, or has no white space and no scheme of a URL.
abbrev pub IsImage : String → Type 0
IsImage s =
    (s ≡ "")
    ⊎ (All IsInk (codes s)
        × ((has_prefix s "http://" ≡ false)
            × ((has_prefix s "https://" ≡ false) × (has_prefix s "docker://" ≡ false))))

contains_whitespace_iff : (cs : List ℕ) → (contains_whitespace cs ≡ false) ↔ All IsInk cs
unfolding contains_whitespace
contains_whitespace_iff [] = ground arith
contains_whitespace_iff (c ∷ cs) = ground (arith, contains_whitespace_iff cs)

IsImage-eq-none_iff : (path value : String) → (check_image path value ≡ none) ↔ IsImage value
unfolding check_image has_scheme
IsImage-eq-none_iff path value =
    ground (arith, eq_iff value "", contains_whitespace_iff (codes value))

-- The images of a list are accepted exactly when each is empty or plain.
pub check_images-eq-none_iff :
    (images : List (String × String))
    → (check_images images ≡ none) ↔ All (λ image. IsImage image.1) images
unfolding check_images
check_images-eq-none_iff [] = ground arith
check_images-eq-none_iff ((path, value) ∷ rest) =
    let (to, from) = >>-eq-none_iff (check_image path value) (check_images rest) in
    let (one, one') = IsImage-eq-none_iff path value in
    let (more, more') = check_images-eq-none_iff rest in
    (λ h. (one (to h).0, more (to h).1), λ (p, h). from (one' p, more' h))

pub check_replicas-eq-none_iff :
    (path : String) (replicas : Option ℤ)
    → (check_replicas path replicas ≡ none) ↔ Given (λ n. pos 1 ≤ℤ n) replicas
unfolding check_replicas
check_replicas-eq-none_iff path replicas = ground arith

-- A rollout that is enabled goes with no strategy.
abbrev pub IsRollout : Bindplane → Type 0
IsRollout b =
    Given (λ r. (r.enabled ≡ true) → b.spec.bindplane.strategy ≡ none) b.spec.bindplane.argo_rollout

pub validate_argo_rollout-eq-none_iff :
    (b : Bindplane) → (validate_argo_rollout b ≡ none) ↔ IsRollout b
unfolding validate_argo_rollout
validate_argo_rollout-eq-none_iff b = ground arith

-- TLS of the Transform Agent names an issuer.
abbrev pub HasIssuer : TransformAgentComponentSpec → Type 0
HasIssuer a =
    Given (λ tls. (r : CertManagerTlsIssuerRef) × (tls.cert_manager ≡ some r) × (r.name ≢ "")) a.tls

pub tls_config-eq-none_iff :
    (agent : Option TransformAgentComponentSpec)
    → (validate_transform_agent_tls_config agent ≡ none) ↔ Given HasIssuer agent
unfolding validate_transform_agent_tls_config
tls_config-eq-none_iff none = ground arith
tls_config-eq-none_iff (some a) = tls a.tls
  where
    tls :
        (t : Option TransformAgentTlsConfig)
        → (on t (λ tls. elim tls.cert_manager [
          | none ↦ some tls_without_issuer
          | some issuer ↦ fail_if (issuer.name == "") tls_without_issuer
        ])
            ≡ none)
          ↔ Given
              (λ tls. (r : CertManagerTlsIssuerRef) × (tls.cert_manager ≡ some r) × (r.name ≢ ""))
              t
    tls none = ground arith
    tls (some t) = issuer t.cert_manager
      where
        issuer :
            (c : Option CertManagerTlsIssuerRef)
            → ((elim c [
              | none ↦ some tls_without_issuer
              | some r ↦ fail_if (r.name == "") tls_without_issuer
            ])
                ≡ none)
              ↔ ((r : CertManagerTlsIssuerRef) × (c ≡ some r) × (r.name ≢ ""))
        issuer none = ground arith
        issuer (some r) = (
          λ h. (r, refl, ground (arith, eq_iff r.name "")),
          λ (r', e, n). ground (arith, eq_iff r.name "", eq_iff r'.name ""),
        )
