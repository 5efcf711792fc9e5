-- ===== src/Validation/All/Whole.antt =====
-- Which resources ValidateBindplane accepts as a whole, written without its control flow.
use bindplane_operator.Validation.Pods.{
  image_of, image_fields, validate_image_overrides, validate_all_pod_disruption_budgets,
}
use bindplane_operator.Prelude.{
  All-append, ◌++◌, List, [], ◌∷◌, none, some, ℤ, pos, ◌≤ℤ◌, ◌<◌, ◌≡◌, ◌⊎◌, ◌≢◌, ◌↔◌, String,
  Option, All, codes, ◌==◌, eq_iff, arith,
}
use bindplane_operator.Crd.{Bindplane}
use bindplane_operator.Validation.Errors.{
  Error, ◌>>◌, fail_if, >>-eq-none_iff, on-eq-none_iff, Given, Present,
}
use bindplane_operator.Validation.Name.Dns.{IsAscii, IsLabel, validate_bindplane_name-eq-none_iff}
use bindplane_operator.Validation.ExtraEnv.Accepts.{IsUserName}
use bindplane_operator.Validation.Pods.Accepts.{
  IsBudget, IsImage, IsRollout, HasIssuer, validate_pod_disruption_budget-eq-none_iff,
  check_images-eq-none_iff, check_replicas-eq-none_iff, validate_argo_rollout-eq-none_iff,
  tls_config-eq-none_iff,
}
use bindplane_operator.Validation.Config.Accepts.{
  HasStatusKeys, IsAuth, IsTracing, validate_license_config-eq-none_iff,
  validate_status_config-eq-none_iff, validate_auth_config-eq-none_iff,
  validate_tracing_config-eq-none_iff, validate_postgres_config-eq-none_iff,
}
use bindplane_operator.Validation.Config.Durations.{
  IsMetrics, IsAgentVersions, validate_metrics_config-eq-none_iff,
  validate_agent_versions_config-eq-none_iff,
}
use bindplane_operator.Validation.All.{Environment, validate_bindplane}
use bindplane_operator.Validation.All.Accepts.{
  EachEnv, EachVolumes, iff_trans, env_iff, volumes_iff,
}

-- Every budget of the components that have one.
abbrev pub AreBudgets : Bindplane → Type 0
AreBudgets b =
    Given IsBudget b.spec.bindplane.pod_disruption_budget
    × (Given (λ c. Given IsBudget c.pod_disruption_budget) b.spec.opamp
        × (Given (λ c. Given IsBudget c.pod_disruption_budget) b.spec.nats
            × Given (λ c. Given IsBudget c.pod_disruption_budget) b.spec.transform_agent))

-- The image of each of the seven components.
abbrev pub AreImages : Bindplane → Type 0
AreImages b =
    IsImage b.spec.bindplane.image
    × (Given (λ c. IsImage c.image) b.spec.opamp
        × (Given (λ c. IsImage c.image) b.spec.nats
            × (Given (λ c. IsImage c.image) b.spec.bindplane_jobs
                × (Given (λ c. IsImage c.image) b.spec.bindplane_jobs_migrate
                    × (Given (λ c. IsImage c.image) b.spec.transform_agent
                        × Given (λ c. IsImage c.image) b.spec.tsdb)))))

abbrev pub AtLeastOne : Option ℤ → Type 0
AtLeastOne replicas = Given (λ n. pos 1 ≤ℤ n) replicas

-- A label for a name, a version, replicas of one at least, the TLS issuer of the Transform Agent,
-- extra variables and volumes that are not reserved, one license, and a configuration, budgets, a
-- rollout and images that are well formed.
pub record IsValid (env : Environment) (b : Bindplane) : Type 0 where
  pub name : IsLabel (codes b.meta.name)
  pub version : b.spec.version ≢ ""
  pub replicas : AtLeastOne b.spec.bindplane.replicas
  pub nats_replicas : Given (λ c. AtLeastOne c.replicas) b.spec.nats
  pub agent_replicas : Given (λ c. AtLeastOne c.replicas) b.spec.transform_agent
  pub issuer : Given HasIssuer b.spec.transform_agent
  pub extra_env : EachEnv (All (λ v. IsUserName env.allow_bindplane_extra_env v.name)) b
  pub volumes : EachVolumes b
  pub license :
      ((b.spec.config.license ≢ "") × (b.spec.config.license_secret_ref ≡ none))
      ⊎ ((b.spec.config.license ≡ "") × (b.spec.config.license_secret_ref ≢ none))
  pub status_keys : HasStatusKeys b.spec.config
  pub auth : Given IsAuth b.spec.config.auth
  pub metrics : Given (IsMetrics env.parse_duration) b.spec.config.metrics
  pub tracing : Given IsTracing b.spec.config.tracing
  pub postgres : Present (λ p. p.host ≢ "") b.spec.config.store.postgres
  pub agent_versions : Given (IsAgentVersions env.parse_duration) b.spec.config.agent_versions
  pub budgets : AreBudgets b
  pub rollout : IsRollout b
  pub images : AreImages b

both_iff :
    {P Q : Type 0} {m k : Option Error}
    → (m ≡ none) ↔ P
    → (k ≡ none) ↔ Q
    → ((m >> k) ≡ none) ↔ (P × Q)
both_iff {m} {k} (f, f') (g, g') =
    let (to, from) = >>-eq-none_iff m k in
    (λ h. (f (to h).0, g (to h).1), λ (p, q). from (f' p, g' q))

budgets_iff : (b : Bindplane) → (validate_all_pod_disruption_budgets b ≡ none) ↔ AreBudgets b
unfolding validate_all_pod_disruption_budgets
budgets_iff b = both_iff (validate_pod_disruption_budget-eq-none_iff _ _) (
    both_iff
      (on-eq-none_iff _ _
        (λ c. validate_pod_disruption_budget-eq-none_iff _ c.pod_disruption_budget) b.spec.opamp)
      (both_iff
        (on-eq-none_iff _ _
          (λ c. validate_pod_disruption_budget-eq-none_iff _ c.pod_disruption_budget) b.spec.nats)
        (on-eq-none_iff _ _
          (λ c. validate_pod_disruption_budget-eq-none_iff _ c.pod_disruption_budget)
          b.spec.transform_agent)))

-- The list of the images, part by part.
abbrev AreListed : List (String × String) → Type 0
AreListed = All (λ image. IsImage image.1)

AreListed-split :
    (xs ys : List (String × String)) → AreListed (xs ++ ys) → AreListed xs × AreListed ys
AreListed-split [] ys h = (tt, h)
AreListed-split (x ∷ xs) ys (i, h) = let (a, c) = AreListed-split xs ys h in ((i, a), c)

append_iff :
    {P Q : Type 0} (xs ys : List (String × String))
    → AreListed xs ↔ P
    → AreListed ys ↔ Q
    → AreListed (xs ++ ys) ↔ (P × Q)
append_iff xs ys (f, f') (g, g') = (
  λ h. let (a, c) = AreListed-split xs ys h in (f a, g c),
  λ (p, q). All-append (λ image. IsImage image.1) xs ys (f' p) (g' q),
)

image_of_iff :
    {A : Type 0} (path : String) (image : A → String) (c : Option A)
    → AreListed (image_of path image c) ↔ Given (λ x. IsImage (image x)) c
image_of_iff path image none = ((λ h. tt), λ h. tt)
image_of_iff path image (some c) = ((λ h. h.0), λ h. (h, tt))

images_iff : (b : Bindplane) → (validate_image_overrides b ≡ none) ↔ AreImages b
unfolding validate_image_overrides image_fields
images_iff b = iff_trans (check_images-eq-none_iff (image_fields b)) (
    append_iff (("", b.spec.bindplane.image) ∷ []) _ ((λ h. h.0), λ h. (h, tt))
      (append_iff _ _ (image_of_iff _ _ b.spec.opamp) (
        append_iff _ _ (image_of_iff _ _ b.spec.nats) (
          append_iff _ _ (image_of_iff _ _ b.spec.bindplane_jobs) (
            append_iff _ _ (image_of_iff _ _ b.spec.bindplane_jobs_migrate) (
              append_iff _ _ (image_of_iff _ _ b.spec.transform_agent)
                (image_of_iff _ _ b.spec.tsdb)))))))

version_iff : (s : String) (e : Error) → (fail_if (s == "") e ≡ none) ↔ (s ≢ "")
version_iff s e = ground (arith, eq_iff s "")

pub validate_bindplane-eq-none_iff :
    (env : Environment) (b : Bindplane)
    → IsAscii env.unicode
    → All (λ c. c < 128) (codes b.meta.name)
    → (validate_bindplane env b ≡ none) ↔ IsValid env b
unfolding validate_bindplane
validate_bindplane-eq-none_iff env b ascii name =
    iff_trans
      (both_iff (validate_bindplane_name-eq-none_iff env.unicode ascii b.meta.name name) (
        both_iff (version_iff b.spec.version _) (
          both_iff (check_replicas-eq-none_iff _ _) (
            both_iff (on-eq-none_iff _ _ (λ c. check_replicas-eq-none_iff _ c.replicas) b.spec.nats)
              (both_iff
                (on-eq-none_iff _ _ (λ c. check_replicas-eq-none_iff _ c.replicas)
                  b.spec.transform_agent)
                (both_iff (tls_config-eq-none_iff _) (
                  both_iff (env_iff _ b) (
                    both_iff (volumes_iff b) (
                      both_iff (validate_license_config-eq-none_iff _) (
                        both_iff (validate_status_config-eq-none_iff _) (
                          both_iff (validate_auth_config-eq-none_iff _) (
                            both_iff (validate_metrics_config-eq-none_iff env.parse_duration _) (
                              both_iff (validate_tracing_config-eq-none_iff _) (
                                both_iff (validate_postgres_config-eq-none_iff _) (
                                  both_iff
                                    (validate_agent_versions_config-eq-none_iff env.parse_duration
                                      _)
                                    (both_iff (budgets_iff b) (
                                      both_iff (validate_argo_rollout-eq-none_iff b)
                                        (images_iff b))))))))))))))))))
      (
        λ (
          a0,
          (
            a1,
            (
              a2,
              (
                a3,
                (
                  a4,
                  (
                    a5,
                    (a6, (a7, (a8, (a9, (a10, (a11, (a12, (a13, (a14, (a15, (a16, a17))))))))))),
                  ),
                ),
              ),
            ),
          ),
        ).
            record {
              name = a0;
              version = a1;
              replicas = a2;
              nats_replicas = a3;
              agent_replicas = a4;
              issuer = a5;
              extra_env = a6;
              volumes = a7;
              license = a8;
              status_keys = a9;
              auth = a10;
              metrics = a11;
              tracing = a12;
              postgres = a13;
              agent_versions = a14;
              budgets = a15;
              rollout = a16;
              images = a17;
            },
        λ v. (
          v.name,
          (
            v.version,
            (
              v.replicas,
              (
                v.nats_replicas,
                (
                  v.agent_replicas,
                  (
                    v.issuer,
                    (
                      v.extra_env,
                      (
                        v.volumes,
                        (
                          v.license,
                          (
                            v.status_keys,
                            (
                              v.auth,
                              (
                                v.metrics,
                                (
                                  v.tracing,
                                  (
                                    v.postgres,
                                    (v.agent_versions, (v.budgets, (v.rollout, v.images))),
                                  ),
                                ),
                              ),
                            ),
                          ),
                        ),
                      ),
                    ),
                  ),
                ),
              ),
            ),
          ),
        ),
      )
