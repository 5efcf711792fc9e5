-- ===== src/Objects/Workloads.antt =====
-- internal/controller/bindplane_controller.go: reconcileDeployment, and what it leaves of the live
-- object.
use bindplane_operator.Api.{Api, Object, deployment, Key, key_of, same_key}
use bindplane_operator.Prelude.{
  Option-cases, is_some, ℤ, true, ◌&&◌, Option, none, some, ◌≡◌, refl, ap, ◌∙◌, ◌⊎◌, inl, inr,
  if◌then◌else◌, Bool-cases, arith,
}
use bindplane_operator.Kube.Objects.{DeploymentSpec, Deployment}
use bindplane_operator.Cluster.{returns}
use bindplane_operator.Objects.{
  Semantic, plan_deployment, wanted_deployment_spec, reconcile_deployment, IsReflexive,
}
use bindplane_operator.Objects.Plans.{planned, converged, plan_deployment-KeepsKeys}
use bindplane_operator.Objects.Ensures.{converge-Holds}

module _ (eq : Semantic) where
  -- The spec that the live Deployment is to have, from what is live.
  abbrev pub spec_for : Deployment → Option Object → DeploymentSpec
  spec_for d (some (deployment f)) = wanted_deployment_spec eq d f
  spec_for d o = d.spec

  abbrev pub live_replicas : Option Object → Option ℤ
  live_replicas (some (deployment f)) = f.spec.replicas
  live_replicas o = none

  -- What a Deployment's reconciler leaves under its key.
  pub record IsDeployed (d : Deployment) (before : Option Object) (x : Deployment) : Type 0 where
    pub spec_fits : eq.deployment_specs x.spec (spec_for d before) ≡ true
    pub labels_fit : eq.text_maps x.meta.labels d.meta.labels ≡ true
    pub keeps_replicas : (is_some d.spec.replicas ≡ true) ⊎ (x.spec.replicas ≡ live_replicas before)

  module _ (r : IsReflexive eq) where
    plan_deployment-IsDeployed :
        (d f : Deployment)
        → (x : Deployment) × (planned (deployment f) (plan_deployment eq d (deployment f))
            ≡ deployment x)
          × IsDeployed d (some (deployment f)) x
    unfolding plan_deployment wanted_deployment_spec
    plan_deployment-IsDeployed d f =
        elim (Bool-cases (
          eq.deployment_specs f.spec (wanted_deployment_spec eq d f)
          && eq.text_maps f.meta.labels d.meta.labels)) [
            | inl e ↦ (
              f,
              rw e refl,
              record {
                spec_fits = ground arith;
                labels_fit = ground arith;
                keeps_replicas = inr refl;
              },
            )
            | inr e ↦ (
              record f {
                spec = wanted_deployment_spec eq d f;
                meta = record f.meta { labels = d.meta.labels };
              },
              rw e refl,
              record {
                spec_fits = r.deployment_specs_refl (wanted_deployment_spec eq d f);
                labels_fit = r.text_maps_refl d.meta.labels;
                keeps_replicas = elim (Option-cases d.spec.replicas) [
                  | inl n ↦ inr (rw n refl)
                  | inr (c, n) ↦ inl (rw n refl)
                ];
              },
            )
          ]

    converged-IsDeployed :
        (d : Deployment) (before : Option Object)
        → ((o : Object) → before ≡ some o → key_of o ≡ key_of (deployment d))
        → (x : Deployment) × (converged (deployment d) (plan_deployment eq d) before ≡ deployment x)
          × IsDeployed d before x
    converged-IsDeployed d none keyed = (
      d,
      refl,
      record {
        spec_fits = r.deployment_specs_refl d.spec;
        labels_fit = r.text_maps_refl d.meta.labels;
        keeps_replicas = elim (Option-cases d.spec.replicas) [
          | inl n ↦ inr n
          | inr (c, n) ↦ inl (rw n refl)
        ];
      },
    )
    converged-IsDeployed d (some (deployment f)) keyed = plan_deployment-IsDeployed d f
    converged-IsDeployed d (some o) keyed = absurd (cc (keyed o refl))

-- On an API server as its interface says, and with DeepEqual reflexive: when reconcileDeployment
-- returns without an error, a Deployment stands under the desired one's name whose spec and labels
-- are DeepEqual to the desired ones, but that a replica count which is not given is the live one,
-- so that it is what it was; and every other object is what it was.
pub reconcile_deployment-IsDeployed :
    (api : Api) (eq : Semantic) (d : Deployment) (s t : api.State)
    → IsReflexive eq
    → reconcile_deployment api eq d s ≡ (returns tt, t)
    → (x : Deployment) × IsDeployed eq d (api.live s (key_of (deployment d))) x
      × ((k : Key)
          → api.live t k
            ≡ (if same_key (key_of (deployment d)) k then some (deployment x) else api.live s k))
unfolding reconcile_deployment
reconcile_deployment-IsDeployed api eq d s t r h =
    let k = key_of (deployment d) in
    let holds =
      converge-Holds api (deployment d) (plan_deployment eq d) s t (plan_deployment-KeepsKeys eq d)
        h in
    let (x, is_x, fits) = converged-IsDeployed eq r d (api.live s k) (api.live_under_its_key s k) in
    (x, fits, λ q. holds q ∙ ap (λ o. if same_key k q then some o else api.live s q) is_x)
