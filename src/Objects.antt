-- ===== src/Objects.antt =====
-- internal/controller/bindplane_controller.go and node_autoscaling.go: how one object of each kind is
-- created, updated or deleted. equality.Semantic.DeepEqual is a parameter.
pub mod Runs
pub mod Plans
pub mod Ensures
pub mod Workloads
pub mod Services
pub mod Chains
use bindplane_operator.Prelude.{
  ◌≡◌, ℤ, Bool, true, false, ◌&&◌, String, List, [], ◌∷◌, Option, none, some, lookup, insert, ◌==◌,
  if◌then◌else◌,
}
use bindplane_operator.Prelude.Split.{split_at_commas, trim_space}
use bindplane_operator.Kube.{ObjectMeta, PodTemplateSpec}
use bindplane_operator.Kube.Objects.{
  CertificateSpec, Certificate, ServiceAccount, DeploymentSpec, Deployment, RolloutSpec, Rollout,
  StatefulSet, ServicePort, Service, BudgetSpec, PodDisruptionBudget, HorizontalPodAutoscaler,
}
use bindplane_operator.Api.{
  certificate, certificates, Api, Act, Kind, service_accounts, deployments, rollouts, stateful_sets,
  services, pod_disruption_budgets, horizontal_pod_autoscalers, Object, service_account, deployment,
  rollout, stateful_set, service, pod_disruption_budget, horizontal_pod_autoscaler, Key, key_of,
  own, get, delete, create, update, Found, found, not_found, no_match, failed, both, done, fail,
  must, must_be_gone, fetch,
}
use bindplane_operator.Crd.{Bindplane}
use bindplane_operator.Images.{get_resource_name}

-- equality.Semantic.DeepEqual, at the types that the code compares; the last two are
-- reflect.DeepEqual, which the certificates use.
pub record Semantic : Type 0 where
  pub text_maps : List (String × String) → List (String × String) → Bool
  pub deployment_specs : DeploymentSpec → DeploymentSpec → Bool
  pub rollout_specs : RolloutSpec → RolloutSpec → Bool
  pub replica_counts : Option ℤ → Option ℤ → Bool
  pub templates : PodTemplateSpec → PodTemplateSpec → Bool
  pub ports : List ServicePort → List ServicePort → Bool
  pub budget_specs : BudgetSpec → BudgetSpec → Bool
  pub certificate_specs : CertificateSpec → CertificateSpec → Bool
  pub same_text_maps : List (String × String) → List (String × String) → Bool

-- What reconcileDeployment relies on of equality.Semantic.DeepEqual: a value equals itself.
pub record IsReflexive (eq : Semantic) : Type 0 where
  pub text_maps_refl : (a : List (String × String)) → eq.text_maps a a ≡ true
  pub deployment_specs_refl : (a : DeploymentSpec) → eq.deployment_specs a a ≡ true

-- What is to be done about an object that is live; `mismatch` is an object of another kind.
pub data Plan : Type 0 where
  keep mismatch : Plan
  change : Object → Plan

module _ (api : Api) where
  unfoldable pub carry_out : Plan → Act api
  carry_out keep = done api
  carry_out (change o) = must api (update o)
  carry_out mismatch = fail api

  unfoldable pub converge_found : Object → (Object → Plan) → Found → Act api
  unfolding carry_out
  converge_found desired plan (found o) = carry_out (plan o)
  converge_found desired plan not_found = must api (create desired)
  converge_found desired plan no_match = fail api
  converge_found desired plan failed = fail api

  -- The common shape: the owner, a Get, and a Create or what is planned.
  unfoldable pub converge : Object → (Object → Plan) → Act api
  unfolding converge_found
  converge desired plan =
      both api (must api (own (key_of desired)))
        (fetch api (key_of desired) (converge_found desired plan))

  unfoldable pub delete_found : Bool → Key → Found → Act api
  delete_found tolerant q (found o) = must api (delete q)
  delete_found tolerant q not_found = done api
  delete_found tolerant q no_match = if tolerant then done api else fail api
  delete_found tolerant q failed = fail api

  -- `tolerant` says that a kind that is not installed is no error.
  unfoldable pub delete_if_exists : Bool → Key → Act api
  unfolding delete_found
  delete_if_exists tolerant q = fetch api q (delete_found tolerant q)

  unfoldable clean_found : Key → Found → Act api
  clean_found q (found o) = must_be_gone api q
  clean_found q not_found = done api
  clean_found q no_match = fail api
  clean_found q failed = fail api

  -- The deletions of deleteOpAMPResourcesIfExist, which take an object that is gone for deleted.
  unfoldable pub clean_up : Key → Act api
  unfolding clean_found
  clean_up q = fetch api q (clean_found q)

  abbrev pub component_key : Kind → Bindplane → String → Key
  component_key k b component = record {
    kind = k;
    namespace = b.meta.namespace;
    name = get_resource_name b component;
  }

  -- deleteDeploymentIfExists
  unfoldable pub delete_deployment_if_exists : Bindplane → String → Act api
  unfolding delete_if_exists get_resource_name
  delete_deployment_if_exists b component =
      delete_if_exists false (component_key deployments b component)

  -- deleteRolloutIfExists
  unfoldable pub delete_rollout_if_exists : Bindplane → String → Act api
  unfolding delete_if_exists get_resource_name
  delete_rollout_if_exists b component = delete_if_exists true (component_key rollouts b component)

  -- deletePodDisruptionBudgetIfExists
  unfoldable pub delete_pod_disruption_budget_if_exists : Bindplane → String → Act api
  unfolding delete_if_exists get_resource_name
  delete_pod_disruption_budget_if_exists b component =
      delete_if_exists false (component_key pod_disruption_budgets b component)

  -- deleteHPAIfExists
  unfoldable pub delete_hpa_if_exists : Bindplane → String → Act api
  unfolding delete_if_exists get_resource_name
  delete_hpa_if_exists b component =
      delete_if_exists false (component_key horizontal_pod_autoscalers b component)

-- What each reconciler plans for the live object.
abbrev pub with_labels : ObjectMeta → ObjectMeta → ObjectMeta
with_labels live desired = record live { labels = desired.labels }

abbrev pub or_live : Option ℤ → Option ℤ → Option ℤ
or_live none live = live
or_live (some n) live = some n

module _ (eq : Semantic) where
  unfoldable pub plan_service_account : ServiceAccount → Object → Plan
  plan_service_account d (service_account f) =
      if eq.text_maps f.meta.labels d.meta.labels
        && eq.text_maps f.meta.annotations d.meta.annotations
      then keep
      else change (
          service_account (record f {
            meta = record f.meta { labels = d.meta.labels; annotations = d.meta.annotations };
          }))
  plan_service_account d o = mismatch

  -- A replica count that is not given is the live one.
  unfoldable pub wanted_deployment_spec : Deployment → Deployment → DeploymentSpec
  wanted_deployment_spec d f = record d.spec { replicas = or_live d.spec.replicas f.spec.replicas }

  unfoldable pub plan_deployment : Deployment → Object → Plan
  unfolding wanted_deployment_spec
  plan_deployment d (deployment f) =
      if eq.deployment_specs f.spec (wanted_deployment_spec d f)
        && eq.text_maps f.meta.labels d.meta.labels
      then keep
      else change (
          deployment
            (record f { spec = wanted_deployment_spec d f; meta = with_labels f.meta d.meta }))
  plan_deployment d o = mismatch

  unfoldable pub wanted_rollout_spec : Rollout → Rollout → RolloutSpec
  wanted_rollout_spec d f = record d.spec { replicas = or_live d.spec.replicas f.spec.replicas }

  unfoldable pub plan_rollout : Rollout → Object → Plan
  unfolding wanted_rollout_spec
  plan_rollout d (rollout f) =
      if eq.rollout_specs f.spec (wanted_rollout_spec d f)
        && eq.text_maps f.meta.labels d.meta.labels
      then keep
      else change
          (rollout (record f { spec = wanted_rollout_spec d f; meta = with_labels f.meta d.meta }))
  plan_rollout d o = mismatch

  unfoldable pub plan_stateful_set : StatefulSet → Object → Plan
  plan_stateful_set d (stateful_set f) =
      if eq.replica_counts f.spec.replicas d.spec.replicas
        && (eq.templates f.spec.template d.spec.template
            && eq.text_maps f.meta.labels d.meta.labels)
      then keep
      else change (
          stateful_set (record f {
            spec = record f.spec { replicas = d.spec.replicas; template = d.spec.template };
            meta = with_labels f.meta d.meta;
          }))
  plan_stateful_set d o = mismatch

  -- The selector keys that another controller has written are taken over.
  unfoldable pub preserve :
      List String → List (String × String) → List (String × String) → List (String × String)
  preserve [] live selector = selector
  preserve (k ∷ ks) live selector =
      let key = trim_space k in
      preserve ks live (
        if key == ""
        then selector
        else elim (lookup key live) [ none ↦ selector | some v ↦ insert key v selector ])

  unfoldable pub wanted_selector : Service → Service → List (String × String)
  unfolding preserve
  wanted_selector d f =
      elim (lookup "internal.k8s.bindplane.com/preserve-selector-keys" d.meta.annotations) [
        | none ↦ d.spec.selector
        | some names ↦ preserve (split_at_commas names) f.spec.selector d.spec.selector
      ]

  unfoldable pub plan_service : Service → Object → Plan
  unfolding wanted_selector
  plan_service d (service f) =
      if eq.ports f.spec.ports d.spec.ports
        && (eq.text_maps f.spec.selector (wanted_selector d f)
            && eq.text_maps f.meta.labels d.meta.labels)
      then keep
      else change (
          service (record f {
            spec = record f.spec { ports = d.spec.ports; selector = wanted_selector d f };
            meta = with_labels f.meta d.meta;
          }))
  plan_service d o = mismatch

  unfoldable pub plan_pod_disruption_budget : PodDisruptionBudget → Object → Plan
  plan_pod_disruption_budget d (pod_disruption_budget f) =
      if eq.budget_specs f.spec d.spec && eq.text_maps f.meta.labels d.meta.labels
      then keep
      else change
          (pod_disruption_budget (record f { spec = d.spec; meta = with_labels f.meta d.meta }))
  plan_pod_disruption_budget d o = mismatch

  unfoldable pub plan_certificate : Certificate → Object → Plan
  plan_certificate d (certificate f) =
      if eq.certificate_specs f.spec d.spec && eq.same_text_maps f.meta.labels d.meta.labels
      then keep
      else change (certificate (record f { spec = d.spec; meta = with_labels f.meta d.meta }))
  plan_certificate d o = mismatch

-- An autoscaler is always written.
unfoldable pub plan_horizontal_pod_autoscaler : HorizontalPodAutoscaler → Object → Plan
plan_horizontal_pod_autoscaler d (horizontal_pod_autoscaler f) =
    change
      (horizontal_pod_autoscaler (record f { spec = d.spec; meta = with_labels f.meta d.meta }))
plan_horizontal_pod_autoscaler d o = mismatch

module _ (api : Api) (eq : Semantic) where
  -- reconcileServiceAccount
  unfoldable pub reconcile_service_account : ServiceAccount → Act api
  unfolding converge plan_service_account
  reconcile_service_account d = converge api (service_account d) (plan_service_account eq d)

  -- reconcileDeployment
  unfoldable pub reconcile_deployment : Deployment → Act api
  unfolding converge plan_deployment
  reconcile_deployment d = converge api (deployment d) (plan_deployment eq d)

  -- reconcileRollout
  unfoldable pub reconcile_rollout : Rollout → Act api
  unfolding converge plan_rollout
  reconcile_rollout d = converge api (rollout d) (plan_rollout eq d)

  -- reconcileStatefulSet
  unfoldable pub reconcile_stateful_set : StatefulSet → Act api
  unfolding converge plan_stateful_set
  reconcile_stateful_set d = converge api (stateful_set d) (plan_stateful_set eq d)

  -- reconcileService
  unfoldable pub reconcile_service : Service → Act api
  unfolding converge plan_service
  reconcile_service d = converge api (service d) (plan_service eq d)

  -- reconcilePodDisruptionBudget
  unfoldable pub reconcile_pod_disruption_budget : PodDisruptionBudget → Act api
  unfolding converge plan_pod_disruption_budget
  reconcile_pod_disruption_budget d =
      converge api (pod_disruption_budget d) (plan_pod_disruption_budget eq d)

  -- reconcileHorizontalPodAutoscaler
  unfoldable pub reconcile_horizontal_pod_autoscaler : HorizontalPodAutoscaler → Act api
  unfolding converge plan_horizontal_pod_autoscaler
  reconcile_horizontal_pod_autoscaler d =
      converge api (horizontal_pod_autoscaler d) (plan_horizontal_pod_autoscaler d)

  -- reconcileCertificate, after its caller's SetControllerReference.
  unfoldable pub reconcile_certificate : Certificate → Act api
  unfolding converge plan_certificate
  reconcile_certificate d = converge api (certificate d) (plan_certificate eq d)
