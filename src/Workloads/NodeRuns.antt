-- ===== src/Workloads/NodeRuns.antt =====
-- internal/controller/node.go: reconcileNode on an API server that refuses only what does not fit
-- its objects.
use bindplane_operator.Prelude.{
  Bool, true, false, List, Option, none, some, ◌≡◌, refl, ap, ◌∙◌, inl, inr, ℤ, Bool-cases, arith,
}
use bindplane_operator.Kube.{EnvVar}
use bindplane_operator.Kube.Objects.{
  ServiceAccount, Deployment, Rollout, Service, PodDisruptionBudget, HorizontalPodAutoscaler,
}
use bindplane_operator.Cluster.{returns}
use bindplane_operator.Crd.{Bindplane, NodeAutoscalingSpec}
use bindplane_operator.GoRuntime.{QuantityOps}
use bindplane_operator.Merge.{Codecs}
use bindplane_operator.ConfigEnv.Common.{get_bindplane_common_env_vars}
use bindplane_operator.Api.{
  Api, service_account, deployment, rollout, service, pod_disruption_budget,
  horizontal_pod_autoscaler, deployments, rollouts, pod_disruption_budgets,
  horizontal_pod_autoscalers,
}
use bindplane_operator.Parts.{new_pod_disruption_budget}
use bindplane_operator.Objects.{
  Semantic, plan_service_account, plan_deployment, plan_rollout, plan_service,
  plan_pod_disruption_budget, plan_horizontal_pod_autoscaler, reconcile_service_account,
  reconcile_deployment, reconcile_rollout, reconcile_service, reconcile_pod_disruption_budget,
  reconcile_horizontal_pod_autoscaler, delete_deployment_if_exists, delete_rollout_if_exists,
  delete_pod_disruption_budget_if_exists, delete_hpa_if_exists, component_key,
}
use bindplane_operator.Objects.Plans.{
  plan_service_account-KeepsKeys, plan_deployment-KeepsKeys, plan_rollout-KeepsKeys,
  plan_service-KeepsKeys, plan_pod_disruption_budget-KeepsKeys,
  plan_horizontal_pod_autoscaler-KeepsKeys,
}
use bindplane_operator.Objects.Runs.{
  IsWilling, IsPlanned, Runs, both-Runs, converge-Runs, delete_if_exists-Runs,
}
use bindplane_operator.Workloads.Node.{
  node_service_account, node_service, node_hpa, node_rollout, node_deployment, node_deployment_for,
  node_deployment_of, autoscaling_of, use_rollout,
}
use bindplane_operator.Workloads.{with_env}
use bindplane_operator.Workloads.NodeSteps.{
  reconcile_node, reconcile_node_workload, reconcile_node_budget, reconcile_node_hpa,
}

module _ (eq : Semantic) where
  plan_service_account-IsPlanned :
      (d : ServiceAccount) → IsPlanned (service_account d) (plan_service_account eq d)
  unfolding plan_service_account
  plan_service_account-IsPlanned d (service_account f) m = ground arith
  plan_service_account-IsPlanned d o m = absurd (cc)

  plan_deployment-IsPlanned : (d : Deployment) → IsPlanned (deployment d) (plan_deployment eq d)
  unfolding plan_deployment
  plan_deployment-IsPlanned d (deployment f) m = ground arith
  plan_deployment-IsPlanned d o m = absurd (cc)

  plan_rollout-IsPlanned : (d : Rollout) → IsPlanned (rollout d) (plan_rollout eq d)
  unfolding plan_rollout
  plan_rollout-IsPlanned d (rollout f) m = ground arith
  plan_rollout-IsPlanned d o m = absurd (cc)

  plan_service-IsPlanned : (d : Service) → IsPlanned (service d) (plan_service eq d)
  unfolding plan_service
  plan_service-IsPlanned d (service f) m = ground arith
  plan_service-IsPlanned d o m = absurd (cc)

  plan_pod_disruption_budget-IsPlanned :
      (d : PodDisruptionBudget)
      → IsPlanned (pod_disruption_budget d) (plan_pod_disruption_budget eq d)
  unfolding plan_pod_disruption_budget
  plan_pod_disruption_budget-IsPlanned d (pod_disruption_budget f) m = ground arith
  plan_pod_disruption_budget-IsPlanned d o m = absurd (cc)

plan_horizontal_pod_autoscaler-IsPlanned :
    (d : HorizontalPodAutoscaler)
    → IsPlanned (horizontal_pod_autoscaler d) (plan_horizontal_pod_autoscaler d)
unfolding plan_horizontal_pod_autoscaler
plan_horizontal_pod_autoscaler-IsPlanned d (horizontal_pod_autoscaler f) m = refl
plan_horizontal_pod_autoscaler-IsPlanned d o m = absurd (cc)

module _ (q : QuantityOps) (codecs : Codecs) (b : Bindplane) (env : List EnvVar) (n : ℤ)
    (has_env : get_bindplane_common_env_vars b ≡ some env)
    (has_replicas : b.spec.bindplane.replicas ≡ some n) where
  with_env-built :
      {A : Type 0} (f : List EnvVar → A)
      → (d : A) × (with_env (get_bindplane_common_env_vars b) f ≡ some d)
  with_env-built f = (f env, ap (λ c. with_env c f) has_env)

  node_deployment_for-built :
      (a : Option NodeAutoscalingSpec)
      → (d : Deployment) × (node_deployment_for q codecs b a (some n) ≡ some d)
  unfolding node_deployment_for node_deployment_of
  node_deployment_for-built none = with_env-built _
  node_deployment_for-built (some a) = with_env-built _

  node_deployment-built : (d : Deployment) × (node_deployment q codecs b ≡ some d)
  unfolding node_deployment
  node_deployment-built =
      let a = autoscaling_of b.spec.bindplane.autoscaling in
      let (d, e) = node_deployment_for-built a in
      (d, ap (λ r. node_deployment_for q codecs b a r) has_replicas ∙ e)

  node_rollout-built : (d : Rollout) × (node_rollout q codecs b ≡ some d)
  unfolding node_rollout
  node_rollout-built = with_env-built _

  module _ (api : Api) (w : IsWilling api) (eq : Semantic) where
    workload-Runs : (r : Bool) → Runs api w (reconcile_node_workload q codecs api eq b r)
    unfolding reconcile_node_workload delete_deployment_if_exists delete_rollout_if_exists
        reconcile_deployment reconcile_rollout
    workload-Runs true =
        let (d, e) = node_rollout-built in
        both-Runs api w (delete_deployment_if_exists api b "node") _
          (delete_if_exists-Runs api w false (component_key api deployments b "node"))
          (rw e (
            converge-Runs api w (rollout d) (plan_rollout eq d) (plan_rollout-KeepsKeys eq d)
              (plan_rollout-IsPlanned eq d)))
    workload-Runs false =
        let (d, e) = node_deployment-built in
        both-Runs api w (delete_rollout_if_exists api b "node") _
          (delete_if_exists-Runs api w true (component_key api rollouts b "node"))
          (rw e (
            converge-Runs api w (deployment d) (plan_deployment eq d)
              (plan_deployment-KeepsKeys eq d) (plan_deployment-IsPlanned eq d)))

    budget-Runs : Runs api w (reconcile_node_budget q codecs api eq b)
    unfolding reconcile_node_budget delete_pod_disruption_budget_if_exists
        reconcile_pod_disruption_budget
    budget-Runs s =
        let d = new_pod_disruption_budget b "node" b.spec.bindplane.pod_disruption_budget in
        elim (Bool-cases b.spec.bindplane.disable_pod_disruption_budget) [
          | inl e ↦ rw e (
              delete_if_exists-Runs api w false (component_key api pod_disruption_budgets b "node")
                s)
          | inr e ↦ rw e (
              converge-Runs api w (pod_disruption_budget d) (plan_pod_disruption_budget eq d)
                (plan_pod_disruption_budget-KeepsKeys eq d)
                (plan_pod_disruption_budget-IsPlanned eq d) s)
        ]

    hpa-Runs :
        (a : Option NodeAutoscalingSpec) → Runs api w (reconcile_node_hpa q codecs api eq b a)
    unfolding reconcile_node_hpa delete_hpa_if_exists reconcile_horizontal_pod_autoscaler
    hpa-Runs none =
        delete_if_exists-Runs api w false (component_key api horizontal_pod_autoscalers b "node")
    hpa-Runs (some a) =
        converge-Runs api w (horizontal_pod_autoscaler (node_hpa b a))
          (plan_horizontal_pod_autoscaler (node_hpa b a))
          (plan_horizontal_pod_autoscaler-KeepsKeys (node_hpa b a))
          (plan_horizontal_pod_autoscaler-IsPlanned (node_hpa b a))

-- On an API server that knows every kind and accepts each request that fits its objects (a Create
-- of what is not there, an Update or Delete of what is), for a resource that gives the replicas of
-- the node and whose shared environment is computed: reconcileNode returns without an error,
-- whatever objects there are.
pub reconcile_node-Runs :
    (q : QuantityOps) (codecs : Codecs) (b : Bindplane) (env : List EnvVar) (n : ℤ)
    → get_bindplane_common_env_vars b ≡ some env
    → b.spec.bindplane.replicas ≡ some n
    → (api : Api) (w : IsWilling api) (eq : Semantic) (s : api.State)
    → (reconcile_node q codecs api eq b s).0 ≡ returns tt
unfolding reconcile_node reconcile_service_account reconcile_service
reconcile_node-Runs q codecs b env n has_env has_replicas api w eq =
    let r = use_rollout b in
    let account = node_service_account b in
    both-Runs api w _ _
      (converge-Runs api w (service_account account) (plan_service_account eq account)
        (plan_service_account-KeepsKeys eq account) (plan_service_account-IsPlanned eq account))
      (both-Runs api w _ _ (workload-Runs q codecs b env n has_env has_replicas api w eq r) (
        both-Runs api w _ _
          (converge-Runs api w (service (node_service b r)) (plan_service eq (node_service b r))
            (plan_service-KeepsKeys eq (node_service b r))
            (plan_service-IsPlanned eq (node_service b r)))
          (both-Runs api w _ _ (budget-Runs q codecs b env n has_env has_replicas api w eq) (
            hpa-Runs q codecs b env n has_env has_replicas api w eq
              (autoscaling_of b.spec.bindplane.autoscaling)))))
