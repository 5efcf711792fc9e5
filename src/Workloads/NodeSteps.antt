-- ===== src/Workloads/NodeSteps.antt =====
-- internal/controller/node.go: reconcileNode.
use bindplane_operator.Prelude.{Bool, true, false, Option, none, some, if◌then◌else◌}
use bindplane_operator.Crd.{Bindplane, NodeAutoscalingSpec}
use bindplane_operator.GoRuntime.{QuantityOps}
use bindplane_operator.Merge.{Codecs}
use bindplane_operator.Parts.{new_pod_disruption_budget}
use bindplane_operator.Api.{Api, Act, both, panic}
use bindplane_operator.Objects.{
  Semantic, delete_deployment_if_exists, delete_rollout_if_exists,
  delete_pod_disruption_budget_if_exists, delete_hpa_if_exists, reconcile_service_account,
  reconcile_deployment, reconcile_rollout, reconcile_service, reconcile_pod_disruption_budget,
  reconcile_horizontal_pod_autoscaler,
}
use bindplane_operator.Workloads.Node.{
  autoscaling_of, node_service_account, node_deployment, node_rollout, node_service, node_hpa,
  use_rollout,
}

module _ (q : QuantityOps) (codecs : Codecs) (api : Api) (eq : Semantic) where
  -- A workload that is built, or the panic of building it.
  abbrev pub built : {A : Type 0} → Option A → (A → Act api) → Act api
  built none k = panic api
  built (some d) k = k d

  -- The switch between the two workloads: with Argo Rollouts, or without.
  unfoldable pub reconcile_node_workload : Bindplane → (with_rollout : Bool) → Act api
  unfolding delete_deployment_if_exists delete_rollout_if_exists node_rollout node_deployment
      reconcile_rollout reconcile_deployment
  reconcile_node_workload b true =
      both api (delete_deployment_if_exists api b "node")
        (built (node_rollout q codecs b) (reconcile_rollout api eq))
  reconcile_node_workload b false =
      both api (delete_rollout_if_exists api b "node")
        (built (node_deployment q codecs b) (reconcile_deployment api eq))

  unfoldable pub reconcile_node_budget : Bindplane → Act api
  unfolding delete_pod_disruption_budget_if_exists new_pod_disruption_budget
      reconcile_pod_disruption_budget
  reconcile_node_budget b =
      if b.spec.bindplane.disable_pod_disruption_budget
      then delete_pod_disruption_budget_if_exists api b "node"
      else reconcile_pod_disruption_budget api eq
          (new_pod_disruption_budget b "node" b.spec.bindplane.pod_disruption_budget)

  -- reconcileNodeHPA, for the autoscaling that is enabled.
  unfoldable pub reconcile_node_hpa : Bindplane → Option NodeAutoscalingSpec → Act api
  unfolding node_hpa delete_hpa_if_exists reconcile_horizontal_pod_autoscaler
  reconcile_node_hpa b none = delete_hpa_if_exists api b "node"
  reconcile_node_hpa b (some cfg) = reconcile_horizontal_pod_autoscaler api eq (node_hpa b cfg)

  -- reconcileNode
  unfoldable pub reconcile_node : Bindplane → Act api
  unfolding node_service_account node_service reconcile_service_account reconcile_service
      reconcile_node_workload reconcile_node_budget reconcile_node_hpa use_rollout
  reconcile_node b = both api (reconcile_service_account api eq (node_service_account b)) (
      both api (reconcile_node_workload b (use_rollout b)) (
        both api (reconcile_service api eq (node_service b (use_rollout b))) (
          both api (reconcile_node_budget b)
            (reconcile_node_hpa b (autoscaling_of b.spec.bindplane.autoscaling)))))
