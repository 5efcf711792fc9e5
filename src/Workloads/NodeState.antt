-- ===== src/Workloads/NodeState.antt =====
-- What the cluster holds for Bindplane Node after reconcileNode has returned without an error.
use bindplane_operator.Api.Laws.{same_key_iff}
use bindplane_operator.Api.{
  same_key, Api, Kind, service_accounts, deployments, rollouts, stateful_sets, services,
  pod_disruption_budgets, horizontal_pod_autoscalers, certificates, Key, service_account,
  deployment, rollout, service, pod_disruption_budget, horizontal_pod_autoscaler,
}
use bindplane_operator.Prelude.{
  map, In, ◌∙◌, sym, arith, Bool, true, false, not, List, [], ◌∷◌, ◌++◌, Option, none, some, ◌≡◌,
  ◌≢◌, refl, ap, ◌⊎◌, inl, inr, is_some, All, Bool-cases,
}
use bindplane_operator.Kube.Objects.{Deployment, Rollout}
use bindplane_operator.Crd.{Bindplane, NodeAutoscalingSpec}
use bindplane_operator.Workloads.Node.{
  node_rollout-key, node_deployment-key, use_rollout, autoscaling_of, node_service_account,
  node_service, node_deployment, node_rollout, node_hpa,
}
use bindplane_operator.GoRuntime.{QuantityOps}
use bindplane_operator.Merge.{Codecs}
use bindplane_operator.Images.{get_resource_name}
use bindplane_operator.Cluster.{returns}
use bindplane_operator.Parts.{new_pod_disruption_budget}
use bindplane_operator.Objects.{
  Semantic, component_key, delete_deployment_if_exists, delete_rollout_if_exists,
  plan_service_account, plan_deployment, plan_rollout, plan_service, plan_pod_disruption_budget,
  plan_horizontal_pod_autoscaler, reconcile_service_account, reconcile_deployment,
  reconcile_rollout, reconcile_service,
}
use bindplane_operator.Objects.Plans.{
  plan_service_account-KeepsKeys, plan_deployment-KeepsKeys, plan_rollout-KeepsKeys,
  plan_service-KeepsKeys, plan_pod_disruption_budget-KeepsKeys,
  plan_horizontal_pod_autoscaler-KeepsKeys,
}
use bindplane_operator.Objects.Chains.{
  Change, IsUntouched, AreApart, Chain-frame, Chain-final, Makes, both-Makes, converge-Makes,
  delete_if_exists-Makes, panic-Makes,
}
use bindplane_operator.Workloads.NodeSteps.{
  built, reconcile_node, reconcile_node_workload, reconcile_node_budget, reconcile_node_hpa,
}

-- The objects that Node has under its name, as the resource asks.
unfoldable pub wants : Bindplane → Kind → Bool
unfolding use_rollout
wants b service_accounts = true
wants b deployments = not (use_rollout b)
wants b rollouts = use_rollout b
wants b services = true
wants b pod_disruption_budgets = not b.spec.bindplane.disable_pod_disruption_budget
wants b horizontal_pod_autoscalers = is_some (autoscaling_of b.spec.bindplane.autoscaling)
wants b stateful_sets = false
wants b certificates = false

abbrev pub node_kinds : List Kind
node_kinds =
    service_accounts ∷ deployments ∷ rollouts ∷ services ∷ pod_disruption_budgets
    ∷ horizontal_pod_autoscalers ∷ []

module _ (q : QuantityOps) (codecs : Codecs) (api : Api) (eq : Semantic) (b : Bindplane) where
  abbrev pub node_key : Kind → Key
  node_key k = component_key api k b "node"

  abbrev sets : Kind → Change
  sets k = (node_key k, wants b k)

  account-Makes :
      Makes api
        (reconcile_service_account api eq (node_service_account b))
        (sets service_accounts ∷ [])
  unfolding reconcile_service_account node_service_account get_resource_name wants
  account-Makes =
      converge-Makes api (service_account (node_service_account b))
        (plan_service_account eq (node_service_account b)) (node_key service_accounts)
        (plan_service_account-KeepsKeys eq (node_service_account b)) refl

  service-Makes :
      (r : Bool) → Makes api (reconcile_service api eq (node_service b r)) (sets services ∷ [])
  unfolding reconcile_service node_service get_resource_name wants
  service-Makes r =
      converge-Makes api (service (node_service b r)) (plan_service eq (node_service b r))
        (node_key services) (plan_service-KeepsKeys eq (node_service b r)) refl

  budget-Makes :
      Makes api (reconcile_node_budget q codecs api eq b) (sets pod_disruption_budgets ∷ [])
  unfolding reconcile_node_budget new_pod_disruption_budget get_resource_name wants
  budget-Makes = elim (Bool-cases b.spec.bindplane.disable_pod_disruption_budget) [
    | inl e ↦ rw e (delete_if_exists-Makes api false (node_key pod_disruption_budgets))
    | inr e ↦
        let d = new_pod_disruption_budget b "node" b.spec.bindplane.pod_disruption_budget in
        rw e (
          converge-Makes api (pod_disruption_budget d) (plan_pod_disruption_budget eq d)
            (node_key pod_disruption_budgets) (plan_pod_disruption_budget-KeepsKeys eq d) refl)
  ]

  hpa-Makes :
      (o : Option NodeAutoscalingSpec)
      → Makes api
          (reconcile_node_hpa q codecs api eq b o)
          ((node_key horizontal_pod_autoscalers, is_some o) ∷ [])
  unfolding reconcile_node_hpa node_hpa get_resource_name
  hpa-Makes none = delete_if_exists-Makes api false (node_key horizontal_pod_autoscalers)
  hpa-Makes (some cfg) =
      converge-Makes api (horizontal_pod_autoscaler (node_hpa b cfg))
        (plan_horizontal_pod_autoscaler (node_hpa b cfg)) (node_key horizontal_pod_autoscalers)
        (plan_horizontal_pod_autoscaler-KeepsKeys (node_hpa b cfg)) refl

  rollout-Makes :
      (o : Option Rollout)
      → node_rollout q codecs b ≡ o
      → Makes api
          (built q codecs api eq o (reconcile_rollout api eq))
          ((node_key rollouts, true) ∷ [])
  unfolding reconcile_rollout
  rollout-Makes none e = panic-Makes api ((node_key rollouts, true) ∷ [])
  rollout-Makes (some d) e =
      converge-Makes api (rollout d) (plan_rollout eq d) (node_key rollouts)
        (plan_rollout-KeepsKeys eq d) (node_rollout-key q codecs b d e)

  deployment-Makes :
      (o : Option Deployment)
      → node_deployment q codecs b ≡ o
      → Makes api
          (built q codecs api eq o (reconcile_deployment api eq))
          ((node_key deployments, true) ∷ [])
  unfolding reconcile_deployment
  deployment-Makes none e = panic-Makes api ((node_key deployments, true) ∷ [])
  deployment-Makes (some d) e =
      converge-Makes api (deployment d) (plan_deployment eq d) (node_key deployments)
        (plan_deployment-KeepsKeys eq d) (node_deployment-key q codecs b d e)

  -- The switch between the two workloads: the one that is not used goes first.
  abbrev workload_changes : Bool → List Change
  workload_changes true = (node_key deployments, false) ∷ (node_key rollouts, true) ∷ []
  workload_changes false = (node_key rollouts, false) ∷ (node_key deployments, true) ∷ []

  workload-Makes :
      (r : Bool) → Makes api (reconcile_node_workload q codecs api eq b r) (workload_changes r)
  unfolding reconcile_node_workload delete_deployment_if_exists delete_rollout_if_exists
  workload-Makes true =
      both-Makes api (delete_deployment_if_exists api b "node")
        (built q codecs api eq (node_rollout q codecs b) (reconcile_rollout api eq))
        ((node_key deployments, false) ∷ []) ((node_key rollouts, true) ∷ [])
        (delete_if_exists-Makes api false (node_key deployments))
        (rollout-Makes (node_rollout q codecs b) refl)
  workload-Makes false =
      both-Makes api (delete_rollout_if_exists api b "node")
        (built q codecs api eq (node_deployment q codecs b) (reconcile_deployment api eq))
        ((node_key rollouts, false) ∷ []) ((node_key deployments, true) ∷ [])
        (delete_if_exists-Makes api true (node_key rollouts))
        (deployment-Makes (node_deployment q codecs b) refl)

  abbrev node_changes : Bool → List Change
  node_changes r =
      sets service_accounts
      ∷ (workload_changes r
          ++ (sets services
              ∷ sets pod_disruption_budgets
              ∷ (
                node_key horizontal_pod_autoscalers,
                is_some (autoscaling_of b.spec.bindplane.autoscaling),
              )
              ∷ []))

  reconcile_node-Makes : Makes api (reconcile_node q codecs api eq b) (node_changes (use_rollout b))
  unfolding reconcile_node
  reconcile_node-Makes =
      let hpa = autoscaling_of b.spec.bindplane.autoscaling in
      let r = use_rollout b in
      both-Makes api _ _ (sets service_accounts ∷ []) _ account-Makes (
        both-Makes api _ _ (workload_changes r) _ (workload-Makes r) (
          both-Makes api _ _ (sets services ∷ []) _ (service-Makes r)
            (both-Makes api _ _ (sets pod_disruption_budgets ∷ []) _ budget-Makes (hpa-Makes hpa))))

  node_changes-AreApart : (r : Bool) → AreApart (node_changes r)
  node_changes-AreApart true = ground arith
  node_changes-AreApart false = ground arith

  kinds_as_wanted :
      (r : Bool) (t : api.State)
      → use_rollout b ≡ r
      → All (λ c. is_some (api.live t c.0) ≡ c.1) (node_changes r)
      → All (λ k. is_some (api.live t (node_key k)) ≡ wants b k) node_kinds
  unfolding wants
  kinds_as_wanted true t e (a, (d, (r, (s, (p, (h, u)))))) =
      (a, (d ∙ ap not (sym e), (r ∙ sym e, (s, (p, (h, tt))))))
  kinds_as_wanted false t e (a, (r, (d, (s, (p, (h, u)))))) =
      (a, (d ∙ ap not (sym e), (r ∙ sym e, (s, (p, (h, tt))))))

  node_changes-IsUntouched :
      (r : Bool) (k : Key) → All (λ l. k ≢ node_key l) node_kinds → IsUntouched k (node_changes r)
  node_changes-IsUntouched true k (a, (d, (r, (s, (p, (h, u)))))) = (a, (d, (r, (s, (p, (h, tt))))))
  node_changes-IsUntouched false k (a, (d, (r, (s, (p, (h, u)))))) =
      (a, (r, (d, (s, (p, (h, tt))))))

  -- A key is one of Node's, or apart from all of them.
  node_key-cases :
      (ks : List Kind) (k : Key) → In k (map node_key ks) ⊎ All (λ l. k ≢ node_key l) ks
  node_key-cases [] k = inr tt
  node_key-cases (l ∷ ks) k = elim (Bool-cases (same_key k (node_key l))) [
    | inl e ↦ inl (inl ((same_key_iff k (node_key l)).0 e))
    | inr e ↦ elim (node_key-cases ks k) [
      | inl i ↦ inl (inr i)
      | inr n ↦ inr (λ m. absurd (cc (e, (same_key_iff k (node_key l)).1 m)), n)
    ]
  ]

-- On an API server as its interface says: when reconcileNode returns without an error, under Node's
-- name there are a service account and a service; a Rollout and no Deployment where Argo Rollouts
-- are enabled, otherwise a Deployment and no Rollout; a disruption budget exactly where it is not
-- disabled; an autoscaler exactly where autoscaling is enabled. Every other object is what it was.
pub reconcile_node-refines :
    (q : QuantityOps) (codecs : Codecs) (api : Api) (eq : Semantic) (b : Bindplane)
    (s t : api.State)
    → reconcile_node q codecs api eq b s ≡ (returns tt, t)
    → All (λ k. is_some (api.live t (node_key q codecs api eq b k)) ≡ wants b k) node_kinds
      × ((k : Key)
          → In k (map (node_key q codecs api eq b) node_kinds) ⊎ (api.live t k ≡ api.live s k))
reconcile_node-refines q codecs api eq b s t h =
    let r = use_rollout b in
    let chain = reconcile_node-Makes q codecs api eq b s t h in
    (
      kinds_as_wanted q codecs api eq b r t refl (
          Chain-final api (node_changes q codecs api eq b r) s t
            (node_changes-AreApart q codecs api eq b r) chain),
      λ k. elim (node_key-cases q codecs api eq b node_kinds k) [
        | inl i ↦ inl i
        | inr n ↦ inr (
            Chain-frame api (node_changes q codecs api eq b r) s t k chain
              (node_changes-IsUntouched q codecs api eq b r k n))
      ],
    )
