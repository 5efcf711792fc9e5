-- ===== src/Workloads/Node.antt =====
-- internal/controller/node.go, node_rollout.go and node_autoscaling.go: the objects of Bindplane Node.
use bindplane_operator.Prelude.{
  ◌≡◌, sym, ap, ℤ, pos, Bool, true, false, String, List, [], ◌∷◌, Option, none, some, if◌then◌else◌,
}
use bindplane_operator.Kube.{
  Json, str, num, arr, obj, nil, cons, end, field, EnvVar, Container, PodTemplateSpec,
}
use bindplane_operator.Kube.Objects.{
  Deployment, Rollout, Service, ScaleTarget, HorizontalPodAutoscaler, ServiceAccount,
}
use bindplane_operator.Api.{key_of, rollout, deployment, rollouts, deployments}
use bindplane_operator.Crd.{Bindplane, ServiceAccountSpec, NodeAutoscalingSpec, ArgoRolloutSpec}
use bindplane_operator.Images.{get_resource_name, get_node_image}
use bindplane_operator.EnvVars.{prepend_extra_env}
use bindplane_operator.ConfigEnv.{plain}
use bindplane_operator.ConfigEnv.Common.{get_bindplane_common_env_vars}
use bindplane_operator.ConfigEnv.Nats.{get_nats_client_env_vars}
use bindplane_operator.TlsVolumes.Internal.{get_config_tls_volumes_and_mounts}
use bindplane_operator.GoRuntime.{QuantityOps}
use bindplane_operator.Merge.{Codecs, merge_pod_template_spec}
use bindplane_operator.Parts.{
  component_meta, get_selector_labels, get_kubernetes_env_vars, new_service_account, new_service,
  tcp_port,
}
use bindplane_operator.Parts.Pods.{
  container_port, server_settings, resources_or, default_pod_anti_affinity,
}
use bindplane_operator.Parts.Extras.{
  append_extra_volumes, append_extra_volume_mounts, get_node_extra_volumes,
  get_node_extra_volume_mounts, get_node_pod_template,
}
use bindplane_operator.Workloads.{operator_template, component_deployment, rolling_update, with_env}

-- `p != nil && p.Enabled`
abbrev pub autoscaling_of : Option NodeAutoscalingSpec → Option NodeAutoscalingSpec
autoscaling_of none = none
autoscaling_of (some a) = if a.enabled then some a else none

abbrev pub annotations_of : Option ServiceAccountSpec → List (String × String)
annotations_of none = []
annotations_of (some s) = s.annotations

-- getNodeEnvVars
unfoldable pub get_node_env_vars : List EnvVar
get_node_env_vars = plain "BINDPLANE_MODE" "node" ∷ []

-- nodeTerminationGracePeriodSeconds
abbrev pub node_termination_grace_period_seconds : ℤ
node_termination_grace_period_seconds = pos 60

-- getNodeAffinity
unfoldable pub get_node_affinity : Bindplane → Json
unfolding default_pod_anti_affinity
get_node_affinity b = default_pod_anti_affinity b "node"

-- nodeServiceAccount
unfoldable pub node_service_account : Bindplane → ServiceAccount
unfolding new_service_account
node_service_account b =
    new_service_account b "node" (annotations_of b.spec.bindplane.service_account)

-- The node's container, its variables given.
unfoldable pub node_container : Bindplane → (common : List EnvVar) → Container
unfolding get_node_image append_extra_volume_mounts get_config_tls_volumes_and_mounts
    get_node_extra_volume_mounts prepend_extra_env get_kubernetes_env_vars get_node_env_vars
    get_nats_client_env_vars server_settings
node_container b common = record {
  name = "server";
  image = get_node_image b;
  command = [];
  args = "--skip-seed" ∷ [];
  ports = arr (cons (container_port "http" (pos 3001)) nil);
  env = prepend_extra_env b.spec.bindplane.extra_env (
      get_kubernetes_env_vars "server"
      ∷ get_node_env_vars
      ∷ common
      ∷ get_nats_client_env_vars b
      ∷ []);
  resources =
      resources_or b.spec.bindplane.resources (("memory", "2048Mi") ∷ [])
        (("cpu", "2000m") ∷ ("memory", "2048Mi") ∷ []);
  volume_mounts =
      append_extra_volume_mounts (get_config_tls_volumes_and_mounts b).1
        (get_node_extra_volume_mounts b);
  other = server_settings "http";
}

module _ (q : QuantityOps) (codecs : Codecs) where
  unfoldable pub node_template : Bindplane → (common : List EnvVar) → PodTemplateSpec
  unfolding merge_pod_template_spec operator_template node_container append_extra_volumes
      get_config_tls_volumes_and_mounts get_node_extra_volumes get_node_affinity
      get_node_pod_template
  node_template b common =
      merge_pod_template_spec q codecs
        (operator_template b "node"
          (append_extra_volumes (get_config_tls_volumes_and_mounts b).0 (get_node_extra_volumes b))
          (some (get_node_affinity b)) (node_container b common)
          (some node_termination_grace_period_seconds) end)
        (get_node_pod_template b)

  abbrev min_ready_seconds_of : Option ℤ → ℤ
  min_ready_seconds_of none = node_termination_grace_period_seconds
  min_ready_seconds_of (some n) = n

  abbrev strategy_of : Option Json → Json
  strategy_of none = rolling_update (pos 1) (pos 0)
  strategy_of (some s) = s

  -- The Deployment with its count of replicas; under autoscaling it has none.
  unfoldable pub node_deployment_of : Bindplane → (replicas : Option ℤ) → Option Deployment
  unfolding component_deployment node_template get_bindplane_common_env_vars
  node_deployment_of b replicas = with_env (get_bindplane_common_env_vars b) λ common.
      component_deployment b "node" replicas
        (min_ready_seconds_of b.spec.bindplane.min_ready_seconds)
        (strategy_of b.spec.bindplane.strategy) (node_template b common)

  -- nodeDeployment, for the autoscaling that is enabled and the count of replicas.
  unfoldable pub node_deployment_for :
      Bindplane → Option NodeAutoscalingSpec → Option ℤ → Option Deployment
  unfolding node_deployment_of
  node_deployment_for b (some a) replicas = node_deployment_of b none
  node_deployment_for b none none = none
  node_deployment_for b none (some n) = node_deployment_of b (some n)

  -- nodeDeployment
  unfoldable pub node_deployment : Bindplane → Option Deployment
  unfolding node_deployment_for
  node_deployment b =
      node_deployment_for b (autoscaling_of b.spec.bindplane.autoscaling) b.spec.bindplane.replicas

  abbrev replicas_or_three : Option ℤ → ℤ
  replicas_or_three none = pos 3
  replicas_or_three (some n) = n

  unfoldable rollout_replicas : Bindplane → Option ℤ
  rollout_replicas b = elim (autoscaling_of b.spec.bindplane.autoscaling) [
    | some a ↦ none
    | none ↦ some (replicas_or_three b.spec.bindplane.replicas)
  ]

  abbrev promotes : Option ArgoRolloutSpec → Bool
  promotes none = true
  promotes (some a) = elim a.auto_promotion_enabled [ none ↦ true | some p ↦ p ]

  abbrev scale_down_delay : Option ArgoRolloutSpec → Option ℤ
  scale_down_delay none = none
  scale_down_delay (some a) = a.scale_down_delay_seconds

  -- nodeRollout
  unfoldable pub node_rollout : Bindplane → Option Rollout
  unfolding component_meta node_template get_bindplane_common_env_vars rollout_replicas
      get_resource_name get_selector_labels
  node_rollout b = with_env (get_bindplane_common_env_vars b) λ common. record {
    meta = component_meta b (get_resource_name b "node") "node";
    spec = record {
      replicas = rollout_replicas b;
      min_ready_seconds = min_ready_seconds_of b.spec.bindplane.min_ready_seconds;
      strategy = record {
        active_service = get_resource_name b "node";
        auto_promotion_enabled = some (promotes b.spec.bindplane.argo_rollout);
        scale_down_delay_seconds = scale_down_delay b.spec.bindplane.argo_rollout;
      };
      selector = get_selector_labels b "node";
      template = node_template b common;
    };
  }

module _ (q : QuantityOps) (codecs : Codecs) (b : Bindplane) where
  with_env-some :
      {A : Type 0} (c : Option (List EnvVar)) (f : List EnvVar → A) (d : A)
      → with_env c f ≡ some d
      → (env : List EnvVar) × (f env ≡ d)
  with_env-some none f d e = absurd (cc)
  with_env-some (some env) f d e = (env, cc)

  pub node_rollout-key :
      (d : Rollout)
      → node_rollout q codecs b ≡ some d
      → key_of (rollout d) ≡ record {
        kind = rollouts;
        namespace = b.meta.namespace;
        name = get_resource_name b "node";
      }
  unfolding node_rollout
  node_rollout-key d e =
      let (env, f) = with_env-some (get_bindplane_common_env_vars b) _ d e in
      sym (ap (λ r. key_of (rollout r)) f)

  node_deployment_of-key :
      (r : Option ℤ) (d : Deployment)
      → node_deployment_of q codecs b r ≡ some d
      → key_of (deployment d) ≡ record {
        kind = deployments;
        namespace = b.meta.namespace;
        name = get_resource_name b "node";
      }
  unfolding node_deployment_of
  node_deployment_of-key r d e =
      let (env, f) = with_env-some (get_bindplane_common_env_vars b) _ d e in
      sym (ap (λ r. key_of (deployment r)) f)

  node_deployment_for-key :
      (a : Option NodeAutoscalingSpec) (r : Option ℤ) (d : Deployment)
      → node_deployment_for q codecs b a r ≡ some d
      → key_of (deployment d) ≡ record {
        kind = deployments;
        namespace = b.meta.namespace;
        name = get_resource_name b "node";
      }
  unfolding node_deployment_for
  node_deployment_for-key (some a) r d e = node_deployment_of-key none d e
  node_deployment_for-key none none d e = absurd (cc)
  node_deployment_for-key none (some n) d e = node_deployment_of-key (some n) d e

  pub node_deployment-key :
      (d : Deployment)
      → node_deployment q codecs b ≡ some d
      → key_of (deployment d) ≡ record {
        kind = deployments;
        namespace = b.meta.namespace;
        name = get_resource_name b "node";
      }
  unfolding node_deployment
  node_deployment-key d e =
      node_deployment_for-key (autoscaling_of b.spec.bindplane.autoscaling)
        b.spec.bindplane.replicas d e

-- `ArgoRollout != nil && ArgoRollout.Enabled`
unfoldable pub use_rollout : Bindplane → Bool
use_rollout b = elim b.spec.bindplane.argo_rollout [ none ↦ false | some a ↦ a.enabled ]

-- nodeService
unfoldable pub node_service : Bindplane → (with_rollout : Bool) → Service
unfolding new_service
node_service b with_rollout =
    new_service b "node" (tcp_port "http" (pos 3001) ∷ [])
      (if with_rollout then "rollouts-pod-template-hash" ∷ [] else [])

-- nodeHPAScaleTargetRef
unfoldable pub node_hpa_scale_target_ref : Bindplane → ScaleTarget
unfolding use_rollout get_resource_name
node_hpa_scale_target_ref b =
    if use_rollout b
    then record {
      api_version = "argoproj.io/v1alpha1";
      kind = "Rollout";
      name = get_resource_name b "node";
    }
    else record { api_version = "apps/v1"; kind = "Deployment"; name = get_resource_name b "node" }

-- defaultNodeHPAMetrics
abbrev pub default_node_hpa_metrics : List Json
default_node_hpa_metrics =
    let target =
      obj (field "type" (str "Utilization") (field "averageUtilization" (num (pos 50)) end)) in
    obj (
      field "type" (str "Resource")
        (field "resource" (obj (field "name" (str "cpu") (field "target" target end))) end))
    ∷ []

-- defaultNodeHPABehavior
abbrev pub default_node_hpa_behavior : Json
default_node_hpa_behavior =
    let policy = obj (
      field "type" (str "Pods")
        (field "value" (num (pos 1)) (field "periodSeconds" (num (pos 300)) end))) in
    obj (
      field "scaleDown"
        (obj (
          field "stabilizationWindowSeconds" (num (pos 300))
            (field "selectPolicy" (str "Min") (field "policies" (arr (cons policy nil)) end))))
        end)

abbrev pub number_or : Option ℤ → ℤ → ℤ
number_or none d = d
number_or (some n) d = n

abbrev pub metrics_or_default : List Json → List Json
metrics_or_default [] = default_node_hpa_metrics
metrics_or_default (m ∷ ms) = m ∷ ms

abbrev pub behavior_or_default : Option Json → Json
behavior_or_default none = default_node_hpa_behavior
behavior_or_default (some j) = j

-- nodeHPA, where autoscaling is enabled.
unfoldable pub node_hpa : Bindplane → NodeAutoscalingSpec → HorizontalPodAutoscaler
unfolding component_meta node_hpa_scale_target_ref get_resource_name
node_hpa b cfg = record {
  meta = component_meta b (get_resource_name b "node") "node";
  spec = record {
    scale_target_ref = node_hpa_scale_target_ref b;
    min_replicas = some (number_or cfg.min_replicas (pos 2));
    max_replicas = number_or cfg.max_replicas (pos 10);
    metrics = metrics_or_default cfg.metrics;
    behavior = some (behavior_or_default cfg.behavior);
  };
}
