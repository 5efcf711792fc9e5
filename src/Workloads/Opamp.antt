-- ===== src/Workloads/Opamp.antt =====
-- internal/controller/opamp.go: the objects of the OpAMP deployment, and reconcileOpAMP.
use bindplane_operator.Prelude.{
  ℤ, pos, String, List, [], ◌∷◌, ◌++◌, Option, none, some, if◌then◌else◌, itoa,
}
use bindplane_operator.Kube.{Json, arr, nil, cons, end, EnvVar, Container, PodTemplateSpec}
use bindplane_operator.Crd.{Bindplane, OpampComponentSpec, NodeAutoscalingSpec}
use bindplane_operator.Images.{get_resource_name, get_opamp_image}
use bindplane_operator.EnvVars.{prepend_extra_env}
use bindplane_operator.ConfigEnv.{plain, unless_empty}
use bindplane_operator.GoRuntime.{QuantityOps}
use bindplane_operator.Merge.{Codecs, merge_pod_template_spec}
use bindplane_operator.Workloads.{operator_template, component_deployment, rolling_update, with_env}
use bindplane_operator.Workloads.Node.{
  annotations_of, autoscaling_of, get_node_env_vars, node_termination_grace_period_seconds,
  number_or, metrics_or_default, behavior_or_default,
}
use bindplane_operator.Kube.Objects.{Deployment, Service, ServiceAccount, HorizontalPodAutoscaler}
use bindplane_operator.ConfigEnv.Common.{get_bindplane_common_env_vars}
use bindplane_operator.ConfigEnv.Nats.{get_nats_client_env_vars}
use bindplane_operator.TlsVolumes.Internal.{get_config_tls_volumes_and_mounts}
use bindplane_operator.Parts.{
  component_meta, get_kubernetes_env_vars, new_service_account, new_service, tcp_port,
}
use bindplane_operator.Parts.Pods.{
  container_port, server_settings, resources_or, default_pod_anti_affinity,
}
use bindplane_operator.Parts.Extras.{
  append_extra_volumes, append_extra_volume_mounts, get_opamp_extra_volumes,
  get_opamp_extra_volume_mounts,
}
use bindplane_operator.Api.{Api, Act, both, deployments, services, service_accounts}
use bindplane_operator.Objects.{
  Semantic, component_key, clean_up, delete_pod_disruption_budget_if_exists, delete_hpa_if_exists,
  reconcile_service_account, reconcile_deployment, reconcile_service,
  reconcile_horizontal_pod_autoscaler,
}
use bindplane_operator.Workloads.Nats.{reconcile_budget}
use bindplane_operator.Workloads.Jobs.{built_deployment}

-- `spec.opamp`, where it is enabled.
unfoldable pub enabled_opamp : Bindplane → Option OpampComponentSpec
enabled_opamp b = elim b.spec.opamp [ none ↦ none | some c ↦ if c.enabled then some c else none ]

-- getOpAMPOverrideEnvVars, of the component's spec.
abbrev number_var : (name : String) → Option ℤ → List EnvVar
number_var name none = []
number_var name (some n) = plain name (itoa n) ∷ []

unfoldable pub get_opamp_override_env_vars : OpampComponentSpec → List EnvVar
get_opamp_override_env_vars c =
    number_var "BINDPLANE_AGENTS_MAX_SIMULTANEOUS_CONNECTIONS" c.max_simultaneous_connections
    ++ unless_empty "BINDPLANE_ADVANCED_SERVER_OPAMP_SHUTDOWN_GRACE_PERIOD_TARGET"
        c.shutdown_grace_period_target

-- opampServiceAccount
unfoldable pub opamp_service_account : Bindplane → OpampComponentSpec → ServiceAccount
unfolding new_service_account
opamp_service_account b c = new_service_account b "opamp" (annotations_of c.service_account)

unfoldable pub opamp_container : Bindplane → OpampComponentSpec → (common : List EnvVar) → Container
unfolding get_opamp_image append_extra_volume_mounts get_config_tls_volumes_and_mounts
    get_opamp_extra_volume_mounts prepend_extra_env get_kubernetes_env_vars get_node_env_vars
    get_nats_client_env_vars get_opamp_override_env_vars server_settings
opamp_container b c common = record {
  name = "server";
  image = get_opamp_image b;
  command = [];
  args = "--skip-seed" ∷ [];
  ports = arr (cons (container_port "http" (pos 3001)) nil);
  env = prepend_extra_env c.extra_env (
      get_kubernetes_env_vars "server"
      ∷ get_node_env_vars
      ∷ common
      ∷ get_nats_client_env_vars b
      ∷ get_opamp_override_env_vars c
      ∷ []);
  resources =
      resources_or c.resources (("memory", "2048Mi") ∷ [])
        (("cpu", "2000m") ∷ ("memory", "2048Mi") ∷ []);
  volume_mounts =
      append_extra_volume_mounts (get_config_tls_volumes_and_mounts b).1
        (get_opamp_extra_volume_mounts b);
  other = server_settings "http";
}

-- The count of replicas: none under autoscaling, otherwise 3 where it is not given.
unfoldable pub opamp_replicas : OpampComponentSpec → Option ℤ
opamp_replicas c = elim (autoscaling_of c.autoscaling) [
  | some a ↦ none
  | none ↦ some (number_or c.replicas (pos 3))
]

abbrev opamp_strategy : Option Json → Json
opamp_strategy none = rolling_update (pos 1) (pos 0)
opamp_strategy (some s) = s

module _ (q : QuantityOps) (codecs : Codecs) where
  unfoldable pub opamp_template :
      Bindplane → OpampComponentSpec → (common : List EnvVar) → PodTemplateSpec
  unfolding merge_pod_template_spec operator_template opamp_container append_extra_volumes
      get_config_tls_volumes_and_mounts get_opamp_extra_volumes default_pod_anti_affinity
  opamp_template b c common =
      merge_pod_template_spec q codecs
        (operator_template b "opamp"
          (append_extra_volumes (get_config_tls_volumes_and_mounts b).0 (get_opamp_extra_volumes b))
          (some (default_pod_anti_affinity b "opamp")) (opamp_container b c common)
          (some node_termination_grace_period_seconds) end)
        c.pod_template

  -- opampDeployment
  unfoldable pub opamp_deployment : Bindplane → OpampComponentSpec → Option Deployment
  unfolding component_deployment opamp_template opamp_replicas get_bindplane_common_env_vars
  opamp_deployment b c = with_env (get_bindplane_common_env_vars b) λ common.
      component_deployment b "opamp" (opamp_replicas c)
        (number_or c.min_ready_seconds node_termination_grace_period_seconds)
        (opamp_strategy c.strategy) (opamp_template b c common)

-- opampService
unfoldable pub opamp_service : Bindplane → Service
unfolding new_service
opamp_service b = new_service b "opamp" (tcp_port "http" (pos 3001) ∷ []) []

-- opampHPA, where autoscaling is enabled.
unfoldable pub opamp_hpa : Bindplane → NodeAutoscalingSpec → HorizontalPodAutoscaler
unfolding component_meta get_resource_name
opamp_hpa b cfg = record {
  meta = component_meta b (get_resource_name b "opamp") "opamp";
  spec = record {
    scale_target_ref = record {
      api_version = "apps/v1";
      kind = "Deployment";
      name = get_resource_name b "opamp";
    };
    min_replicas = some (number_or cfg.min_replicas (pos 2));
    max_replicas = number_or cfg.max_replicas (pos 10);
    metrics = metrics_or_default cfg.metrics;
    behavior = some (behavior_or_default cfg.behavior);
  };
}

module _ (q : QuantityOps) (codecs : Codecs) (api : Api) (eq : Semantic) where
  -- deleteOpAMPResourcesIfExist
  unfoldable pub delete_opamp_resources_if_exist : Bindplane → Act api
  unfolding clean_up delete_pod_disruption_budget_if_exists delete_hpa_if_exists get_resource_name
  delete_opamp_resources_if_exist b =
      both api (clean_up api (component_key api deployments b "opamp")) (
        both api (clean_up api (component_key api services b "opamp")) (
          both api (clean_up api (component_key api service_accounts b "opamp")) (
            both api (delete_pod_disruption_budget_if_exists api b "opamp")
              (delete_hpa_if_exists api b "opamp"))))

  -- reconcileOpAMPHPA, for the autoscaling that is enabled.
  unfoldable pub reconcile_opamp_hpa : Bindplane → Option NodeAutoscalingSpec → Act api
  unfolding opamp_hpa delete_hpa_if_exists reconcile_horizontal_pod_autoscaler
  reconcile_opamp_hpa b none = delete_hpa_if_exists api b "opamp"
  reconcile_opamp_hpa b (some cfg) = reconcile_horizontal_pod_autoscaler api eq (opamp_hpa b cfg)

  -- reconcileOpAMP, for the component that is enabled.
  unfoldable pub reconcile_opamp_for : Bindplane → Option OpampComponentSpec → Act api
  unfolding delete_opamp_resources_if_exist opamp_service_account opamp_deployment opamp_service
      reconcile_service_account reconcile_deployment reconcile_service reconcile_budget
      reconcile_opamp_hpa
  reconcile_opamp_for b none = delete_opamp_resources_if_exist b
  reconcile_opamp_for b (some c) =
      both api (reconcile_service_account api eq (opamp_service_account b c)) (
        both api (built_deployment q codecs api eq (opamp_deployment q codecs b c)) (
          both api (reconcile_service api eq (opamp_service b)) (
            both api
              (reconcile_budget q codecs api eq b "opamp" c.disable_pod_disruption_budget
                c.pod_disruption_budget)
              (reconcile_opamp_hpa b (autoscaling_of c.autoscaling)))))

  -- reconcileOpAMP
  unfoldable pub reconcile_opamp : Bindplane → Act api
  unfolding enabled_opamp reconcile_opamp_for
  reconcile_opamp b = reconcile_opamp_for b (enabled_opamp b)
