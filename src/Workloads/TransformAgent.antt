-- ===== src/Workloads/TransformAgent.antt =====
-- internal/controller/transform_agent.go: the objects of the Transform Agent, and
-- reconcileTransformAgent.
use bindplane_operator.Prelude.{pos, [], ◌∷◌, Option, none, some}
use bindplane_operator.Kube.{Json, arr, nil, cons, end, Container, PodTemplateSpec}
use bindplane_operator.Crd.{Bindplane, TransformAgentComponentSpec}
use bindplane_operator.Images.{get_transform_agent_image}
use bindplane_operator.EnvVars.{prepend_extra_env}
use bindplane_operator.GoRuntime.{QuantityOps}
use bindplane_operator.Merge.{Codecs, merge_pod_template_spec}
use bindplane_operator.Workloads.{operator_template, component_deployment, rolling_update}
use bindplane_operator.Kube.Objects.{Deployment, Service, ServiceAccount}
use bindplane_operator.ConfigEnv.Services.{get_transform_agent_tls_env_vars}
use bindplane_operator.TlsVolumes.Internal.{get_transform_agent_tls_volumes_and_mounts}
use bindplane_operator.Parts.{get_kubernetes_env_vars, new_service_account, new_service, tcp_port}
use bindplane_operator.Parts.Pods.{
  container_port, probed_settings, resources_or, default_pod_anti_affinity,
}
use bindplane_operator.Parts.Extras.{
  append_extra_volumes, append_extra_volume_mounts, get_transform_agent_extra_volumes,
  get_transform_agent_extra_volume_mounts, get_transform_agent_pod_template,
  get_transform_agent_extra_env,
}
use bindplane_operator.Api.{Api, Act, both}
use bindplane_operator.Objects.{
  Semantic, reconcile_service_account, reconcile_deployment, reconcile_service,
}
use bindplane_operator.Workloads.Nats.{account_of, flag_of, budget_of, reconcile_budget}
use bindplane_operator.Workloads.Jobs.{built_deployment}

-- transformAgentServiceAccount
unfoldable pub transform_agent_service_account : Bindplane → ServiceAccount
unfolding new_service_account
transform_agent_service_account b =
    new_service_account b "transform-agent"
      (account_of b.spec.transform_agent (λ c. c.service_account))

-- getTransformAgentAffinity
abbrev affinity_or : Option PodTemplateSpec → Json → Json
affinity_or none d = d
affinity_or (some t) d = elim t.spec.affinity [ none ↦ d | some a ↦ a ]

unfoldable pub get_transform_agent_affinity : Bindplane → Json
unfolding get_transform_agent_pod_template default_pod_anti_affinity
get_transform_agent_affinity b =
    affinity_or (get_transform_agent_pod_template b) (default_pod_anti_affinity b "transform-agent")

unfoldable pub transform_agent_container : Bindplane → TransformAgentComponentSpec → Container
unfolding get_transform_agent_image append_extra_volume_mounts
    get_transform_agent_tls_volumes_and_mounts get_transform_agent_extra_volume_mounts
    prepend_extra_env get_kubernetes_env_vars get_transform_agent_tls_env_vars
    get_transform_agent_extra_env probed_settings
transform_agent_container b spec = record {
  name = "transform-agent";
  image = get_transform_agent_image b;
  command = [];
  args = [];
  ports = arr (cons (container_port "http" (pos 4568)) nil);
  env =
      prepend_extra_env (get_transform_agent_extra_env b)
        (get_kubernetes_env_vars "transform-agent" ∷ get_transform_agent_tls_env_vars b ∷ []);
  resources =
      resources_or spec.resources (("memory", "512Mi") ∷ [])
        (("cpu", "250m") ∷ ("memory", "512Mi") ∷ []);
  volume_mounts =
      append_extra_volume_mounts (get_transform_agent_tls_volumes_and_mounts b).1
        (get_transform_agent_extra_volume_mounts b);
  other = probed_settings "http" end;
}

module _ (q : QuantityOps) (codecs : Codecs) where
  unfoldable pub transform_agent_template :
      Bindplane → TransformAgentComponentSpec → PodTemplateSpec
  unfolding merge_pod_template_spec operator_template transform_agent_container append_extra_volumes
      get_transform_agent_tls_volumes_and_mounts get_transform_agent_extra_volumes
      get_transform_agent_affinity get_transform_agent_pod_template
  transform_agent_template b spec =
      merge_pod_template_spec q codecs
        (operator_template b "transform-agent"
          (append_extra_volumes (get_transform_agent_tls_volumes_and_mounts b).0
            (get_transform_agent_extra_volumes b))
          (some (get_transform_agent_affinity b)) (transform_agent_container b spec) (some (pos 60))
          end)
        (get_transform_agent_pod_template b)

  -- transformAgentDeployment
  unfoldable pub transform_agent_deployment : Bindplane → Option Deployment
  unfolding component_deployment transform_agent_template
  transform_agent_deployment b = elim b.spec.transform_agent [
    | none ↦ none
    | some c ↦ elim c.replicas [
      | none ↦ none
      | some n ↦ some (
          component_deployment b "transform-agent" (some n) (pos 0) (rolling_update (pos 1) (pos 1))
            (transform_agent_template b c))
    ]
  ]

-- transformAgentService
unfoldable pub transform_agent_service : Bindplane → Service
unfolding new_service
transform_agent_service b = new_service b "transform-agent" (tcp_port "http" (pos 4568) ∷ []) []

module _ (q : QuantityOps) (codecs : Codecs) (api : Api) (eq : Semantic) where
  -- reconcileTransformAgent
  unfoldable pub reconcile_transform_agent : Bindplane → Act api
  unfolding transform_agent_service_account transform_agent_deployment transform_agent_service
      reconcile_service_account reconcile_deployment reconcile_service reconcile_budget
  reconcile_transform_agent b =
      both api (reconcile_service_account api eq (transform_agent_service_account b)) (
        both api (built_deployment q codecs api eq (transform_agent_deployment q codecs b)) (
          both api (reconcile_service api eq (transform_agent_service b)) (
            reconcile_budget q codecs api eq b "transform-agent"
              (flag_of b.spec.transform_agent (λ c. c.disable_pod_disruption_budget))
              (budget_of b.spec.transform_agent (λ c. c.pod_disruption_budget)))))
