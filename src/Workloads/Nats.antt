-- ===== src/Workloads/Nats.antt =====
-- internal/controller/nats.go: the objects of NATS, and reconcileNats.
use bindplane_operator.Prelude.{
  ℤ, pos, Bool, true, false, String, List, [], ◌∷◌, Option, none, some,
}
use bindplane_operator.Kube.{Json, arr, nil, cons, end, EnvVar, Container, PodTemplateSpec, null}
use bindplane_operator.Crd.{
  Bindplane, ServiceAccountSpec, NatsComponentSpec, PodDisruptionBudgetSpec,
}
use bindplane_operator.Images.{get_resource_name, get_nats_image}
use bindplane_operator.EnvVars.{prepend_extra_env}
use bindplane_operator.GoRuntime.{QuantityOps}
use bindplane_operator.Merge.{Codecs, merge_pod_template_spec}
use bindplane_operator.Workloads.{operator_template, with_env}
use bindplane_operator.Workloads.Node.{annotations_of}
use bindplane_operator.Kube.Objects.{StatefulSet, Service, ServiceAccount}
use bindplane_operator.ConfigEnv.Common.{get_bindplane_common_env_vars}
use bindplane_operator.ConfigEnv.Nats.{get_nats_env_vars}
use bindplane_operator.TlsVolumes.Internal.{get_config_tls_volumes_and_mounts}
use bindplane_operator.Parts.{
  component_meta, get_selector_labels, get_kubernetes_env_vars, new_service_account,
  new_pod_disruption_budget, tcp_port, get_nats_client_service_name, get_nats_cluster_service_name,
}
use bindplane_operator.Parts.Pods.{
  container_port, server_settings, resources_or, default_pod_anti_affinity,
}
use bindplane_operator.Parts.Extras.{
  append_extra_volumes, append_extra_volume_mounts, get_nats_extra_volumes,
  get_nats_extra_volume_mounts, get_nats_pod_template, get_nats_extra_env,
}
use bindplane_operator.Api.{Api, Act, both, panic}
use bindplane_operator.Objects.{
  Semantic, delete_pod_disruption_budget_if_exists, reconcile_service_account,
  reconcile_stateful_set, reconcile_service, reconcile_pod_disruption_budget,
}

-- `p != nil && p.ServiceAccount != nil`
abbrev pub account_of :
    {A : Type 0} → Option A → (A → Option ServiceAccountSpec) → List (String × String)
account_of none f = []
account_of (some c) f = annotations_of (f c)

-- natsServiceAccount
unfoldable pub nats_service_account : Bindplane → ServiceAccount
unfolding new_service_account
nats_service_account b =
    new_service_account b "nats" (account_of b.spec.nats (λ n. n.service_account))

-- getNatsAffinity
unfoldable pub get_nats_affinity : Bindplane → Json
unfolding default_pod_anti_affinity
get_nats_affinity b = default_pod_anti_affinity b "nats"

-- The container, for the component's spec and its count of replicas.
unfoldable pub nats_container :
    Bindplane → NatsComponentSpec → (replicas : ℤ) → (common : List EnvVar) → Container
unfolding get_nats_image append_extra_volume_mounts get_config_tls_volumes_and_mounts
    get_nats_extra_volume_mounts prepend_extra_env get_kubernetes_env_vars get_nats_env_vars
    get_nats_extra_env get_nats_cluster_service_name server_settings
nats_container b spec replicas common = record {
  name = "server";
  image = get_nats_image b;
  command = [];
  args = "--skip-seed" ∷ [];
  ports = arr (
      cons (container_port "client" (pos 4222))
        (cons (container_port "http" (pos 8222)) (cons (container_port "cluster" (pos 6222)) nil)));
  env = prepend_extra_env (get_nats_extra_env b) (
      get_kubernetes_env_vars "server"
      ∷ get_nats_env_vars b (get_nats_cluster_service_name b) replicas
      ∷ common
      ∷ []);
  resources =
      resources_or spec.resources (("cpu", "500m") ∷ ("memory", "500Mi") ∷ [])
        (("cpu", "250m") ∷ ("memory", "500Mi") ∷ []);
  volume_mounts =
      append_extra_volume_mounts (get_config_tls_volumes_and_mounts b).1
        (get_nats_extra_volume_mounts b);
  other = server_settings "http";
}

module _ (q : QuantityOps) (codecs : Codecs) where
  unfoldable pub nats_template :
      Bindplane → NatsComponentSpec → (replicas : ℤ) → (common : List EnvVar) → PodTemplateSpec
  unfolding merge_pod_template_spec operator_template nats_container append_extra_volumes
      get_config_tls_volumes_and_mounts get_nats_extra_volumes get_nats_affinity
      get_nats_pod_template
  nats_template b spec replicas common =
      merge_pod_template_spec q codecs
        (operator_template b "nats"
          (append_extra_volumes (get_config_tls_volumes_and_mounts b).0 (get_nats_extra_volumes b))
          (some (get_nats_affinity b)) (nats_container b spec replicas common) (some (pos 60)) end)
        (get_nats_pod_template b)

  unfoldable pub nats_stateful_set_of :
      Bindplane → NatsComponentSpec → (replicas : ℤ) → (common : List EnvVar) → StatefulSet
  unfolding component_meta nats_template get_resource_name get_selector_labels
      get_nats_cluster_service_name
  nats_stateful_set_of b spec replicas common = record {
    meta = component_meta b (get_resource_name b "nats") "nats";
    spec = record {
      replicas = some replicas;
      service_name = get_nats_cluster_service_name b;
      pod_management_policy = "Parallel";
      selector = get_selector_labels b "nats";
      template = nats_template b spec replicas common;
      volume_claim_templates = null;
    };
  }

  unfoldable pub nats_stateful_set_for : Bindplane → NatsComponentSpec → ℤ → Option StatefulSet
  unfolding nats_stateful_set_of get_bindplane_common_env_vars
  nats_stateful_set_for b spec replicas =
      with_env (get_bindplane_common_env_vars b) (nats_stateful_set_of b spec replicas)

  -- natsStatefulSet
  unfoldable pub nats_stateful_set : Bindplane → Option StatefulSet
  unfolding nats_stateful_set_for
  nats_stateful_set b = elim b.spec.nats [
    | none ↦ none
    | some n ↦ elim n.replicas [ none ↦ none | some r ↦ nats_stateful_set_for b n r ]
  ]

-- natsHeadlessService
unfoldable pub nats_headless_service : Bindplane → Service
unfolding component_meta get_selector_labels get_nats_cluster_service_name
nats_headless_service b = record {
  meta = component_meta b (get_nats_cluster_service_name b) "nats";
  spec = record {
    type = "";
    selector = get_selector_labels b "nats";
    ports =
        tcp_port "client" (pos 4222)
        ∷ tcp_port "http" (pos 8222)
        ∷ tcp_port "cluster" (pos 6222)
        ∷ [];
    cluster_ip = "None";
    cluster_ips = [];
    ip_families = [];
    ip_family_policy = none;
  };
}

-- natsService
unfoldable pub nats_service : Bindplane → Service
unfolding component_meta get_selector_labels get_nats_client_service_name
nats_service b = record {
  meta = component_meta b (get_nats_client_service_name b) "nats";
  spec = record {
    type = "";
    selector = get_selector_labels b "nats";
    ports = tcp_port "client" (pos 4222) ∷ [];
    cluster_ip = "";
    cluster_ips = [];
    ip_families = [];
    ip_family_policy = none;
  };
}

abbrev pub budget_of :
    {A : Type 0} → Option A → (A → Option PodDisruptionBudgetSpec) → Option PodDisruptionBudgetSpec
budget_of none f = none
budget_of (some c) f = f c

abbrev pub flag_of : {A : Type 0} → Option A → (A → Bool) → Bool
flag_of none f = false
flag_of (some c) f = f c

module _ (q : QuantityOps) (codecs : Codecs) (api : Api) (eq : Semantic) where
  abbrev pub built_stateful_set : Option StatefulSet → Act api
  built_stateful_set none = panic api
  built_stateful_set (some d) = reconcile_stateful_set api eq d

  -- The disruption budget of a component, or its removal.
  unfoldable pub reconcile_budget :
      Bindplane
      → (component : String) → (disabled : Bool) → Option PodDisruptionBudgetSpec
      → Act api
  unfolding delete_pod_disruption_budget_if_exists reconcile_pod_disruption_budget
      new_pod_disruption_budget
  reconcile_budget b component true spec = delete_pod_disruption_budget_if_exists api b component
  reconcile_budget b component false spec =
      reconcile_pod_disruption_budget api eq (new_pod_disruption_budget b component spec)

  -- reconcileNats
  unfoldable pub reconcile_nats : Bindplane → Act api
  unfolding nats_service_account nats_stateful_set nats_headless_service nats_service
      reconcile_service_account reconcile_service reconcile_budget reconcile_stateful_set
  reconcile_nats b = both api (reconcile_service_account api eq (nats_service_account b)) (
      both api (built_stateful_set (nats_stateful_set q codecs b)) (
        both api (reconcile_service api eq (nats_headless_service b)) (
          both api (reconcile_service api eq (nats_service b)) (
            reconcile_budget b "nats" (flag_of b.spec.nats (λ n. n.disable_pod_disruption_budget))
              (budget_of b.spec.nats (λ n. n.pod_disruption_budget))))))
