-- ===== src/Parts.antt =====
-- internal/controller/bindplane_controller.go: the labels, names, service accounts, services, budgets
-- and pod settings that the workloads share.
pub mod Pods
pub mod Extras
use bindplane_operator.Prelude.{
  ℕ, zero, suc, ℤ, pos, Bool, true, false, String, List, [], ◌∷◌, ◌++◌, Option, none, some, map,
  ◌==◌, ◌^^◌, if◌then◌else◌, itoa, join,
}
use bindplane_operator.Kube.{
  Json, null, bool, num, str, arr, obj, Items, nil, cons, Fields, end, field, ObjectMeta,
  zero_object_meta, IntOrString, int_val, EnvVar,
}
use bindplane_operator.Kube.Objects.{ServiceAccount, Service, ServicePort, PodDisruptionBudget}
use bindplane_operator.Crd.{Bindplane, PodDisruptionBudgetSpec}
use bindplane_operator.Images.{get_resource_name}
use bindplane_operator.ConfigEnv.{plain}

-- getLabels
unfoldable pub get_labels : Bindplane → String → List (String × String)
get_labels b component =
    ("app.kubernetes.io/name", "bindplane")
    ∷ ("app.kubernetes.io/instance", b.meta.name)
    ∷ ("app.kubernetes.io/component", component)
    ∷ ("app.kubernetes.io/managed-by", "bindplane-operator")
    ∷ ("app.kubernetes.io/part-of", "bindplane")
    ∷ []

-- getSelectorLabels
unfoldable pub get_selector_labels : Bindplane → String → List (String × String)
get_selector_labels b component =
    ("app.kubernetes.io/name", "bindplane")
    ∷ ("app.kubernetes.io/instance", b.meta.name)
    ∷ ("app.kubernetes.io/component", component)
    ∷ []

-- getNatsClientServiceName
unfoldable pub get_nats_client_service_name : Bindplane → String
unfolding get_resource_name
get_nats_client_service_name b = get_resource_name b "nats" ^^ "-client"

-- getNatsClusterServiceName
unfoldable pub get_nats_cluster_service_name : Bindplane → String
unfolding get_resource_name
get_nats_cluster_service_name b = get_resource_name b "nats" ^^ "-cluster"

-- The meta data of a component's object.
unfoldable pub component_meta : Bindplane → (name component : String) → ObjectMeta
unfolding get_labels
component_meta b name component = record zero_object_meta {
  name = name;
  namespace = b.meta.namespace;
  labels = get_labels b component;
}

-- newServiceAccount
unfoldable pub new_service_account :
    Bindplane → (component : String) → (annotations : List (String × String)) → ServiceAccount
unfolding component_meta get_resource_name
new_service_account b component annotations = record {
  meta = record (component_meta b (get_resource_name b component) component) {
    annotations = annotations;
  };
}

-- newPodDisruptionBudget
unfoldable pub bounds_of : Option PodDisruptionBudgetSpec → PodDisruptionBudgetSpec
bounds_of none = record { min_available = none; max_unavailable = none }
bounds_of (some s) = s

unfoldable pub with_default_bound : PodDisruptionBudgetSpec → PodDisruptionBudgetSpec
with_default_bound s = elim s.min_available [
  | some m ↦ s
  | none ↦ elim s.max_unavailable [
    | some m ↦ s
    | none ↦ record s { min_available = some (int_val (pos 1)) }
  ]
]

unfoldable pub new_pod_disruption_budget :
    Bindplane → (component : String) → Option PodDisruptionBudgetSpec → PodDisruptionBudget
unfolding bounds_of with_default_bound component_meta get_resource_name get_selector_labels
new_pod_disruption_budget b component spec =
    let s = with_default_bound (bounds_of spec) in
    record {
      meta = component_meta b (get_resource_name b component) component;
      spec = record {
        min_available = s.min_available;
        max_unavailable = s.max_unavailable;
        selector = get_selector_labels b component;
      };
    }

-- WithPort, and a port of a service whose target is the same.
abbrev pub tcp_port : String → ℤ → ServicePort
tcp_port name port = record {
  name = name;
  port = port;
  target_port = int_val port;
  protocol = "TCP";
}

-- newService: `preserved` are the keys that WithPreserveSelectorKey names.
unfoldable pub preserve_annotation : List String → List (String × String)
preserve_annotation [] = []
preserve_annotation (k ∷ ks) =
    ("internal.k8s.bindplane.com/preserve-selector-keys", join "," (k ∷ ks)) ∷ []

unfoldable pub new_service :
    Bindplane
    → (component : String) → (ports : List ServicePort) → (preserved : List String) → Service
unfolding preserve_annotation component_meta get_resource_name get_selector_labels
new_service b component ports preserved = record {
  meta = record (component_meta b (get_resource_name b component) component) {
    annotations = preserve_annotation preserved;
  };
  spec = record {
    type = "ClusterIP";
    selector = get_selector_labels b component;
    ports = ports;
    cluster_ip = "";
    cluster_ips = [];
    ip_families = [];
    ip_family_policy = none;
  };
}

-- A variable that reads a field of the pod.
abbrev pub from_field : (name path : String) → EnvVar
from_field name path = record {
  name = name;
  value = "";
  value_from = some (record { field_ref = some path; secret_key_ref = none; other = null });
}

-- getKubernetesEnvVars
unfoldable pub get_kubernetes_env_vars : (container_name : String) → List EnvVar
get_kubernetes_env_vars container_name =
    from_field "KUBERNETES_NAMESPACE_NAME" "metadata.namespace"
    ∷ from_field "KUBERNETES_POD_NAME" "metadata.name"
    ∷ plain "KUBERNETES_CONTAINER_NAME" container_name
    ∷ []
