-- ===== src/Workloads.antt =====
-- internal/controller/node.go, node_rollout.go, nats.go, jobs.go and transform_agent.go: the pod
-- templates of the workloads, and the workloads. `none` is a nil pointer that is dereferenced: a
-- count of replicas that is not given, or what the common variables need.
pub mod NodeRuns
pub mod Node
pub mod NodeSteps
pub mod NodeState
pub mod Nats
pub mod Jobs
pub mod TransformAgent
pub mod Opamp
pub mod Selectors
pub mod Built
use bindplane_operator.Prelude.{
  ℤ, pos, Bool, true, false, String, List, [], ◌∷◌, ◌++◌, Option, none, some,
}
use bindplane_operator.Kube.{
  Json, null, str, num, arr, obj, Items, nil, cons, Fields, end, field, EnvVar, Volume, VolumeMount,
  Container, PodSpec, PodTemplateSpec, ResourceRequirements,
}
use bindplane_operator.Kube.Objects.{DeploymentSpec, Deployment}
use bindplane_operator.Crd.{Bindplane}
use bindplane_operator.Images.{get_resource_name}
use bindplane_operator.Parts.{get_selector_labels, component_meta}
use bindplane_operator.Parts.Pods.{new_pod_security_context, default_pod_anti_affinity}

-- The pod template that the code gives before the user's is merged: one container, the component's
-- service account, and the pod's security context with what else the workload sets.
unfoldable pub operator_template :
    Bindplane
    → (component : String) → List Volume
    → (affinity : Option Json) → Container
    → (grace : Option ℤ) → (more : Fields) → PodTemplateSpec
unfolding get_selector_labels get_resource_name
operator_template b component volumes affinity container grace more = record {
  labels = get_selector_labels b component;
  annotations = [];
  spec = record {
    containers = container ∷ [];
    volumes = volumes;
    service_account_name = get_resource_name b component;
    termination_grace_period_seconds = grace;
    affinity = affinity;
    other = obj (field "securityContext" new_pod_security_context more);
  };
}

-- A rolling update.
abbrev pub rolling_update : (max_surge max_unavailable : ℤ) → Json
rolling_update max_surge max_unavailable = obj (
    field "type" (str "RollingUpdate") (
      field "rollingUpdate"
        (obj (field "maxSurge" (num max_surge) (field "maxUnavailable" (num max_unavailable) end)))
        end))

-- A Deployment of a component: its selector is that of the component.
unfoldable pub component_deployment :
    Bindplane
    → (component : String) → (replicas : Option ℤ) → (min_ready_seconds : ℤ) → (strategy : Json)
    → PodTemplateSpec
    → Deployment
unfolding component_meta get_resource_name get_selector_labels
component_deployment b component replicas min_ready_seconds strategy template = record {
  meta = component_meta b (get_resource_name b component) component;
  spec = record {
    replicas = replicas;
    min_ready_seconds = min_ready_seconds;
    strategy = strategy;
    selector = get_selector_labels b component;
    template = template;
  };
}

-- Where a list that may not be there is needed.
abbrev pub with_env : {A : Type 0} → Option (List EnvVar) → (List EnvVar → A) → Option A
with_env none f = none
with_env (some env) f = some (f env)
