-- ===== src/Crd/Components.antt =====
-- api/v1alpha1/bindplane_types.go: the deployed components.
-- A pointer is an `Option`, an integer of any width a ℤ, and `zero_x` is the Go zero value of `X`.
use bindplane_operator.Prelude.{Bool, List, Option, String, [], false, none, ℤ}
use bindplane_operator.Kube.{
  Json, ResourceRequirements, EnvVar, Volume, VolumeMount, IntOrString, PodTemplateSpec,
}
use bindplane_operator.Crd.Services.{TransformAgentTlsConfig}

pub record ServiceAccountSpec : Type 0 where
  pub annotations : List (String × String)

abbrev pub zero_service_account_spec : ServiceAccountSpec
zero_service_account_spec = record { annotations = [] }

pub record PodDisruptionBudgetSpec : Type 0 where
  pub min_available : Option IntOrString
  pub max_unavailable : Option IntOrString

abbrev pub zero_pod_disruption_budget_spec : PodDisruptionBudgetSpec
zero_pod_disruption_budget_spec = record { min_available = none; max_unavailable = none }

pub record NodeAutoscalingSpec : Type 0 where
  pub enabled : Bool
  pub min_replicas : Option ℤ
  pub max_replicas : Option ℤ
  pub metrics : List Json
  pub behavior : Option Json

abbrev pub zero_node_autoscaling_spec : NodeAutoscalingSpec
zero_node_autoscaling_spec = record {
  enabled = false;
  min_replicas = none;
  max_replicas = none;
  metrics = [];
  behavior = none;
}

pub record ArgoRolloutSpec : Type 0 where
  pub enabled : Bool
  pub auto_promotion_enabled : Option Bool
  pub scale_down_delay_seconds : Option ℤ

abbrev pub zero_argo_rollout_spec : ArgoRolloutSpec
zero_argo_rollout_spec = record {
  enabled = false;
  auto_promotion_enabled = none;
  scale_down_delay_seconds = none;
}

pub record BindplaneComponentSpec : Type 0 where
  pub replicas : Option ℤ
  pub resources : Option ResourceRequirements
  pub pod_template : Option PodTemplateSpec
  pub disable_pod_disruption_budget : Bool
  pub pod_disruption_budget : Option PodDisruptionBudgetSpec
  pub min_ready_seconds : Option ℤ
  pub strategy : Option Json
  pub argo_rollout : Option ArgoRolloutSpec
  pub autoscaling : Option NodeAutoscalingSpec
  pub extra_env : List EnvVar
  pub extra_volumes : List Volume
  pub extra_volume_mounts : List VolumeMount
  pub image : String
  pub service_account : Option ServiceAccountSpec

abbrev pub zero_bindplane_component_spec : BindplaneComponentSpec
zero_bindplane_component_spec = record {
  replicas = none;
  resources = none;
  pod_template = none;
  disable_pod_disruption_budget = false;
  pod_disruption_budget = none;
  min_ready_seconds = none;
  strategy = none;
  argo_rollout = none;
  autoscaling = none;
  extra_env = [];
  extra_volumes = [];
  extra_volume_mounts = [];
  image = "";
  service_account = none;
}

pub record OpampComponentSpec : Type 0 where
  pub enabled : Bool
  pub replicas : Option ℤ
  pub resources : Option ResourceRequirements
  pub pod_template : Option PodTemplateSpec
  pub disable_pod_disruption_budget : Bool
  pub pod_disruption_budget : Option PodDisruptionBudgetSpec
  pub min_ready_seconds : Option ℤ
  pub strategy : Option Json
  pub autoscaling : Option NodeAutoscalingSpec
  pub max_simultaneous_connections : Option ℤ
  pub shutdown_grace_period_target : String
  pub extra_env : List EnvVar
  pub extra_volumes : List Volume
  pub extra_volume_mounts : List VolumeMount
  pub image : String
  pub service_account : Option ServiceAccountSpec

abbrev pub zero_opamp_component_spec : OpampComponentSpec
zero_opamp_component_spec = record {
  enabled = false;
  replicas = none;
  resources = none;
  pod_template = none;
  disable_pod_disruption_budget = false;
  pod_disruption_budget = none;
  min_ready_seconds = none;
  strategy = none;
  autoscaling = none;
  max_simultaneous_connections = none;
  shutdown_grace_period_target = "";
  extra_env = [];
  extra_volumes = [];
  extra_volume_mounts = [];
  image = "";
  service_account = none;
}

pub record BindplaneJobsComponentSpec : Type 0 where
  pub resources : Option ResourceRequirements
  pub pod_template : Option PodTemplateSpec
  pub extra_env : List EnvVar
  pub extra_volumes : List Volume
  pub extra_volume_mounts : List VolumeMount
  pub image : String
  pub service_account : Option ServiceAccountSpec

abbrev pub zero_bindplane_jobs_component_spec : BindplaneJobsComponentSpec
zero_bindplane_jobs_component_spec = record {
  resources = none;
  pod_template = none;
  extra_env = [];
  extra_volumes = [];
  extra_volume_mounts = [];
  image = "";
  service_account = none;
}

pub record BindplaneJobsMigrateComponentSpec : Type 0 where
  pub resources : Option ResourceRequirements
  pub pod_template : Option PodTemplateSpec
  pub extra_env : List EnvVar
  pub extra_volumes : List Volume
  pub extra_volume_mounts : List VolumeMount
  pub image : String
  pub service_account : Option ServiceAccountSpec

abbrev pub zero_bindplane_jobs_migrate_component_spec : BindplaneJobsMigrateComponentSpec
zero_bindplane_jobs_migrate_component_spec = record {
  resources = none;
  pod_template = none;
  extra_env = [];
  extra_volumes = [];
  extra_volume_mounts = [];
  image = "";
  service_account = none;
}

pub record TransformAgentComponentSpec : Type 0 where
  pub replicas : Option ℤ
  pub resources : Option ResourceRequirements
  pub pod_template : Option PodTemplateSpec
  pub tls : Option TransformAgentTlsConfig
  pub disable_pod_disruption_budget : Bool
  pub pod_disruption_budget : Option PodDisruptionBudgetSpec
  pub extra_env : List EnvVar
  pub extra_volumes : List Volume
  pub extra_volume_mounts : List VolumeMount
  pub image : String
  pub service_account : Option ServiceAccountSpec

abbrev pub zero_transform_agent_component_spec : TransformAgentComponentSpec
zero_transform_agent_component_spec = record {
  replicas = none;
  resources = none;
  pod_template = none;
  tls = none;
  disable_pod_disruption_budget = false;
  pod_disruption_budget = none;
  extra_env = [];
  extra_volumes = [];
  extra_volume_mounts = [];
  image = "";
  service_account = none;
}
