-- ===== src/Crd/Storage.antt =====
-- api/v1alpha1/bindplane_types.go: the components with a StatefulSet.
-- A pointer is an `Option`, an integer of any width a ℤ, and `zero_x` is the Go zero value of `X`.
use bindplane_operator.Prelude.{Bool, List, Option, String, [], false, none, ℤ}
use bindplane_operator.Kube.{
  Json, null, ResourceRequirements, EnvVar, Volume, VolumeMount, PodTemplateSpec, ObjectMeta,
}
use bindplane_operator.Crd.Services.{TsdbTlsConfig}
use bindplane_operator.Crd.Components.{ServiceAccountSpec, PodDisruptionBudgetSpec}

pub record VolumeClaimTemplate : Type 0 where
  pub metadata : Option ObjectMeta
  pub spec : Json

abbrev pub zero_volume_claim_template : VolumeClaimTemplate
zero_volume_claim_template = record { metadata = none; spec = null }

pub record StorageSpec : Type 0 where
  pub volume_claim_template : Option VolumeClaimTemplate

abbrev pub zero_storage_spec : StorageSpec
zero_storage_spec = record { volume_claim_template = none }

pub record TsdbComponentSpec : Type 0 where
  pub resources : Option ResourceRequirements
  pub pod_template : Option PodTemplateSpec
  pub storage : Option StorageSpec
  pub tls : Option TsdbTlsConfig
  pub extra_env : List EnvVar
  pub extra_volumes : List Volume
  pub extra_volume_mounts : List VolumeMount
  pub image : String
  pub service_account : Option ServiceAccountSpec

abbrev pub zero_tsdb_component_spec : TsdbComponentSpec
zero_tsdb_component_spec = record {
  resources = none;
  pod_template = none;
  storage = none;
  tls = none;
  extra_env = [];
  extra_volumes = [];
  extra_volume_mounts = [];
  image = "";
  service_account = none;
}

pub record NatsComponentSpec : Type 0 where
  pub replicas : Option ℤ
  pub resources : Option ResourceRequirements
  pub pod_template : Option PodTemplateSpec
  pub disable_pod_disruption_budget : Bool
  pub pod_disruption_budget : Option PodDisruptionBudgetSpec
  pub extra_env : List EnvVar
  pub extra_volumes : List Volume
  pub extra_volume_mounts : List VolumeMount
  pub image : String
  pub service_account : Option ServiceAccountSpec

abbrev pub zero_nats_component_spec : NatsComponentSpec
zero_nats_component_spec = record {
  replicas = none;
  resources = none;
  pod_template = none;
  disable_pod_disruption_budget = false;
  pod_disruption_budget = none;
  extra_env = [];
  extra_volumes = [];
  extra_volume_mounts = [];
  image = "";
  service_account = none;
}
