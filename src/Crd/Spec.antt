-- ===== src/Crd/Spec.antt =====
-- api/v1alpha1/bindplane_types.go: the specification and the status of the resource.
-- A pointer is an `Option`, an integer of any width a ℤ, and `zero_x` is the Go zero value of `X`.
use bindplane_operator.Prelude.{List, Option, String, [], none, pos, ℤ}
use bindplane_operator.Kube.{SecretKeySelector, Condition, ObjectMeta, zero_object_meta}
use bindplane_operator.Crd.Auth.{AuthConfig}
use bindplane_operator.Crd.Store.{StoreConfig, NetworkConfig, zero_store_config}
use bindplane_operator.Crd.Telemetry.{
  TracingConfig, MetricsConfig, LoggingConfig, AuditTrailConfig, StatusConfig,
}
use bindplane_operator.Crd.Services.{
  TsdbConfig, NatsConfig, EventBusConfig, AgentsConfig, AgentVersionsConfig,
}
use bindplane_operator.Crd.Components.{
  BindplaneComponentSpec, OpampComponentSpec, BindplaneJobsComponentSpec,
  BindplaneJobsMigrateComponentSpec, TransformAgentComponentSpec, zero_bindplane_component_spec,
}
use bindplane_operator.Crd.Storage.{TsdbComponentSpec, NatsComponentSpec}

pub record BindplaneConfigSpec : Type 0 where
  pub license : String
  pub license_secret_ref : Option SecretKeySelector
  pub auth : Option AuthConfig
  pub network : Option NetworkConfig
  pub store : StoreConfig
  pub tracing : Option TracingConfig
  pub metrics : Option MetricsConfig
  pub max_concurrency : ℤ
  pub audit_trail : Option AuditTrailConfig
  pub tsdb : Option TsdbConfig
  pub nats : Option NatsConfig
  pub event_bus : Option EventBusConfig
  pub status : Option StatusConfig
  pub logging : Option LoggingConfig
  pub agents : Option AgentsConfig
  pub agent_versions : Option AgentVersionsConfig

abbrev pub zero_bindplane_config_spec : BindplaneConfigSpec
zero_bindplane_config_spec = record {
  license = "";
  license_secret_ref = none;
  auth = none;
  network = none;
  store = zero_store_config;
  tracing = none;
  metrics = none;
  max_concurrency = pos 0;
  audit_trail = none;
  tsdb = none;
  nats = none;
  event_bus = none;
  status = none;
  logging = none;
  agents = none;
  agent_versions = none;
}

pub record BindplaneSpec : Type 0 where
  pub version : String
  pub config : BindplaneConfigSpec
  pub bindplane : BindplaneComponentSpec
  pub bindplane_jobs : Option BindplaneJobsComponentSpec
  pub bindplane_jobs_migrate : Option BindplaneJobsMigrateComponentSpec
  pub transform_agent : Option TransformAgentComponentSpec
  pub tsdb : Option TsdbComponentSpec
  pub nats : Option NatsComponentSpec
  pub opamp : Option OpampComponentSpec

abbrev pub zero_bindplane_spec : BindplaneSpec
zero_bindplane_spec = record {
  version = "";
  config = zero_bindplane_config_spec;
  bindplane = zero_bindplane_component_spec;
  bindplane_jobs = none;
  bindplane_jobs_migrate = none;
  transform_agent = none;
  tsdb = none;
  nats = none;
  opamp = none;
}

pub record ComponentStatus : Type 0 where
  pub image : String
  pub ready_replicas : ℤ

abbrev pub zero_component_status : ComponentStatus
zero_component_status = record { image = ""; ready_replicas = pos 0 }

pub record BindplaneComponents : Type 0 where
  pub bindplane : ComponentStatus
  pub opamp : ComponentStatus
  pub jobs : ComponentStatus
  pub jobs_migrate : ComponentStatus
  pub nats : ComponentStatus
  pub transform_agent : ComponentStatus
  pub tsdb : ComponentStatus

abbrev pub zero_bindplane_components : BindplaneComponents
zero_bindplane_components = record {
  bindplane = zero_component_status;
  opamp = zero_component_status;
  jobs = zero_component_status;
  jobs_migrate = zero_component_status;
  nats = zero_component_status;
  transform_agent = zero_component_status;
  tsdb = zero_component_status;
}

pub record BindplaneStatus : Type 0 where
  pub conditions : List Condition
  pub phase : String
  pub observed_generation : ℤ
  pub components : BindplaneComponents

abbrev pub zero_bindplane_status : BindplaneStatus
zero_bindplane_status = record {
  conditions = [];
  phase = "";
  observed_generation = pos 0;
  components = zero_bindplane_components;
}

-- The fields of `ObjectMeta` are those of `meta`.
pub record Bindplane : Type 0 where
  pub meta : ObjectMeta
  pub spec : BindplaneSpec
  pub status : BindplaneStatus

abbrev pub zero_bindplane : Bindplane
zero_bindplane = record {
  meta = zero_object_meta;
  spec = zero_bindplane_spec;
  status = zero_bindplane_status;
}
