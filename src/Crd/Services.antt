-- ===== src/Crd/Services.antt =====
-- api/v1alpha1/bindplane_types.go: the services beside the server: TSDB, NATS, event bus, agents.
-- A pointer is an `Option`, an integer of any width a ℤ, and `zero_x` is the Go zero value of `X`.
use bindplane_operator.Prelude.{Bool, List, Option, String, [], false, none, pos, ℤ}

pub record CertManagerTlsIssuerRef : Type 0 where
  pub name : String
  pub kind : String
  pub group : String

abbrev pub zero_cert_manager_tls_issuer_ref : CertManagerTlsIssuerRef
zero_cert_manager_tls_issuer_ref = record { name = ""; kind = ""; group = "" }

pub record TsdbRemoteWriteConfig : Type 0 where
  pub host : String
  pub port : ℤ
  pub endpoint : String

abbrev pub zero_tsdb_remote_write_config : TsdbRemoteWriteConfig
zero_tsdb_remote_write_config = record { host = ""; port = pos 0; endpoint = "" }

pub record TsdbRemoteConfig : Type 0 where
  pub enable : Bool
  pub host : String
  pub port : ℤ
  pub query_path_prefix : String
  pub remote_write : Option TsdbRemoteWriteConfig

abbrev pub zero_tsdb_remote_config : TsdbRemoteConfig
zero_tsdb_remote_config = record {
  enable = false;
  host = "";
  port = pos 0;
  query_path_prefix = "";
  remote_write = none;
}

pub record TsdbTlsConfig : Type 0 where
  pub secret_name : String
  pub cert_key : String
  pub key_key : String
  pub ca_key : String
  pub cert_manager : Option CertManagerTlsIssuerRef
  pub skip_verify : Bool

abbrev pub zero_tsdb_tls_config : TsdbTlsConfig
zero_tsdb_tls_config = record {
  secret_name = "";
  cert_key = "";
  key_key = "";
  ca_key = "";
  cert_manager = none;
  skip_verify = false;
}

pub record TsdbConfig : Type 0 where
  pub remote : Option TsdbRemoteConfig
  pub tls : Option TsdbTlsConfig

abbrev pub zero_tsdb_config : TsdbConfig
zero_tsdb_config = record { remote = none; tls = none }

pub record NatsTlsConfig : Type 0 where
  pub cert_manager : Option CertManagerTlsIssuerRef
  pub skip_verify : Bool

abbrev pub zero_nats_tls_config : NatsTlsConfig
zero_nats_tls_config = record { cert_manager = none; skip_verify = false }

pub record NatsConfig : Type 0 where
  pub tls : Option NatsTlsConfig

abbrev pub zero_nats_config : NatsConfig
zero_nats_config = record { tls = none }

pub record TransformAgentTlsConfig : Type 0 where
  pub cert_manager : Option CertManagerTlsIssuerRef

abbrev pub zero_transform_agent_tls_config : TransformAgentTlsConfig
zero_transform_agent_tls_config = record { cert_manager = none }

pub record EventBusHealthConfig : Type 0 where
  pub required_hosts : Option ℤ
  pub interval : String

abbrev pub zero_event_bus_health_config : EventBusHealthConfig
zero_event_bus_health_config = record { required_hosts = none; interval = "" }

pub record EventBusConfig : Type 0 where
  pub health : Option EventBusHealthConfig

abbrev pub zero_event_bus_config : EventBusConfig
zero_event_bus_config = record { health = none }

pub record AgentsAuthSecretKeyConfig : Type 0 where
  pub headers : List String

abbrev pub zero_agents_auth_secret_key_config : AgentsAuthSecretKeyConfig
zero_agents_auth_secret_key_config = record { headers = [] }

pub record AgentsAuthConfig : Type 0 where
  pub type : String
  pub secret_key : Option AgentsAuthSecretKeyConfig

abbrev pub zero_agents_auth_config : AgentsAuthConfig
zero_agents_auth_config = record { type = ""; secret_key = none }

pub record AgentsConfig : Type 0 where
  pub auth : Option AgentsAuthConfig
  pub heartbeat_interval : String
  pub heartbeat_ttl : String
  pub heartbeat_expiry_interval : String
  pub rebalance_interval : String
  pub rebalance_percentage : Option ℤ
  pub rebalance_jitter : Option ℤ
  pub max_simultaneous_connections : ℤ

abbrev pub zero_agents_config : AgentsConfig
zero_agents_config = record {
  auth = none;
  heartbeat_interval = "";
  heartbeat_ttl = "";
  heartbeat_expiry_interval = "";
  rebalance_interval = "";
  rebalance_percentage = none;
  rebalance_jitter = none;
  max_simultaneous_connections = pos 0;
}

pub record AgentVersionsConfig : Type 0 where
  pub sync_interval : String

abbrev pub zero_agent_versions_config : AgentVersionsConfig
zero_agent_versions_config = record { sync_interval = "" }
