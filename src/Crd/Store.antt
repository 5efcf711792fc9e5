-- ===== src/Crd/Store.antt =====
-- api/v1alpha1/bindplane_types.go: the store and the network of the configuration.
-- A pointer is an `Option`, an integer of any width a ℤ, and `zero_x` is the Go zero value of `X`.
use bindplane_operator.Prelude.{Bool, Option, String, false, none, pos, ℤ}
use bindplane_operator.Kube.{SecretKeySelector}

pub record PostgresTlsConfig : Type 0 where
  pub secret_name : String
  pub ca_key : String
  pub cert_key : String
  pub key_key : String

abbrev pub zero_postgres_tls_config : PostgresTlsConfig
zero_postgres_tls_config = record { secret_name = ""; ca_key = ""; cert_key = ""; key_key = "" }

pub record PostgresConfig : Type 0 where
  pub host : String
  pub port : String
  pub connect_timeout : String
  pub statement_timeout : String
  pub database : String
  pub ssl_mode : String
  pub tls : Option PostgresTlsConfig
  pub username : String
  pub username_secret_ref : Option SecretKeySelector
  pub password : String
  pub password_secret_ref : Option SecretKeySelector
  pub max_connections : ℤ
  pub max_idle_connections : Option ℤ
  pub max_lifetime : String
  pub max_idle_time : String
  pub schema : String

abbrev pub zero_postgres_config : PostgresConfig
zero_postgres_config = record {
  host = "";
  port = "";
  connect_timeout = "";
  statement_timeout = "";
  database = "";
  ssl_mode = "";
  tls = none;
  username = "";
  username_secret_ref = none;
  password = "";
  password_secret_ref = none;
  max_connections = pos 0;
  max_idle_connections = none;
  max_lifetime = "";
  max_idle_time = "";
  schema = "";
}

pub record StoreConfig : Type 0 where
  pub postgres : Option PostgresConfig
  pub max_events : ℤ
  pub event_merge_window : String
  pub summary_rollup_retention_days : Option ℤ

abbrev pub zero_store_config : StoreConfig
zero_store_config = record {
  postgres = none;
  max_events = pos 0;
  event_merge_window = "";
  summary_rollup_retention_days = none;
}

pub record NetworkTlsConfig : Type 0 where
  pub min_version : String
  pub secret_name : String
  pub cert_key : String
  pub key_key : String
  pub ca_key : String
  pub skip_verify : Bool

abbrev pub zero_network_tls_config : NetworkTlsConfig
zero_network_tls_config = record {
  min_version = "";
  secret_name = "";
  cert_key = "";
  key_key = "";
  ca_key = "";
  skip_verify = false;
}

pub record NetworkConfig : Type 0 where
  pub host : String
  pub port : String
  pub remote_url : String
  pub web_url : String
  pub cors_allowed_origins : String
  pub tls : Option NetworkTlsConfig

abbrev pub zero_network_config : NetworkConfig
zero_network_config = record {
  host = "";
  port = "";
  remote_url = "";
  web_url = "";
  cors_allowed_origins = "";
  tls = none;
}
