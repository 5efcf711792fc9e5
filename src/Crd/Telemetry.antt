-- ===== src/Crd/Telemetry.antt =====
-- api/v1alpha1/bindplane_types.go: tracing, metrics, logging, the audit trail and the status check.
-- A pointer is an `Option`, an integer of any width a ℤ, and `zero_x` is the Go zero value of `X`.
use bindplane_operator.Prelude.{Bool, List, Option, String, [], false, none, pos, ℤ}
use bindplane_operator.Kube.{SecretKeySelector}

pub record TracingOtlpConfig : Type 0 where
  pub endpoint : String
  pub insecure : Bool

abbrev pub zero_tracing_otlp_config : TracingOtlpConfig
zero_tracing_otlp_config = record { endpoint = ""; insecure = false }

pub record TracingConfig : Type 0 where
  pub type : String
  pub otlp : Option TracingOtlpConfig
  pub sampling_rate : String

abbrev pub zero_tracing_config : TracingConfig
zero_tracing_config = record { type = ""; otlp = none; sampling_rate = "" }

pub record MetricsPrometheusConfig : Type 0 where
  pub endpoint : String
  pub username : String
  pub password : String
  pub password_secret_ref : Option SecretKeySelector

abbrev pub zero_metrics_prometheus_config : MetricsPrometheusConfig
zero_metrics_prometheus_config = record {
  endpoint = "";
  username = "";
  password = "";
  password_secret_ref = none;
}

pub record MetricsOtlpKeepAliveConfig : Type 0 where
  pub enabled : Bool
  pub time : String
  pub timeout : String
  pub permit_without_stream : Bool

abbrev pub zero_metrics_otlp_keep_alive_config : MetricsOtlpKeepAliveConfig
zero_metrics_otlp_keep_alive_config = record {
  enabled = false;
  time = "";
  timeout = "";
  permit_without_stream = false;
}

pub record MetricsOtlpConfig : Type 0 where
  pub endpoint : String
  pub insecure : Bool
  pub temporality : String
  pub keep_alive : Option MetricsOtlpKeepAliveConfig

abbrev pub zero_metrics_otlp_config : MetricsOtlpConfig
zero_metrics_otlp_config = record {
  endpoint = "";
  insecure = false;
  temporality = "";
  keep_alive = none;
}

pub record MetricsConfig : Type 0 where
  pub type : String
  pub interval : String
  pub prometheus : Option MetricsPrometheusConfig
  pub otlp : Option MetricsOtlpConfig

abbrev pub zero_metrics_config : MetricsConfig
zero_metrics_config = record { type = ""; interval = ""; prometheus = none; otlp = none }

pub record LoggingConfig : Type 0 where
  pub level : String

abbrev pub zero_logging_config : LoggingConfig
zero_logging_config = record { level = "" }

pub record AuditTrailConfig : Type 0 where
  pub retention_days : ℤ

abbrev pub zero_audit_trail_config : AuditTrailConfig
zero_audit_trail_config = record { retention_days = pos 0 }

pub record StatusConfig : Type 0 where
  pub enabled : Bool
  pub keys : List String
  pub keys_secret_ref : Option SecretKeySelector

abbrev pub zero_status_config : StatusConfig
zero_status_config = record { enabled = false; keys = []; keys_secret_ref = none }
