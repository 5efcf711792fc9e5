-- ===== src/ConfigEnv/Telemetry.antt =====
-- internal/controller/config_env.go: the variables of tracing, metrics, logging and the misc. part.
use bindplane_operator.Prelude.{
  ℤ, pos, ltb_ℤ, String, List, [], ◌∷◌, ◌++◌, Option, none, some, to_list, itoa, ◌==◌,
  if◌then◌else◌,
}
use bindplane_operator.Kube.{EnvVar}
use bindplane_operator.Crd.{
  TracingConfig, MetricsConfig, MetricsPrometheusConfig, MetricsOtlpKeepAliveConfig,
  BindplaneConfigSpec, LoggingConfig,
}
use bindplane_operator.ConfigEnv.{plain, secret_or_value, unless_empty, when, or_default, each}

-- getTracingConfigEnvVars
unfoldable pub get_tracing_config_env_vars : Option TracingConfig → List EnvVar
get_tracing_config_env_vars tracing = each tracing λ t.
    if t.type == ""
    then []
    else (plain "BINDPLANE_TRACING_TYPE" t.type
        ∷ ((if t.type == "otlp"
              then each t.otlp (λ o.
                unless_empty "BINDPLANE_TRACING_OTLP_ENDPOINT" o.endpoint
                ++ when o.insecure "BINDPLANE_TRACING_OTLP_INSECURE" "true")
              else [])
            ++ unless_empty "BINDPLANE_TRACING_SAMPLING_RATE" t.sampling_rate))

-- getMetricsOTLPKeepAliveEnvVars
unfoldable pub get_metrics_otlp_keep_alive_env_vars :
    Option MetricsOtlpKeepAliveConfig → List EnvVar
get_metrics_otlp_keep_alive_env_vars keep_alive = each keep_alive λ k.
    when k.enabled "BINDPLANE_METRICS_OTLP_KEEP_ALIVE_ENABLED" "true"
    ++ (unless_empty "BINDPLANE_METRICS_OTLP_KEEP_ALIVE_TIME" k.time
        ++ (unless_empty "BINDPLANE_METRICS_OTLP_KEEP_ALIVE_TIMEOUT" k.timeout
            ++ when k.permit_without_stream
                "BINDPLANE_METRICS_OTLP_KEEP_ALIVE_PERMIT_WITHOUT_STREAM" "true"))

abbrev pub prometheus_endpoint : Option MetricsPrometheusConfig → String
prometheus_endpoint none = "/metrics"
prometheus_endpoint (some p) = or_default p.endpoint "/metrics"

-- The branches of getMetricsConfigEnvVars for the type.
unfoldable pub metrics_type_env_vars : String → MetricsConfig → List EnvVar
unfolding secret_or_value get_metrics_otlp_keep_alive_env_vars
metrics_type_env_vars type m =
    (if type == "prometheus"
      then (plain "BINDPLANE_METRICS_PROMETHEUS_ENDPOINT" (prometheus_endpoint m.prometheus)
          ∷ each m.prometheus (λ p.
            unless_empty "BINDPLANE_METRICS_PROMETHEUS_USERNAME" p.username
            ++ to_list (
                secret_or_value "BINDPLANE_METRICS_PROMETHEUS_PASSWORD" p.password
                  p.password_secret_ref)))
      else [])
    ++ (if type == "otlp"
        then each m.otlp (λ o.
          unless_empty "BINDPLANE_METRICS_OTLP_ENDPOINT" o.endpoint
          ++ (when o.insecure "BINDPLANE_METRICS_OTLP_INSECURE" "true"
              ++ (unless_empty "BINDPLANE_METRICS_OTLP_TEMPORALITY" o.temporality
                  ++ get_metrics_otlp_keep_alive_env_vars o.keep_alive)))
        else [])

-- getMetricsConfigEnvVars
unfoldable pub get_metrics_config_env_vars : Option MetricsConfig → List EnvVar
unfolding metrics_type_env_vars
get_metrics_config_env_vars none =
    plain "BINDPLANE_METRICS_TYPE" "prometheus"
    ∷ plain "BINDPLANE_METRICS_INTERVAL" "60s"
    ∷ plain "BINDPLANE_METRICS_PROMETHEUS_ENDPOINT" "/metrics"
    ∷ []
get_metrics_config_env_vars (some m) =
    plain "BINDPLANE_METRICS_TYPE" (or_default m.type "prometheus")
    ∷ plain "BINDPLANE_METRICS_INTERVAL" (or_default m.interval "60s")
    ∷ metrics_type_env_vars (or_default m.type "prometheus") m

-- A number that must be positive, and the default otherwise.
abbrev pub positive_or : ℤ → ℤ → ℤ
positive_or n d = if ltb_ℤ (pos 0) n then n else d

abbrev pub number_in {ℓ} : {A : Type ℓ} → Option A → (A → ℤ) → ℤ
number_in none f = pos 0
number_in (some a) f = f a

-- defaultConcurrency
abbrev pub default_concurrency : ℤ
default_concurrency = pos 10

-- getMiscConfigEnvVars
unfoldable pub get_misc_config_env_vars : BindplaneConfigSpec → List EnvVar
get_misc_config_env_vars c =
    plain "BINDPLANE_MAX_CONCURRENCY" (itoa (positive_or c.max_concurrency default_concurrency))
    ∷ plain "BINDPLANE_AGENTS_MAX_SIMULTANEOUS_CONNECTIONS" (
        itoa (
          positive_or (number_in c.agents (λ a. a.max_simultaneous_connections))
            default_concurrency))
    ∷ plain "BINDPLANE_AUDIT_TRAIL_RETENTION_DAYS"
        (itoa (positive_or (number_in c.audit_trail (λ a. a.retention_days)) (pos 365)))
    ∷ []

abbrev pub logging_level : Option LoggingConfig → String
logging_level none = "info"
logging_level (some l) = or_default l.level "info"

-- getLoggingConfigEnvVars, of a configuration that is not nil.
unfoldable pub get_logging_config_env_vars : BindplaneConfigSpec → List EnvVar
get_logging_config_env_vars c =
    plain "BINDPLANE_LOGGING_LEVEL" (logging_level c.logging)
    ∷ plain "BINDPLANE_LOGGING_TYPE" "stdout"
    ∷ []
