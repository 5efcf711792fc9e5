-- ===== src/ConfigEnv/PartNames.antt =====
-- The names of the variables of the network, the store, tracing and the metrics.
use bindplane_operator.Prelude.{refl, String, List, [], ◌∷◌, ◌++◌, Option, none, some}
use bindplane_operator.ConfigEnv.Emits.{
  Emits, done, emit, ◌then◌, nothing, under_if, unless_empty-Emits, path-Emits, when-Emits,
  secret_or_value-Emits, number_of-Emits, each-Emits,
}
use bindplane_operator.Crd.{
  Bindplane, NetworkConfig, NetworkTlsConfig, StoreConfig, PostgresConfig, PostgresTlsConfig,
  TracingConfig, MetricsConfig, MetricsOtlpKeepAliveConfig,
}
use bindplane_operator.ConfigEnv.Network.{
  network_tls_env_vars, get_network_config_env_vars, get_store_config_env_vars,
  postgres_tls_env_vars, get_postgres_config_env_vars,
}
use bindplane_operator.ConfigEnv.Telemetry.{
  get_tracing_config_env_vars, get_metrics_otlp_keep_alive_env_vars, metrics_type_env_vars,
  get_metrics_config_env_vars,
}

abbrev pub network_tls_names : List String
network_tls_names =
    "BINDPLANE_TLS_MIN_VERSION" ∷ "BINDPLANE_TLS_CERT" ∷ "BINDPLANE_TLS_KEY" ∷ "BINDPLANE_TLS_CA"
    ∷ "BINDPLANE_TLS_SKIP_VERIFY" ∷ []

network_tls-Emits : (t : NetworkTlsConfig) → Emits network_tls_names (network_tls_env_vars t)
unfolding network_tls_env_vars
network_tls-Emits t =
    unless_empty-Emits _ t.min_version
    then under_if _ (emit refl (emit refl (path-Emits _ _ t.ca_key))) (nothing _)
    then when-Emits t.skip_verify _ "true"

abbrev pub network_names : List String
network_names =
    "BINDPLANE_HOST" ∷ "BINDPLANE_PORT" ∷ "BINDPLANE_WEB_URL" ∷ "BINDPLANE_CORS_ALLOWED_ORIGINS"
    ∷ network_tls_names

pub network-Emits :
    (o : Option NetworkConfig) (b : Bindplane)
    → Emits (network_names ++ ("BINDPLANE_REMOTE_URL" ∷ [])) (get_network_config_env_vars o b)
unfolding get_network_config_env_vars
network-Emits o b =
    each-Emits network_names _
      (λ n.
        unless_empty-Emits _ n.host
        then unless_empty-Emits _ n.port
        then unless_empty-Emits _ n.web_url
        then unless_empty-Emits _ n.cors_allowed_origins
        then each-Emits network_tls_names _ network_tls-Emits n.tls)
      o
    then emit refl done

abbrev pub postgres_tls_names : List String
postgres_tls_names =
    "BINDPLANE_POSTGRES_SSL_ROOT_CERT" ∷ "BINDPLANE_POSTGRES_SSL_CERT"
    ∷ "BINDPLANE_POSTGRES_SSL_KEY" ∷ []

postgres_tls-Emits : (t : PostgresTlsConfig) → Emits postgres_tls_names (postgres_tls_env_vars t)
unfolding postgres_tls_env_vars
postgres_tls-Emits t =
    under_if _ (emit refl (path-Emits _ _ t.cert_key then path-Emits _ _ t.key_key)) (nothing _)

abbrev pub postgres_names : List String
postgres_names =
    "BINDPLANE_POSTGRES_HOST" ∷ "BINDPLANE_POSTGRES_PORT" ∷ "BINDPLANE_POSTGRES_CONNECT_TIMEOUT"
    ∷ "BINDPLANE_POSTGRES_STATEMENT_TIMEOUT" ∷ "BINDPLANE_POSTGRES_DATABASE"
    ∷ "BINDPLANE_POSTGRES_SSL_MODE" ∷ "BINDPLANE_POSTGRES_SSL_ROOT_CERT"
    ∷ "BINDPLANE_POSTGRES_SSL_CERT" ∷ "BINDPLANE_POSTGRES_SSL_KEY" ∷ "BINDPLANE_POSTGRES_USERNAME"
    ∷ "BINDPLANE_POSTGRES_PASSWORD" ∷ "BINDPLANE_POSTGRES_MAX_CONNECTIONS"
    ∷ "BINDPLANE_POSTGRES_MAX_IDLE_CONNECTIONS" ∷ "BINDPLANE_POSTGRES_MAX_LIFETIME"
    ∷ "BINDPLANE_POSTGRES_MAX_IDLE_TIME" ∷ "BINDPLANE_POSTGRES_SCHEMA" ∷ []

pub postgres-Emits :
    (o : Option PostgresConfig) → Emits postgres_names (get_postgres_config_env_vars o)
unfolding get_postgres_config_env_vars
postgres-Emits = each-Emits postgres_names _ λ pg.
    unless_empty-Emits _ pg.host
    then unless_empty-Emits _ pg.port
    then unless_empty-Emits _ pg.connect_timeout
    then unless_empty-Emits _ pg.statement_timeout
    then unless_empty-Emits _ pg.database
    then emit refl (
        each-Emits postgres_tls_names _ postgres_tls-Emits pg.tls
        then secret_or_value-Emits _ pg.username pg.username_secret_ref
        then secret_or_value-Emits _ pg.password pg.password_secret_ref
        then when-Emits _ _ _
        then number_of-Emits _ pg.max_idle_connections
        then unless_empty-Emits _ pg.max_lifetime
        then unless_empty-Emits _ pg.max_idle_time
        then unless_empty-Emits _ pg.schema)

abbrev pub store_names : List String
store_names =
    "BINDPLANE_STORE_MAX_EVENTS" ∷ "BINDPLANE_STORE_EVENT_MERGE_WINDOW"
    ∷ "BINDPLANE_STORE_SUMMARY_ROLLUP_RETENTION_DAYS" ∷ []

pub store-Emits : (s : StoreConfig) → Emits store_names (get_store_config_env_vars s)
unfolding get_store_config_env_vars
store-Emits s =
    when-Emits _ _ _
    then unless_empty-Emits _ s.event_merge_window
    then number_of-Emits _ s.summary_rollup_retention_days

abbrev pub tracing_names : List String
tracing_names =
    "BINDPLANE_TRACING_TYPE" ∷ "BINDPLANE_TRACING_OTLP_ENDPOINT" ∷ "BINDPLANE_TRACING_OTLP_INSECURE"
    ∷ "BINDPLANE_TRACING_SAMPLING_RATE" ∷ []

pub tracing-Emits : (o : Option TracingConfig) → Emits tracing_names (get_tracing_config_env_vars o)
unfolding get_tracing_config_env_vars
tracing-Emits = each-Emits tracing_names _ λ t. under_if _ (nothing _) (
    emit refl (
      under_if _
        (each-Emits _ _
          (λ o.
            unless_empty-Emits "BINDPLANE_TRACING_OTLP_ENDPOINT" o.endpoint
            then when-Emits o.insecure "BINDPLANE_TRACING_OTLP_INSECURE" "true")
          t.otlp)
        (nothing _)
      then unless_empty-Emits _ t.sampling_rate))

abbrev pub keep_alive_names : List String
keep_alive_names =
    "BINDPLANE_METRICS_OTLP_KEEP_ALIVE_ENABLED" ∷ "BINDPLANE_METRICS_OTLP_KEEP_ALIVE_TIME"
    ∷ "BINDPLANE_METRICS_OTLP_KEEP_ALIVE_TIMEOUT"
    ∷ "BINDPLANE_METRICS_OTLP_KEEP_ALIVE_PERMIT_WITHOUT_STREAM" ∷ []

keep_alive-Emits :
    (o : Option MetricsOtlpKeepAliveConfig)
    → Emits keep_alive_names (get_metrics_otlp_keep_alive_env_vars o)
unfolding get_metrics_otlp_keep_alive_env_vars
keep_alive-Emits = each-Emits keep_alive_names _ λ k.
    when-Emits k.enabled _ "true"
    then unless_empty-Emits _ k.time
    then unless_empty-Emits _ k.timeout
    then when-Emits k.permit_without_stream _ "true"

abbrev pub prometheus_names : List String
prometheus_names =
    "BINDPLANE_METRICS_PROMETHEUS_ENDPOINT" ∷ "BINDPLANE_METRICS_PROMETHEUS_USERNAME"
    ∷ "BINDPLANE_METRICS_PROMETHEUS_PASSWORD" ∷ []

abbrev pub otlp_names : List String
otlp_names =
    "BINDPLANE_METRICS_OTLP_ENDPOINT" ∷ "BINDPLANE_METRICS_OTLP_INSECURE"
    ∷ "BINDPLANE_METRICS_OTLP_TEMPORALITY" ∷ keep_alive_names

abbrev pub metrics_names : List String
metrics_names =
    "BINDPLANE_METRICS_TYPE" ∷ "BINDPLANE_METRICS_INTERVAL" ∷ (prometheus_names ++ otlp_names)

pub metrics-Emits : (o : Option MetricsConfig) → Emits metrics_names (get_metrics_config_env_vars o)
unfolding get_metrics_config_env_vars metrics_type_env_vars
metrics-Emits none = emit refl (emit refl (emit refl (nothing _)))
metrics-Emits (some m) = emit refl (
    emit refl (
      under_if _
        (emit refl (
          each-Emits _ _
            (λ p.
              unless_empty-Emits "BINDPLANE_METRICS_PROMETHEUS_USERNAME" p.username
              then secret_or_value-Emits "BINDPLANE_METRICS_PROMETHEUS_PASSWORD" p.password
                  p.password_secret_ref)
            m.prometheus))
        (nothing prometheus_names)
      then under_if _
          (each-Emits otlp_names _
            (λ o.
              unless_empty-Emits _ o.endpoint
              then when-Emits o.insecure _ "true"
              then unless_empty-Emits _ o.temporality
              then keep_alive-Emits o.keep_alive)
            m.otlp)
          (nothing otlp_names)))
