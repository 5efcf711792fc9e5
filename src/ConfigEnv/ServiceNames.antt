-- ===== src/ConfigEnv/ServiceNames.antt =====
-- The names of the variables of the services, and of the shared environment as a whole.
use bindplane_operator.ConfigEnv.Common.{
  event_bus_env_vars, user_session_secret, session_secret_var, get_bindplane_config_env_vars,
  health_env_vars, get_event_bus_health_env_vars, default_required_hosts, shared_env_vars,
  health_of, get_bindplane_common_env_vars,
}
use mathlib.Core.Option
use bindplane_operator.Prelude.{
  ◌≡◌, refl, ℤ, Bool, true, String, List, [], ◌∷◌, ◌++◌, Option, none, some, Distinct, member,
  member_iff, not, ◌&&◌, arith,
}
use bindplane_operator.Kube.{EnvVar}
use bindplane_operator.EnvVars.{combine_env_vars}
use bindplane_operator.EnvVars.Effective.{HasDistinctNames}
use bindplane_operator.ConfigEnv.{secret_or_value}
use bindplane_operator.ConfigEnv.Emits.{
  Emits, done, omit, emit, ◌then◌, nothing, under_if, unless_empty-Emits, when-Emits,
  secret_or_value-Emits, joined-Emits, number_of-Emits, each-Emits, Emits-HasDistinctNames,
}
use bindplane_operator.ConfigEnv.AuthNames.{auth_names, auth-Emits}
use bindplane_operator.ConfigEnv.PartNames.{
  network_names, network-Emits, postgres_names, postgres-Emits, store_names, store-Emits,
  tracing_names, tracing-Emits, metrics_names, metrics-Emits,
}
use bindplane_operator.Crd.{
  Bindplane, AgentsConfig, AgentVersionsConfig, AuthConfig, TsdbRemoteConfig, StatusConfig,
  EventBusHealthConfig, BindplaneConfigSpec,
}
use bindplane_operator.ConfigEnv.Telemetry.{get_misc_config_env_vars, get_logging_config_env_vars}
use bindplane_operator.ConfigEnv.Services.{
  get_tsdb_remote_write_tls_env_vars, enabled_client_tls, enabled_remote, tsdb_env_vars,
  get_tsdb_env_vars, get_transform_agent_tls_env_vars, get_transform_agent_env_vars,
  get_agents_config_env_vars, get_agent_versions_config_env_vars, status_keys, get_status_env_vars,
}

abbrev pub tsdb_tls_names : List String
tsdb_tls_names =
    "BINDPLANE_PROMETHEUS_ENABLE_TLS" ∷ "BINDPLANE_PROMETHEUS_TLS_CERT"
    ∷ "BINDPLANE_PROMETHEUS_TLS_KEY" ∷ "BINDPLANE_PROMETHEUS_TLS_CA"
    ∷ "BINDPLANE_PROMETHEUS_TLS_SKIP_VERIFY" ∷ []

tsdb_tls-Emits : (b : Bindplane) → Emits tsdb_tls_names (get_tsdb_remote_write_tls_env_vars b)
unfolding get_tsdb_remote_write_tls_env_vars
tsdb_tls-Emits b =
    each-Emits tsdb_tls_names _
      (λ t. emit refl (emit refl (emit refl (emit refl (when-Emits t.skip_verify _ "true")))))
      (enabled_client_tls b)

abbrev pub tsdb_own_names : List String
tsdb_own_names =
    "BINDPLANE_PROMETHEUS_HOST" ∷ "BINDPLANE_PROMETHEUS_PORT"
    ∷ "BINDPLANE_PROMETHEUS_QUERY_PATH_PREFIX" ∷ "BINDPLANE_PROMETHEUS_REMOTE_WRITE_HOST"
    ∷ "BINDPLANE_PROMETHEUS_REMOTE_WRITE_PORT" ∷ "BINDPLANE_PROMETHEUS_REMOTE_WRITE_ENDPOINT"
    ∷ "BINDPLANE_PROMETHEUS_AUTH_TYPE" ∷ "BINDPLANE_PROMETHEUS_AUTH_USERNAME"
    ∷ "BINDPLANE_PROMETHEUS_AUTH_PASSWORD" ∷ []

tsdb_own-Emits :
    (r : Option TsdbRemoteConfig) (b : Bindplane) → Emits tsdb_own_names (tsdb_env_vars r b)
unfolding tsdb_env_vars
tsdb_own-Emits none b =
    emit refl (emit refl (omit (omit (omit (omit (emit refl (emit refl (emit refl done))))))))
tsdb_own-Emits (some r) b = pad (
    emit refl (
      emit refl (
        unless_empty-Emits _ r.query_path_prefix
        then each-Emits
            ("BINDPLANE_PROMETHEUS_REMOTE_WRITE_HOST" ∷ "BINDPLANE_PROMETHEUS_REMOTE_WRITE_PORT"
              ∷ "BINDPLANE_PROMETHEUS_REMOTE_WRITE_ENDPOINT" ∷ [])
            _ (λ w. emit refl (emit refl (emit refl done))) r.remote_write)))
  where
    -- A place may be left empty at the end.
    pad :
        {ns : List String} {vs : List EnvVar}
        → Emits ns vs
        → Emits
            (ns
              ++ ("BINDPLANE_PROMETHEUS_AUTH_TYPE" ∷ "BINDPLANE_PROMETHEUS_AUTH_USERNAME"
                  ∷ "BINDPLANE_PROMETHEUS_AUTH_PASSWORD" ∷ []))
            vs
    pad done = nothing _
    pad (omit h) = omit (pad h)
    pad (emit e h) = emit e (pad h)

abbrev pub agents_names : List String
agents_names =
    "BINDPLANE_AGENTS_AUTH_TYPE" ∷ "BINDPLANE_AGENTS_AUTH_SECRET_KEY_HEADERS"
    ∷ "BINDPLANE_AGENTS_HEARTBEAT_INTERVAL" ∷ "BINDPLANE_AGENTS_HEARTBEAT_TTL"
    ∷ "BINDPLANE_AGENTS_HEARTBEAT_EXPIRY_INTERVAL" ∷ "BINDPLANE_AGENTS_REBALANCE_INTERVAL"
    ∷ "BINDPLANE_AGENTS_REBALANCE_PERCENTAGE" ∷ "BINDPLANE_AGENTS_REBALANCE_JITTER" ∷ []

agents-Emits : (o : Option AgentsConfig) → Emits agents_names (get_agents_config_env_vars o)
unfolding get_agents_config_env_vars
agents-Emits = each-Emits agents_names _ λ a.
    each-Emits ("BINDPLANE_AGENTS_AUTH_TYPE" ∷ "BINDPLANE_AGENTS_AUTH_SECRET_KEY_HEADERS" ∷ []) _
      (λ auth.
        unless_empty-Emits _ auth.type
        then each-Emits ("BINDPLANE_AGENTS_AUTH_SECRET_KEY_HEADERS" ∷ []) _
            (λ k. joined-Emits _ k.headers) auth.secret_key)
      a.auth
    then unless_empty-Emits _ a.heartbeat_interval
    then unless_empty-Emits _ a.heartbeat_ttl
    then unless_empty-Emits _ a.heartbeat_expiry_interval
    then unless_empty-Emits _ a.rebalance_interval
    then number_of-Emits _ a.rebalance_percentage
    then number_of-Emits _ a.rebalance_jitter

abbrev pub version_names : List String
version_names = "BINDPLANE_AGENT_VERSIONS_SYNC_INTERVAL" ∷ []

versions_emit :
    (o : Option AgentVersionsConfig) → Emits version_names (get_agent_versions_config_env_vars o)
unfolding get_agent_versions_config_env_vars
versions_emit = each-Emits version_names _ λ v. unless_empty-Emits _ v.sync_interval

abbrev pub misc_names : List String
misc_names =
    "BINDPLANE_MAX_CONCURRENCY" ∷ "BINDPLANE_AGENTS_MAX_SIMULTANEOUS_CONNECTIONS"
    ∷ "BINDPLANE_AUDIT_TRAIL_RETENTION_DAYS" ∷ []

misc-Emits : (c : BindplaneConfigSpec) → Emits misc_names (get_misc_config_env_vars c)
unfolding get_misc_config_env_vars
misc-Emits c = emit refl (emit refl (emit refl done))

-- The session secret is one variable, wherever it comes from.
session_name :
    (b : Bindplane) (auth : Option AuthConfig)
    → (session_secret_var b (user_session_secret auth)).name ≡ "BINDPLANE_SESSION_SECRET"
unfolding session_secret_var user_session_secret secret_or_value
session_name b none = refl
session_name b (some a) = ground arith

abbrev pub config_names : List String
config_names =
    "BINDPLANE_LICENSE"
    ∷ (auth_names
        ++ ("BINDPLANE_SESSION_SECRET"
            ∷ ((network_names ++ ("BINDPLANE_REMOTE_URL" ∷ []))
                ++ ("BINDPLANE_STORE_TYPE"
                    ∷ (postgres_names
                        ++ (store_names
                            ++ (tracing_names
                                ++ (metrics_names
                                    ++ (misc_names ++ (agents_names ++ version_names))))))))))

config-Emits : (b : Bindplane) → Emits config_names (get_bindplane_config_env_vars b)
unfolding get_bindplane_config_env_vars
config-Emits b =
    secret_or_value-Emits _ b.spec.config.license b.spec.config.license_secret_ref
    then auth-Emits b.spec.config.auth
    then emit (session_name b b.spec.config.auth) (
        network-Emits b.spec.config.network b
        then emit refl (
            postgres-Emits b.spec.config.store.postgres
            then store-Emits b.spec.config.store
            then tracing-Emits b.spec.config.tracing
            then metrics-Emits b.spec.config.metrics
            then misc-Emits b.spec.config
            then agents-Emits b.spec.config.agents
            then versions_emit b.spec.config.agent_versions))

abbrev pub tail_names : List String
tail_names =
    "BINDPLANE_TRANSFORM_AGENT_ENABLE_REMOTE" ∷ "BINDPLANE_TRANSFORM_AGENT_REMOTE_AGENTS"
    ∷ "BINDPLANE_TRANSFORM_AGENT_TLS_CERT" ∷ "BINDPLANE_TRANSFORM_AGENT_TLS_KEY"
    ∷ "BINDPLANE_TRANSFORM_AGENT_TLS_CA" ∷ "BINDPLANE_STATUS_ENABLED" ∷ "BINDPLANE_STATUS_KEYS"
    ∷ "BINDPLANE_LOGGING_LEVEL" ∷ "BINDPLANE_LOGGING_TYPE"
    ∷ "BINDPLANE_EVENT_BUS_HEALTH_REQUIRED_HOSTS" ∷ "BINDPLANE_EVENT_BUS_HEALTH_INTERVAL" ∷ []

tsdb-Emits :
    (b : Bindplane)
    → Emits
        ("BINDPLANE_PROMETHEUS_ENABLE_REMOTE" ∷ (tsdb_own_names ++ tsdb_tls_names))
        (get_tsdb_env_vars b)
unfolding get_tsdb_env_vars
tsdb-Emits b = emit refl (tsdb_own-Emits (enabled_remote b) b then tsdb_tls-Emits b)

agent-Emits :
    (b : Bindplane)
    → Emits
        ("BINDPLANE_TRANSFORM_AGENT_ENABLE_REMOTE" ∷ "BINDPLANE_TRANSFORM_AGENT_REMOTE_AGENTS" ∷ [])
        (get_transform_agent_env_vars b)
unfolding get_transform_agent_env_vars
agent-Emits b = emit refl (emit refl done)

agent_tls-Emits :
    (b : Bindplane)
    → Emits
        ("BINDPLANE_TRANSFORM_AGENT_TLS_CERT" ∷ "BINDPLANE_TRANSFORM_AGENT_TLS_KEY"
          ∷ "BINDPLANE_TRANSFORM_AGENT_TLS_CA" ∷ [])
        (get_transform_agent_tls_env_vars b)
unfolding get_transform_agent_tls_env_vars
agent_tls-Emits b = under_if _ (emit refl (emit refl (emit refl done))) (nothing _)

keys_name :
    (s : Option StatusConfig) (b : Bindplane) → (status_keys s b).name ≡ "BINDPLANE_STATUS_KEYS"
unfolding status_keys
keys_name none b = refl
keys_name (some s) b = ground arith

status-Emits :
    (b : Bindplane)
    → Emits ("BINDPLANE_STATUS_ENABLED" ∷ "BINDPLANE_STATUS_KEYS" ∷ []) (get_status_env_vars b)
unfolding get_status_env_vars
status-Emits b =
    under_if _ (emit refl (emit (keys_name b.spec.config.status b) done)) (emit refl (omit done))

logging-Emits :
    (c : BindplaneConfigSpec)
    → Emits
        ("BINDPLANE_LOGGING_LEVEL" ∷ "BINDPLANE_LOGGING_TYPE" ∷ [])
        (get_logging_config_env_vars c)
unfolding get_logging_config_env_vars
logging-Emits c = emit refl (emit refl done)

abbrev pub health_names : List String
health_names =
    "BINDPLANE_EVENT_BUS_HEALTH_REQUIRED_HOSTS" ∷ "BINDPLANE_EVENT_BUS_HEALTH_INTERVAL" ∷ []

-- What the event bus emits, where no pointer is nil.
abbrev pub AllSome : (List EnvVar → Type 0) → Option (List EnvVar) → Type 0
AllSome P none = Unit
AllSome P (some vs) = P vs

health-Emits :
    (h : Option EventBusHealthConfig) (hosts : Option ℤ)
    → AllSome (Emits health_names) (event_bus_env_vars h hosts)
unfolding event_bus_env_vars health_env_vars
health-Emits none hosts = nothing _
health-Emits (some h) none = tt
health-Emits (some h) (some n) = emit refl (unless_empty-Emits _ h.interval)

-- The names that the shared environment can have, in their order.
abbrev pub common_names : List String
common_names =
    config_names
    ++ ("BINDPLANE_PROMETHEUS_ENABLE_REMOTE" ∷ ((tsdb_own_names ++ tsdb_tls_names) ++ tail_names))

-- The whole list, where the event bus gives that part of it.
common-Emits :
    (b : Bindplane) (health : List EnvVar)
    → Emits health_names health
    → Emits common_names (shared_env_vars b health)
unfolding shared_env_vars combine_env_vars
common-Emits b health h =
    config-Emits b
    then tsdb-Emits b
    then agent-Emits b
    then agent_tls-Emits b
    then status-Emits b
    then logging-Emits b.spec.config
    then h
    then done

-- Whether no text occurs twice.
distinct : List String → Bool
distinct [] = true
distinct (s ∷ ss) = not (member s ss) && distinct ss

distinct-Distinct : (ss : List String) → distinct ss ≡ true → Distinct ss
unfolding distinct
distinct-Distinct [] h = tt
distinct-Distinct (s ∷ ss) h =
    ((λ i. ground (arith, (member_iff s ss).1 i)), distinct-Distinct ss (ground arith))

common_names-Distinct : Distinct common_names
unfolding distinct member
common_names-Distinct = distinct-Distinct common_names refl

-- Whatever the resource is, the shared environment of Node, Jobs, Jobs Migrate and NATS, where it
-- is computed at all, sets no variable twice.
pub get_bindplane_common_env_vars-HasDistinctNames :
    (b : Bindplane) → AllSome HasDistinctNames (get_bindplane_common_env_vars b)
unfolding get_bindplane_common_env_vars get_event_bus_health_env_vars
get_bindplane_common_env_vars-HasDistinctNames b =
    with_health (get_event_bus_health_env_vars b)
      (health-Emits (health_of b.spec.config.event_bus) (default_required_hosts b))
  where
    with_health :
        (o : Option (List EnvVar))
        → AllSome (Emits health_names) o
        → AllSome HasDistinctNames (Option.map (shared_env_vars b) o)
    with_health none h = tt
    with_health (some vs) h = Emits-HasDistinctNames (common-Emits b vs h) common_names-Distinct
