-- ===== src/ConfigEnv/Common.antt =====
-- internal/controller/config_env.go: the event bus, and the variables that Node, Jobs, Jobs Migrate
-- and NATS share.
use mathlib.Core.Option
use bindplane_operator.Prelude.{
  ℕ, ◌+◌, ◌-◌, ◌%◌, sub_ℕ, quot, negsuc, ℤ, pos, List, [], ◌∷◌, ◌++◌, Option, none, some, to_list,
  itoa,
}
use bindplane_operator.Kube.{EnvVar}
use bindplane_operator.Crd.{
  Bindplane, AuthConfig, EventBusConfig, EventBusHealthConfig, NatsComponentSpec,
}
use bindplane_operator.EnvVars.{combine_env_vars}
use bindplane_operator.Images.{get_resource_name}
use bindplane_operator.ConfigEnv.{plain, from_secret, key_of, secret_or_value, unless_empty}
use bindplane_operator.ConfigEnv.Auth.{get_auth_config_env_vars}
use bindplane_operator.ConfigEnv.Network.{
  get_network_config_env_vars, get_store_config_env_vars, get_postgres_config_env_vars,
}
use bindplane_operator.ConfigEnv.Telemetry.{
  get_tracing_config_env_vars, get_metrics_config_env_vars, get_misc_config_env_vars,
  get_logging_config_env_vars,
}
use bindplane_operator.ConfigEnv.Services.{
  get_tsdb_env_vars, get_transform_agent_env_vars, get_transform_agent_tls_env_vars,
  get_agents_config_env_vars, get_agent_versions_config_env_vars, get_status_env_vars,
}

-- The user's session secret, where there is one.
unfoldable pub user_session_secret : Option AuthConfig → Option EnvVar
unfolding secret_or_value
user_session_secret none = none
user_session_secret (some a) =
    secret_or_value "BINDPLANE_SESSION_SECRET" a.session_secret a.session_secret_secret_ref

-- The variable of the session secret: the user's, or a reference to the operator's Secret.
unfoldable pub session_secret_var : Bindplane → Option EnvVar → EnvVar
unfolding get_resource_name
session_secret_var b (some ev) = ev
session_secret_var b none =
    from_secret "BINDPLANE_SESSION_SECRET"
      (key_of (get_resource_name b "session-secret") "session-secret")

-- getBindplaneConfigEnvVars
unfoldable pub get_bindplane_config_env_vars : Bindplane → List EnvVar
unfolding secret_or_value get_auth_config_env_vars user_session_secret session_secret_var
    get_network_config_env_vars get_postgres_config_env_vars get_store_config_env_vars
    get_tracing_config_env_vars get_metrics_config_env_vars get_misc_config_env_vars
    get_agents_config_env_vars get_agent_versions_config_env_vars
get_bindplane_config_env_vars b =
    to_list (secret_or_value "BINDPLANE_LICENSE" config.license config.license_secret_ref)
    ++ (get_auth_config_env_vars config.auth
        ++ (session_secret_var b (user_session_secret config.auth)
            ∷ (get_network_config_env_vars config.network b
                ++ (plain "BINDPLANE_STORE_TYPE" "postgres"
                    ∷ (get_postgres_config_env_vars config.store.postgres
                        ++ (get_store_config_env_vars config.store
                            ++ (get_tracing_config_env_vars config.tracing
                                ++ (get_metrics_config_env_vars config.metrics
                                    ++ (get_misc_config_env_vars config
                                        ++ (get_agents_config_env_vars config.agents
                                            ++ get_agent_versions_config_env_vars
                                                config.agent_versions))))))))))
  where
    open b.spec use {config}

-- The replicas of a component, of which the source dereferences the pointers: `none` is the panic.
abbrev pub nats_replicas : Option NatsComponentSpec → Option ℤ
nats_replicas none = none
nats_replicas (some c) = c.replicas

abbrev replicas_or : Option ℤ → ℤ → ℤ
replicas_or none d = d
replicas_or (some n) d = n

-- int32 addition.
unfoldable pub add32 : ℤ → ℤ → ℤ
add32 a b = sub_ℕ ((residue32 a + residue32 b + 2147483648) % 4294967296) 2147483648
  where
    residue32 : ℤ → ℕ
    residue32 (pos n) = n % 4294967296
    residue32 (negsuc n) = 4294967295 - n % 4294967296

-- defaultRequiredHosts, by the replicas of the node and of NATS.
unfoldable pub required_hosts_of : Option ℤ → ℤ → ℤ
unfolding add32 quot
required_hosts_of node nats =
    add32 (quot (add32 (add32 (replicas_or node (pos 3)) nats) (pos 1)) 2) (pos 1)

-- defaultRequiredHosts
unfoldable pub default_required_hosts : Bindplane → Option ℤ
unfolding required_hosts_of
default_required_hosts b =
    Option.map (required_hosts_of b.spec.bindplane.replicas) (nats_replicas b.spec.nats)

unfoldable pub health_env_vars : EventBusHealthConfig → ℤ → List EnvVar
health_env_vars h hosts =
    plain "BINDPLANE_EVENT_BUS_HEALTH_REQUIRED_HOSTS" (itoa (replicas_or h.required_hosts hosts))
    ∷ unless_empty "BINDPLANE_EVENT_BUS_HEALTH_INTERVAL" h.interval

-- `config.EventBus == nil || config.EventBus.Health == nil`
abbrev pub health_of : Option EventBusConfig → Option EventBusHealthConfig
health_of none = none
health_of (some e) = e.health

unfoldable pub event_bus_env_vars : Option EventBusHealthConfig → Option ℤ → Option (List EnvVar)
unfolding health_env_vars
event_bus_env_vars none hosts = some []
event_bus_env_vars (some h) hosts = Option.map (health_env_vars h) hosts

-- getEventBusHealthEnvVars; `none` is a nil pointer that is dereferenced.
unfoldable pub get_event_bus_health_env_vars : Bindplane → Option (List EnvVar)
unfolding default_required_hosts event_bus_env_vars
get_event_bus_health_env_vars b =
    event_bus_env_vars (health_of b.spec.config.event_bus) (default_required_hosts b)

-- The lists that getBindplaneCommonEnvVars combines.
unfoldable pub shared_env_vars : Bindplane → List EnvVar → List EnvVar
unfolding combine_env_vars get_bindplane_config_env_vars get_tsdb_env_vars
    get_transform_agent_env_vars get_transform_agent_tls_env_vars get_status_env_vars
    get_logging_config_env_vars
shared_env_vars b health = combine_env_vars (
    get_bindplane_config_env_vars b
    ∷ get_tsdb_env_vars b
    ∷ get_transform_agent_env_vars b
    ∷ get_transform_agent_tls_env_vars b
    ∷ get_status_env_vars b
    ∷ get_logging_config_env_vars b.spec.config
    ∷ health
    ∷ [])

-- getBindplaneCommonEnvVars; `none` as above.
unfoldable pub get_bindplane_common_env_vars : Bindplane → Option (List EnvVar)
unfolding shared_env_vars get_event_bus_health_env_vars
get_bindplane_common_env_vars b = Option.map (shared_env_vars b) (get_event_bus_health_env_vars b)
