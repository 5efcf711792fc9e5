-- ===== src/ConfigEnv/Services.antt =====
-- internal/controller/config_env.go: the variables of the services beside the server.
use bindplane_operator.Prelude.{
  pos, ltb_ℤ, Bool, true, false, not, ◌||◌, List, [], ◌∷◌, ◌++◌, Option, none, some, itoa, join,
  ◌==◌, ◌^^◌, if◌then◌else◌,
}
use bindplane_operator.Kube.{EnvVar}
use bindplane_operator.Crd.{
  Bindplane, TsdbRemoteConfig, TsdbTlsConfig, CertManagerTlsIssuerRef, AgentsConfig,
  AgentVersionsConfig, StatusConfig,
}
use bindplane_operator.Images.{get_resource_name}
use bindplane_operator.ConfigEnv.{plain, from_secret, key_of, unless_empty, when, or_default, each}
use bindplane_operator.ConfigEnv.Auth.{joined}
use bindplane_operator.ConfigEnv.Network.{number_of}

-- `p != nil && p.Name != ""`
abbrev pub has_issuer : Option CertManagerTlsIssuerRef → Bool
has_issuer none = false
has_issuer (some i) = not (i.name == "")

-- The remote TSDB, where isTSDBRemoteEnabled holds.
unfoldable pub enabled_remote : Bindplane → Option TsdbRemoteConfig
enabled_remote b = elim b.spec.config.tsdb [
  | none ↦ none
  | some t ↦ elim t.remote [ none ↦ none | some r ↦ if r.enable then some r else none ]
]

-- The TLS configuration of the TSDB's clients, where isTSDBClientTLSEnabled holds.
unfoldable pub enabled_client_tls : Bindplane → Option TsdbTlsConfig
enabled_client_tls b = elim b.spec.config.tsdb [
  | none ↦ none
  | some t ↦ elim t.tls [
    | none ↦ none
    | some s ↦ if has_issuer s.cert_manager || not (s.secret_name == "") then some s else none
  ]
]

-- getTSDBRemoteWriteTLSEnvVars
unfoldable pub get_tsdb_remote_write_tls_env_vars : Bindplane → List EnvVar
unfolding enabled_client_tls
get_tsdb_remote_write_tls_env_vars b = each (enabled_client_tls b) λ t.
    plain "BINDPLANE_PROMETHEUS_ENABLE_TLS" "true"
    ∷ plain "BINDPLANE_PROMETHEUS_TLS_CERT" "/etc/bindplane/tsdb-remote-write-tls/tls.crt"
    ∷ plain "BINDPLANE_PROMETHEUS_TLS_KEY" "/etc/bindplane/tsdb-remote-write-tls/tls.key"
    ∷ plain "BINDPLANE_PROMETHEUS_TLS_CA" "/etc/bindplane/tsdb-remote-write-tls/ca.crt"
    ∷ when t.skip_verify "BINDPLANE_PROMETHEUS_TLS_SKIP_VERIFY" "true"

-- The host, the port, and the variables that depend on where the TSDB is.
unfoldable pub tsdb_env_vars : Option TsdbRemoteConfig → Bindplane → List EnvVar
unfolding get_resource_name
tsdb_env_vars (some r) b =
    plain "BINDPLANE_PROMETHEUS_HOST" r.host
    ∷ plain "BINDPLANE_PROMETHEUS_PORT" (itoa (if ltb_ℤ (pos 0) r.port then r.port else pos 9090))
    ∷ (unless_empty "BINDPLANE_PROMETHEUS_QUERY_PATH_PREFIX" r.query_path_prefix
        ++ each r.remote_write (λ w.
          plain "BINDPLANE_PROMETHEUS_REMOTE_WRITE_HOST" w.host
          ∷ plain "BINDPLANE_PROMETHEUS_REMOTE_WRITE_PORT" (itoa w.port)
          ∷ plain "BINDPLANE_PROMETHEUS_REMOTE_WRITE_ENDPOINT"
              (or_default w.endpoint "/api/v1/write")
          ∷ []))
tsdb_env_vars none b =
    plain "BINDPLANE_PROMETHEUS_HOST"
      (get_resource_name b "tsdb" ^^ "." ^^ b.meta.namespace ^^ ".svc")
    ∷ plain "BINDPLANE_PROMETHEUS_PORT" (itoa (pos 9090))
    ∷ plain "BINDPLANE_PROMETHEUS_AUTH_TYPE" "basic"
    ∷ from_secret "BINDPLANE_PROMETHEUS_AUTH_USERNAME"
        (key_of (get_resource_name b "tsdb-basic-auth") "username")
    ∷ from_secret "BINDPLANE_PROMETHEUS_AUTH_PASSWORD"
        (key_of (get_resource_name b "tsdb-basic-auth") "password")
    ∷ []

-- getTSDBEnvVars
unfoldable pub get_tsdb_env_vars : Bindplane → List EnvVar
unfolding enabled_remote tsdb_env_vars get_tsdb_remote_write_tls_env_vars
get_tsdb_env_vars b =
    plain "BINDPLANE_PROMETHEUS_ENABLE_REMOTE" "true"
    ∷ (tsdb_env_vars (enabled_remote b) b ++ get_tsdb_remote_write_tls_env_vars b)

-- isTransformAgentCertManagerTLSEnabled
unfoldable pub is_transform_agent_cert_manager_tls_enabled : Bindplane → Bool
is_transform_agent_cert_manager_tls_enabled b = elim b.spec.transform_agent [
  | none ↦ false
  | some t ↦ elim t.tls [ none ↦ false | some s ↦ has_issuer s.cert_manager ]
]

-- getTransformAgentTLSEnvVars
unfoldable pub get_transform_agent_tls_env_vars : Bindplane → List EnvVar
unfolding is_transform_agent_cert_manager_tls_enabled
get_transform_agent_tls_env_vars b =
    if is_transform_agent_cert_manager_tls_enabled b
    then (plain "BINDPLANE_TRANSFORM_AGENT_TLS_CERT" "/etc/bindplane/transform-agent-tls/tls.crt"
        ∷ plain "BINDPLANE_TRANSFORM_AGENT_TLS_KEY" "/etc/bindplane/transform-agent-tls/tls.key"
        ∷ plain "BINDPLANE_TRANSFORM_AGENT_TLS_CA" "/etc/bindplane/transform-agent-tls/ca.crt"
        ∷ [])
    else []

-- getTransformAgentEnvVars
unfoldable pub get_transform_agent_env_vars : Bindplane → List EnvVar
unfolding get_resource_name
get_transform_agent_env_vars b =
    plain "BINDPLANE_TRANSFORM_AGENT_ENABLE_REMOTE" "true"
    ∷ plain "BINDPLANE_TRANSFORM_AGENT_REMOTE_AGENTS"
        (get_resource_name b "transform-agent" ^^ ":4568")
    ∷ []

-- getAgentsConfigEnvVars
unfoldable pub get_agents_config_env_vars : Option AgentsConfig → List EnvVar
get_agents_config_env_vars agents = each agents λ a.
    each a.auth (λ auth.
      unless_empty "BINDPLANE_AGENTS_AUTH_TYPE" auth.type
      ++ each auth.secret_key (λ k. joined "BINDPLANE_AGENTS_AUTH_SECRET_KEY_HEADERS" k.headers))
    ++ (unless_empty "BINDPLANE_AGENTS_HEARTBEAT_INTERVAL" a.heartbeat_interval
        ++ (unless_empty "BINDPLANE_AGENTS_HEARTBEAT_TTL" a.heartbeat_ttl
            ++ (unless_empty "BINDPLANE_AGENTS_HEARTBEAT_EXPIRY_INTERVAL"
                  a.heartbeat_expiry_interval
                ++ (unless_empty "BINDPLANE_AGENTS_REBALANCE_INTERVAL" a.rebalance_interval
                    ++ (number_of "BINDPLANE_AGENTS_REBALANCE_PERCENTAGE" a.rebalance_percentage
                        ++ number_of "BINDPLANE_AGENTS_REBALANCE_JITTER" a.rebalance_jitter)))))

-- getAgentVersionsConfigEnvVars
unfoldable pub get_agent_versions_config_env_vars : Option AgentVersionsConfig → List EnvVar
get_agent_versions_config_env_vars versions =
    each versions λ v. unless_empty "BINDPLANE_AGENT_VERSIONS_SYNC_INTERVAL" v.sync_interval

-- statusEnabled
unfoldable pub status_enabled : Bindplane → Bool
status_enabled b = elim b.spec.config.status [ none ↦ true | some s ↦ s.enabled ]

-- The source of BINDPLANE_STATUS_KEYS: the user's Secret, the user's keys, or the operator's Secret.
unfoldable pub status_keys : Option StatusConfig → Bindplane → EnvVar
unfolding get_resource_name
status_keys none b =
    from_secret "BINDPLANE_STATUS_KEYS" (key_of (get_resource_name b "status-secret") "status-keys")
status_keys (some s) b = elim s.keys_secret_ref [
  | some ref ↦ from_secret "BINDPLANE_STATUS_KEYS" ref
  | none ↦ elim s.keys [
    | [] ↦
        from_secret "BINDPLANE_STATUS_KEYS"
          (key_of (get_resource_name b "status-secret") "status-keys")
    | k ∷ ks ↦ plain "BINDPLANE_STATUS_KEYS" (join "," (k ∷ ks))
  ]
]

-- getStatusEnvVars
unfoldable pub get_status_env_vars : Bindplane → List EnvVar
unfolding status_enabled status_keys
get_status_env_vars b =
    if status_enabled b
    then (plain "BINDPLANE_STATUS_ENABLED" "true" ∷ status_keys b.spec.config.status b ∷ [])
    else (plain "BINDPLANE_STATUS_ENABLED" "false" ∷ [])
