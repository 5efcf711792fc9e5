-- ===== src/ConfigEnv/Network.antt =====
-- internal/controller/config_env.go: the variables of spec.config.network and spec.config.store.
use bindplane_operator.Prelude.{
  ℤ, pos, ltb_ℤ, not, ◌&&◌, String, List, [], ◌∷◌, ◌++◌, Option, none, some, to_list, itoa, ◌==◌,
  ◌^^◌, if◌then◌else◌,
}
use bindplane_operator.Kube.{EnvVar}
use bindplane_operator.Crd.{
  Bindplane, NetworkConfig, NetworkTlsConfig, StoreConfig, PostgresConfig, PostgresTlsConfig,
}
use bindplane_operator.ConfigEnv.{plain, secret_or_value, unless_empty, when, or_default, each}
use bindplane_operator.ConfigEnv.Auth.{path_unless_empty}

abbrev pub network_tls_mount_path : String
network_tls_mount_path = "/etc/bindplane/network-tls"

abbrev pub postgres_tls_mount_path : String
postgres_tls_mount_path = "/etc/bindplane/postgres-tls"

-- The TLS part of getNetworkConfigEnvVars.
unfoldable pub network_tls_env_vars : NetworkTlsConfig → List EnvVar
network_tls_env_vars tls =
    unless_empty "BINDPLANE_TLS_MIN_VERSION" tls.min_version
    ++ ((if not (tls.secret_name == "") && not (tls.cert_key == "") && not (tls.key_key == "")
          then (plain "BINDPLANE_TLS_CERT" (network_tls_mount_path ^^ "/" ^^ tls.cert_key)
              ∷ plain "BINDPLANE_TLS_KEY" (network_tls_mount_path ^^ "/" ^^ tls.key_key)
              ∷ path_unless_empty "BINDPLANE_TLS_CA" network_tls_mount_path tls.ca_key)
          else [])
        ++ when tls.skip_verify "BINDPLANE_TLS_SKIP_VERIFY" "true")

-- The remote URL of the configuration, and the node's service where there is none.
abbrev pub remote_url_of : Option NetworkConfig → String
remote_url_of none = ""
remote_url_of (some n) = n.remote_url

-- getNetworkConfigEnvVars
unfoldable pub get_network_config_env_vars : Option NetworkConfig → Bindplane → List EnvVar
unfolding network_tls_env_vars
get_network_config_env_vars network b =
    each network (λ n.
      unless_empty "BINDPLANE_HOST" n.host
      ++ (unless_empty "BINDPLANE_PORT" n.port
          ++ (unless_empty "BINDPLANE_WEB_URL" n.web_url
              ++ (unless_empty "BINDPLANE_CORS_ALLOWED_ORIGINS" n.cors_allowed_origins
                  ++ each n.tls network_tls_env_vars))))
    ++ (plain "BINDPLANE_REMOTE_URL"
          (or_default (remote_url_of network) ("http://" ^^ b.meta.name ^^ "-node:3001"))
        ∷ [])

-- `if p != nil { … strconv.Itoa(*p) }`
abbrev pub number_of : String → Option ℤ → List EnvVar
number_of name none = []
number_of name (some n) = plain name (itoa n) ∷ []

-- `if n > 0 { … strconv.Itoa(n) }`
abbrev pub if_positive : String → ℤ → List EnvVar
if_positive name n = when (ltb_ℤ (pos 0) n) name (itoa n)

-- getStoreConfigEnvVars, of a store that is not nil.
unfoldable pub get_store_config_env_vars : StoreConfig → List EnvVar
get_store_config_env_vars store =
    if_positive "BINDPLANE_STORE_MAX_EVENTS" store.max_events
    ++ (unless_empty "BINDPLANE_STORE_EVENT_MERGE_WINDOW" store.event_merge_window
        ++ number_of "BINDPLANE_STORE_SUMMARY_ROLLUP_RETENTION_DAYS"
            store.summary_rollup_retention_days)

-- The TLS part of getPostgresConfigEnvVars.
unfoldable pub postgres_tls_env_vars : PostgresTlsConfig → List EnvVar
postgres_tls_env_vars tls =
    if not (tls.secret_name == "") && not (tls.ca_key == "")
    then (plain "BINDPLANE_POSTGRES_SSL_ROOT_CERT" (postgres_tls_mount_path ^^ "/" ^^ tls.ca_key)
        ∷ (path_unless_empty "BINDPLANE_POSTGRES_SSL_CERT" postgres_tls_mount_path tls.cert_key
            ++ path_unless_empty "BINDPLANE_POSTGRES_SSL_KEY" postgres_tls_mount_path tls.key_key))
    else []

-- getPostgresConfigEnvVars
unfoldable pub get_postgres_config_env_vars : Option PostgresConfig → List EnvVar
unfolding secret_or_value postgres_tls_env_vars
get_postgres_config_env_vars postgres = each postgres λ pg.
    unless_empty "BINDPLANE_POSTGRES_HOST" pg.host
    ++ (unless_empty "BINDPLANE_POSTGRES_PORT" pg.port
        ++ (unless_empty "BINDPLANE_POSTGRES_CONNECT_TIMEOUT" pg.connect_timeout
            ++ (unless_empty "BINDPLANE_POSTGRES_STATEMENT_TIMEOUT" pg.statement_timeout
                ++ (unless_empty "BINDPLANE_POSTGRES_DATABASE" pg.database
                    ++ (plain "BINDPLANE_POSTGRES_SSL_MODE" (or_default pg.ssl_mode "disable")
                        ∷ (each pg.tls postgres_tls_env_vars
                            ++ (to_list (
                                  secret_or_value "BINDPLANE_POSTGRES_USERNAME" pg.username
                                    pg.username_secret_ref)
                                ++ (to_list (
                                      secret_or_value "BINDPLANE_POSTGRES_PASSWORD" pg.password
                                        pg.password_secret_ref)
                                    ++ (if_positive "BINDPLANE_POSTGRES_MAX_CONNECTIONS"
                                          pg.max_connections
                                        ++ (number_of "BINDPLANE_POSTGRES_MAX_IDLE_CONNECTIONS"
                                              pg.max_idle_connections
                                            ++ (unless_empty "BINDPLANE_POSTGRES_MAX_LIFETIME"
                                                  pg.max_lifetime
                                                ++ (unless_empty "BINDPLANE_POSTGRES_MAX_IDLE_TIME"
                                                      pg.max_idle_time
                                                    ++ unless_empty "BINDPLANE_POSTGRES_SCHEMA"
                                                        pg.schema))))))))))))
