-- ===== src/TlsVolumes/Paths.antt =====
-- internal/controller/config_env.go and bindplane_controller.go: the variables of the network and
-- Postgres TLS, beside their volumes.
use bindplane_operator.Prelude.{◌≢◌, ◌↔◌, [], none, some, arith}
use bindplane_operator.Crd.{NetworkTlsConfig, PostgresTlsConfig}
use bindplane_operator.EnvVars.Effective.{effective}
use bindplane_operator.ConfigEnv.Network.{network_tls_env_vars, postgres_tls_env_vars}
use bindplane_operator.TlsVolumes.{network_tls_volume, postgres_tls_volume}

-- The certificate of the server is named in the environment exactly when its volume is mounted.
pub network_tls_env_vars_iff :
    (t : NetworkTlsConfig)
    → (effective "BINDPLANE_TLS_CERT" (network_tls_env_vars t) ≢ none)
      ↔ ((network_tls_volume (some t)).1 ≢ [])
unfolding network_tls_env_vars network_tls_volume effective
network_tls_env_vars_iff t = ground arith

-- The root certificate of Postgres is named in the environment exactly when its volume is mounted.
pub postgres_tls_env_vars_iff :
    (t : PostgresTlsConfig)
    → (effective "BINDPLANE_POSTGRES_SSL_ROOT_CERT" (postgres_tls_env_vars t) ≢ none)
      ↔ ((postgres_tls_volume (some t)).1 ≢ [])
unfolding postgres_tls_env_vars postgres_tls_volume effective
postgres_tls_env_vars_iff t = ground arith
