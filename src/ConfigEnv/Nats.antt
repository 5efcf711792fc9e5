-- ===== src/ConfigEnv/Nats.antt =====
-- internal/controller/config_env.go and nats.go: the variables of NATS, as a server and for its clients.
use bindplane_operator.Prelude.{
  ℕ, zero, suc, ◌+◌, ℤ, pos, negsuc, String, List, [], ◌∷◌, Option, none, some, itoa, join, ◌^^◌,
  if◌then◌else◌,
}
use bindplane_operator.Kube.{EnvVar}
use bindplane_operator.Crd.{Bindplane, NatsTlsConfig}
use bindplane_operator.Images.{get_resource_name}
use bindplane_operator.ConfigEnv.{plain, when, each}
use bindplane_operator.ConfigEnv.Services.{has_issuer}
use bindplane_operator.Parts.{from_field, get_nats_client_service_name}

-- The TLS configuration of NATS, where isNatsCertManagerTLSEnabled holds.
unfoldable pub enabled_nats_tls : Bindplane → Option NatsTlsConfig
enabled_nats_tls b = elim b.spec.config.nats [
  | none ↦ none
  | some n ↦ elim n.tls [
    | none ↦ none
    | some t ↦ if has_issuer t.cert_manager then some t else none
  ]
]

-- getNatsTLSEnvVars
unfoldable pub get_nats_tls_env_vars : Bindplane → List EnvVar
unfolding enabled_nats_tls
get_nats_tls_env_vars b = each (enabled_nats_tls b) λ t.
    plain "BINDPLANE_NATS_ENABLE_TLS" "true"
    ∷ plain "BINDPLANE_NATS_TLS_CERT" "/etc/bindplane/nats-tls/tls.crt"
    ∷ plain "BINDPLANE_NATS_TLS_KEY" "/etc/bindplane/nats-tls/tls.key"
    ∷ plain "BINDPLANE_NATS_TLS_CA" "/etc/bindplane/nats-tls/ca.crt"
    ∷ when t.skip_verify "BINDPLANE_NATS_TLS_SKIP_VERIFY" "true"

-- The host that the clients of NATS connect to.
unfoldable pub nats_client_host : Bindplane → String
unfolding get_nats_client_service_name
nats_client_host b = get_nats_client_service_name b ^^ "." ^^ b.meta.namespace

-- getNatsClientEndpoint
unfoldable pub get_nats_client_endpoint : Bindplane → String
unfolding nats_client_host
get_nats_client_endpoint b = "nats://" ^^ nats_client_host b ^^ ":4222"

-- getNatsClientEnvVars
unfoldable pub get_nats_client_env_vars : Bindplane → List EnvVar
unfolding get_nats_client_endpoint get_nats_tls_env_vars
get_nats_client_env_vars b =
    plain "BINDPLANE_EVENT_BUS_TYPE" "nats"
    ∷ from_field "BINDPLANE_NATS_CLIENT_NAME" "metadata.name"
    ∷ plain "BINDPLANE_NATS_CLIENT_ENDPOINT" (get_nats_client_endpoint b)
    ∷ plain "BINDPLANE_NATS_CLIENT_SUBJECT" "bindplane-event-bus"
    ∷ get_nats_tls_env_vars b

-- The host of a replica, in the route that the others take to it.
unfoldable pub nats_peer_host : Bindplane → (headless : String) → ℕ → String
unfolding get_resource_name
nats_peer_host b headless i =
    get_resource_name b "nats" ^^ "-" ^^ itoa (pos i) ^^ "." ^^ headless ^^ "." ^^ b.meta.namespace

-- getNatsClusterRoutes: the loop over the replicas, from the first. No number of replicas below 0
-- reaches it: the API server admits none.
unfoldable pub nats_routes : Bindplane → (headless : String) → ℕ → ℕ → List String
unfolding nats_peer_host
nats_routes b headless zero i = []
nats_routes b headless (suc n) i =
    ("nats://" ^^ nats_peer_host b headless i ^^ ":6222") ∷ nats_routes b headless n (i + 1)

-- The rounds of a loop that counts up to a number.
abbrev pub rounds : ℤ → ℕ
rounds (pos n) = n
rounds (negsuc n) = 0

unfoldable pub get_nats_cluster_routes : Bindplane → (headless : String) → ℤ → String
unfolding nats_routes
get_nats_cluster_routes b headless replicas = join "," (nats_routes b headless (rounds replicas) 0)

-- getNatsEnvVars
unfoldable pub get_nats_env_vars : Bindplane → (headless : String) → ℤ → List EnvVar
unfolding get_nats_cluster_routes get_resource_name get_nats_tls_env_vars
get_nats_env_vars b headless replicas =
    plain "BINDPLANE_MODE" "node"
    ∷ plain "BINDPLANE_EVENT_BUS_TYPE" "nats"
    ∷ plain "BINDPLANE_NATS_SERVER_ENABLE" "true"
    ∷ from_field "BINDPLANE_NATS_SERVER_NAME" "metadata.name"
    ∷ plain "BINDPLANE_NATS_SERVER_CLIENT_HOST" "0.0.0.0"
    ∷ plain "BINDPLANE_NATS_SERVER_CLIENT_PORT" "4222"
    ∷ plain "BINDPLANE_NATS_SERVER_HTTP_HOST" "0.0.0.0"
    ∷ plain "BINDPLANE_NATS_SERVER_HTTP_PORT" "8222"
    ∷ plain "BINDPLANE_NATS_SERVER_CLUSTER_NAME" (get_resource_name b "nats")
    ∷ plain "BINDPLANE_NATS_SERVER_CLUSTER_HOST" "0.0.0.0"
    ∷ plain "BINDPLANE_NATS_SERVER_CLUSTER_PORT" "6222"
    ∷ plain "BINDPLANE_NATS_SERVER_CLUSTER_ROUTES" (get_nats_cluster_routes b headless replicas)
    ∷ from_field "BINDPLANE_NATS_CLIENT_NAME" "metadata.name"
    ∷ plain "BINDPLANE_NATS_CLIENT_ENDPOINT" "nats://127.0.0.1:4222"
    ∷ plain "BINDPLANE_NATS_CLIENT_SUBJECT" "bindplane-event-bus"
    ∷ get_nats_tls_env_vars b
