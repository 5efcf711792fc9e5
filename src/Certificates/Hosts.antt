-- ===== src/Certificates/Hosts.antt =====
-- internal/controller/cert_manager.go: the names of the certificates, beside the hosts in the
-- environment of the clients.
use bindplane_operator.ConfigEnv.Override.{effective_of_shared}
use bindplane_operator.EnvVars.Effective.{effective}
use bindplane_operator.ConfigEnv.Common.{
  shared_env_vars, get_bindplane_config_env_vars, get_bindplane_common_env_vars,
}
use bindplane_operator.Kube.{Container, PodTemplateSpec, EnvVar}
use bindplane_operator.Parts.Extras.{get_nats_pod_template, get_nats_extra_env}
use bindplane_operator.Merge.{merge_pod_template_spec, Codecs}
use bindplane_operator.Workloads.Nats.{
  nats_stateful_set_of, nats_template, nats_container, nats_stateful_set, nats_stateful_set_for,
}
use bindplane_operator.Prelude.{
  ◌++◌, ℤ, none, some, join, In-append, ℕ, zero, suc, ◌+◌, String, List, [], ◌∷◌, ◌≡◌, refl, inl,
  inr, ◌^^◌, In, All, ◌∙◌, ap,
}
use bindplane_operator.Crd.{NatsComponentSpec, Bindplane, CertManagerTlsIssuerRef}
use bindplane_operator.GoRuntime.{QuantityOps}
use bindplane_operator.ConfigEnv.{plain}
use bindplane_operator.EnvVars.{prepend_extra_env, combine_env_vars}
use bindplane_operator.Parts.{get_kubernetes_env_vars, get_nats_cluster_service_name}
use bindplane_operator.ConfigEnv.Nats.{
  get_nats_env_vars, get_nats_cluster_routes, get_nats_client_env_vars, get_nats_client_endpoint,
  nats_client_host, nats_peer_host, nats_routes, rounds,
}
use bindplane_operator.ConfigEnv.Services.{
  enabled_remote, get_tsdb_env_vars, get_transform_agent_env_vars,
}
use bindplane_operator.Workloads.Built.{nats_stateful_set_given}
use bindplane_operator.Workloads.{operator_template, with_env}
use bindplane_operator.Kube.Objects.{StatefulSet}
use bindplane_operator.Images.{get_resource_name}
use bindplane_operator.Certificates.{
  nats_peer_names, nats_replicas_or_one, nats_certificate, tsdb_server_certificate,
  transform_agent_certificate,
}

-- A route to a host of the list.
abbrev pub RouteIn : List String → String → Type 0
RouteIn names route = (host : String) × (route ≡ "nats://" ^^ host ^^ ":6222") × In host names

RouteIn-All :
    (names more : List String)
    → ((host : String) → In host names → In host more)
    → (routes : List String) → All (RouteIn names) routes
    → All (RouteIn more) routes
RouteIn-All names more f [] h = tt
RouteIn-All names more f (r ∷ rs) ((host, e, i), h) =
    ((host, e, f host i), RouteIn-All names more f rs h)

routes-RouteIn :
    (b : Bindplane) (headless : String) (n i : ℕ)
    → All (RouteIn (nats_peer_names b headless n i)) (nats_routes b headless n i)
unfolding nats_routes nats_peer_names
routes-RouteIn b headless zero i = tt
routes-RouteIn b headless (suc n) i = (
  (nats_peer_host b headless i, refl, inl refl),
  RouteIn-All (nats_peer_names b headless n (i + 1)) (nats_peer_names b headless (suc n) i)
      (λ host h. inr (inr h)) (nats_routes b headless n (i + 1))
      (routes-RouteIn b headless n (i + 1)),
)

-- The routes in the environment of the NATS container, which natsStatefulSet builds for its replicas.
routes-In :
    (b : Bindplane) (n : NatsComponentSpec) (r : ℤ) (common : List EnvVar)
    → In
        (plain "BINDPLANE_NATS_SERVER_CLUSTER_ROUTES"
          (join "," (nats_routes b (get_nats_cluster_service_name b) (rounds r) 0)))
        (nats_container b n r common).env
unfolding nats_container prepend_extra_env combine_env_vars get_nats_env_vars
    get_nats_cluster_routes
routes-In b n r common =
    let own = get_nats_env_vars b (get_nats_cluster_service_name b) r in
    let tail = combine_env_vars (common ∷ []) in
    let field_vars = get_kubernetes_env_vars "server" in
    In-append _ (get_nats_extra_env b) (field_vars ++ (own ++ tail)) (
      inr (
        In-append _ field_vars (own ++ tail) (
          inr (
            In-append _ own tail
              (inl (inr (inr (inr (inr (inr (inr (inr (inr (inr (inr (inr (inl refl)))))))))))))))))

-- The template is what the user's template makes of a single container, whose environment has the
-- cluster routes, each to a host of the list.
abbrev pub RoutedIn :
    QuantityOps → Codecs → Bindplane → (names : List String) → PodTemplateSpec → Type 0
RoutedIn q codecs b names template =
    (o : PodTemplateSpec) × (template
      ≡ merge_pod_template_spec q codecs o (get_nats_pod_template b))
    × (c : Container) × (o.spec.containers ≡ c ∷ [])
    × (routes : List String) × In (plain "BINDPLANE_NATS_SERVER_CLUSTER_ROUTES" (join "," routes))
        c.env
    × All (RouteIn names) routes

nats_template-RoutedIn :
    (q : QuantityOps) (codecs : Codecs) (b : Bindplane) (i : CertManagerTlsIssuerRef)
    (n : NatsComponentSpec) (r : ℤ) (common : List EnvVar)
    → b.spec.nats ≡ some n
    → n.replicas ≡ some r
    → RoutedIn q codecs b
        (nats_certificate b i).spec.dns_names
        (nats_template q codecs b n r common)
unfolding nats_certificate nats_replicas_or_one nats_template operator_template
nats_template-RoutedIn q codecs b i n r common has_nats has_replicas =
    let headless = get_nats_cluster_service_name b in
    let k = rounds r in
    (
      _,
      refl,
      nats_container b n r common,
      refl,
      nats_routes b headless k 0,
      routes-In b n r common,
      RouteIn-All (nats_peer_names b headless k 0) (nats_certificate b i).spec.dns_names
          (λ host h. inr (inr (inr (inr (inr (inr (inr (rw has_nats (rw has_replicas h)))))))))
          (nats_routes b headless k 0) (routes-RouteIn b headless k 0),
    )

nats_client-In :
    (b : Bindplane) (i : CertManagerTlsIssuerRef)
    → (host : String) × In
        (plain "BINDPLANE_NATS_CLIENT_ENDPOINT" ("nats://" ^^ host ^^ ":4222"))
        (get_nats_client_env_vars b)
      × In host (nats_certificate b i).spec.dns_names
unfolding nats_certificate nats_client_host get_nats_client_env_vars get_nats_client_endpoint
nats_client-In b i = (nats_client_host b, inr (inr (inl refl)), inl refl)

-- Whatever the issuer, where the replicas of NATS are given and the shared environment is computed:
-- natsStatefulSet builds a set of that many replicas; its template is what the user's template makes
-- of a container whose cluster routes all lead to names of the NATS certificate; and the host in the
-- endpoint that the clients are told is one of these names too.
pub nats_certificate-names :
    (q : QuantityOps) (codecs : Codecs) (b : Bindplane) (i : CertManagerTlsIssuerRef)
    (n : NatsComponentSpec) (r : ℤ) (common : List EnvVar)
    → b.spec.nats ≡ some n
    → n.replicas ≡ some r
    → get_bindplane_common_env_vars b ≡ some common
    → ((set : StatefulSet) × (nats_stateful_set q codecs b ≡ some set)
        × (set.spec.replicas ≡ some r)
        × RoutedIn q codecs b (nats_certificate b i).spec.dns_names set.spec.template)
      × ((host : String) × In
            (plain "BINDPLANE_NATS_CLIENT_ENDPOINT" ("nats://" ^^ host ^^ ":4222"))
            (get_nats_client_env_vars b)
          × In host (nats_certificate b i).spec.dns_names)
unfolding nats_stateful_set_for nats_stateful_set_of
nats_certificate-names q codecs b i n r common has_nats has_replicas computed = (
  (
    nats_stateful_set_of q codecs b n r common,
    nats_stateful_set_given q codecs b n r has_nats has_replicas
        ∙ ap (λ o. with_env o (nats_stateful_set_of q codecs b n r)) computed,
    refl,
    nats_template-RoutedIn q codecs b i n r common has_nats has_replicas,
  ),
  nats_client-In b i,
)

module _ (b : Bindplane) where
  abbrev tsdb_host : String
  tsdb_host = get_resource_name b "tsdb" ^^ "." ^^ b.meta.namespace ^^ ".svc"

  tsdb_host-In-shared :
      enabled_remote b ≡ none
      → (health : List EnvVar)
      → In (plain "BINDPLANE_PROMETHEUS_HOST" tsdb_host) (shared_env_vars b health)
  unfolding shared_env_vars combine_env_vars get_tsdb_env_vars
  tsdb_host-In-shared remote health =
      In-append _ (get_bindplane_config_env_vars b) _
        (inr (In-append _ (get_tsdb_env_vars b) _ (inl (rw remote (inr (inl refl))))))

  agents-In-shared :
      (health : List EnvVar)
      → In
          (plain "BINDPLANE_TRANSFORM_AGENT_REMOTE_AGENTS"
            (get_resource_name b "transform-agent" ^^ ":4568"))
          (shared_env_vars b health)
  unfolding shared_env_vars combine_env_vars get_transform_agent_env_vars
  agents-In-shared health = In-append _ (get_bindplane_config_env_vars b) _ (
      inr (
        In-append _ (get_tsdb_env_vars b) _
          (inr (In-append _ (get_transform_agent_env_vars b) _ (inl (inr (inl refl)))))))

-- Whatever the issuers, where the shared environment is computed: if no remote TSDB is enabled, the
-- host that takes effect in it for the TSDB is a name of the TSDB's certificate; and the host that
-- takes effect in it for the Transform Agent is a name of the Transform Agent's.
pub server_certificates-names :
    (b : Bindplane) (i j : CertManagerTlsIssuerRef) (vars : List EnvVar)
    → enabled_remote b ≡ none
    → get_bindplane_common_env_vars b ≡ some vars
    → ((host : String) × (effective "BINDPLANE_PROMETHEUS_HOST" vars
          ≡ some (plain "BINDPLANE_PROMETHEUS_HOST" host))
        × In host (tsdb_server_certificate b i).spec.dns_names)
      × ((host : String) × (effective "BINDPLANE_TRANSFORM_AGENT_REMOTE_AGENTS" vars
            ≡ some (plain "BINDPLANE_TRANSFORM_AGENT_REMOTE_AGENTS" (host ^^ ":4568")))
          × In host (transform_agent_certificate b j).spec.dns_names)
unfolding tsdb_server_certificate transform_agent_certificate
server_certificates-names b i j vars remote e = (
  (
    tsdb_host b,
    effective_of_shared b vars (plain "BINDPLANE_PROMETHEUS_HOST" (tsdb_host b)) e
        (tsdb_host-In-shared b remote),
    inr (inl refl),
  ),
  (
    get_resource_name b "transform-agent",
    effective_of_shared b vars
        (plain "BINDPLANE_TRANSFORM_AGENT_REMOTE_AGENTS"
          (get_resource_name b "transform-agent" ^^ ":4568"))
        e (agents-In-shared b),
    inl refl,
  ),
)
