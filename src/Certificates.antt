-- ===== src/Certificates.antt =====
-- internal/controller/cert_manager.go: the certificates of the internal TLS, from their toggles.
pub mod Hosts
use bindplane_operator.Prelude.{
  ℕ, zero, suc, ◌+◌, ℤ, pos, Bool, true, false, not, ◌&&◌, String, List, [], ◌∷◌, ◌++◌, Option,
  none, some, ◌==◌, ◌^^◌, if◌then◌else◌, itoa, is_some,
}
use bindplane_operator.Kube.Objects.{Certificate, CertificateSpec, IssuerReference}
use bindplane_operator.Crd.{Bindplane, CertManagerTlsIssuerRef, TsdbTlsConfig}
use bindplane_operator.Images.{get_resource_name}
use bindplane_operator.Parts.{
  component_meta, get_nats_client_service_name, get_nats_cluster_service_name,
}
use bindplane_operator.ConfigEnv.Services.{has_issuer}
use bindplane_operator.ConfigEnv.Nats.{rounds, nats_peer_host}
use bindplane_operator.Api.{Api, Act, certificates, Key, both, done, fail, panic}
use bindplane_operator.Objects.{Semantic, component_key, delete_if_exists, reconcile_certificate}

-- deleteCertificateIfExists, of the certificate of a suffix.
unfoldable pub delete_certificate_if_exists : (api : Api) → Bindplane → String → Act api
unfolding delete_if_exists get_resource_name
delete_certificate_if_exists api b suffix =
    delete_if_exists api true (component_key api certificates b suffix)

-- A nested pointer: `p != nil && p.TLS != nil && p.TLS.CertManager != nil && ...Name != ""`, with
-- the reference where it holds.
abbrev pub issuer_of : Option CertManagerTlsIssuerRef → Option CertManagerTlsIssuerRef
issuer_of none = none
issuer_of (some i) = if i.name == "" then none else some i

abbrev pub tls_issuer : Option TsdbTlsConfig → Option CertManagerTlsIssuerRef
tls_issuer none = none
tls_issuer (some t) = issuer_of t.cert_manager

-- isTSDBServerCertManagerTLSEnabled
unfoldable pub tsdb_server_issuer : Bindplane → Option CertManagerTlsIssuerRef
tsdb_server_issuer b = elim b.spec.tsdb [ none ↦ none | some p ↦ tls_issuer p.tls ]

-- isTSDBClientCertManagerTLSEnabled
unfoldable pub tsdb_client_issuer : Bindplane → Option CertManagerTlsIssuerRef
tsdb_client_issuer b = elim b.spec.config.tsdb [ none ↦ none | some p ↦ tls_issuer p.tls ]

-- isNatsCertManagerTLSEnabled
unfoldable pub nats_issuer : Bindplane → Option CertManagerTlsIssuerRef
nats_issuer b = elim b.spec.config.nats [
  | none ↦ none
  | some n ↦ elim n.tls [ none ↦ none | some t ↦ issuer_of t.cert_manager ]
]

-- isTransformAgentCertManagerTLSEnabled
unfoldable pub transform_agent_issuer : Bindplane → Option CertManagerTlsIssuerRef
transform_agent_issuer b = elim b.spec.transform_agent [
  | none ↦ none
  | some a ↦ elim a.tls [ none ↦ none | some t ↦ issuer_of t.cert_manager ]
]

-- The test of validateTSDBComponentTLSConfig and of validateTSDBTLSConfig: true is an error.
unfoldable pub has_secret_and_issuer : Option TsdbTlsConfig → Bool
has_secret_and_issuer none = false
has_secret_and_issuer (some t) = not (t.secret_name == "") && is_some (issuer_of t.cert_manager)

-- validateTSDBComponentTLSConfig
unfoldable pub validate_tsdb_component_tls_config : Bindplane → Bool
unfolding has_secret_and_issuer
validate_tsdb_component_tls_config b = elim b.spec.tsdb [
  | none ↦ true
  | some p ↦ not (has_secret_and_issuer p.tls)
]

-- validateTSDBTLSConfig
unfoldable pub validate_tsdb_tls_config : Bindplane → Bool
unfolding has_secret_and_issuer
validate_tsdb_tls_config b = elim b.spec.config.tsdb [
  | none ↦ true
  | some p ↦ not (has_secret_and_issuer p.tls)
]

-- validateNatsTLSConfig
unfoldable pub validate_nats_tls_config : Bindplane → Bool
validate_nats_tls_config b = elim b.spec.config.nats [
  | none ↦ true
  | some n ↦ elim n.tls [ none ↦ true | some t ↦ is_some (issuer_of t.cert_manager) ]
]

-- validateTransformAgentTLSConfig
unfoldable pub validate_transform_agent_tls_config : Bindplane → Bool
validate_transform_agent_tls_config b = elim b.spec.transform_agent [
  | none ↦ true
  | some a ↦ elim a.tls [ none ↦ true | some t ↦ is_some (issuer_of t.cert_manager) ]
]

-- issuerRefToCM
unfoldable pub issuer_ref_to_cm : CertManagerTlsIssuerRef → IssuerReference
issuer_ref_to_cm i = record {
  name = i.name;
  kind = if i.kind == "" then "Issuer" else i.kind;
  group = if i.group == "" then "cert-manager.io" else i.group;
}

-- getTSDBServerCertDNSNames
unfoldable pub get_tsdb_server_cert_dns_names : Bindplane → List String
unfolding get_resource_name
get_tsdb_server_cert_dns_names b =
    let name = get_resource_name b "tsdb" in
    let ns = b.meta.namespace in
    (name ^^ "." ^^ ns ^^ ".svc.cluster.local")
    ∷ (name ^^ "." ^^ ns ^^ ".svc")
    ∷ (name ^^ "-0." ^^ name ^^ "." ^^ ns ^^ ".svc.cluster.local")
    ∷ "localhost"
    ∷ []

-- getTransformAgentServerCertDNSNames
unfoldable pub get_transform_agent_server_cert_dns_names : Bindplane → List String
unfolding get_resource_name
get_transform_agent_server_cert_dns_names b =
    let name = get_resource_name b "transform-agent" in
    let ns = b.meta.namespace in
    name
    ∷ (name ^^ "." ^^ ns)
    ∷ (name ^^ "." ^^ ns ^^ ".svc")
    ∷ (name ^^ "." ^^ ns ^^ ".svc.cluster.local")
    ∷ "localhost"
    ∷ []

-- getNatsServerCertDNSNames: the names of the replicas, from the first.
unfoldable pub nats_peer_names : Bindplane → (headless : String) → ℕ → ℕ → List String
unfolding nats_peer_host
nats_peer_names b headless zero i = []
nats_peer_names b headless (suc n) i =
    nats_peer_host b headless i
    ∷ (nats_peer_host b headless i ^^ ".svc.cluster.local")
    ∷ nats_peer_names b headless n (i + 1)

-- The replicas that the names are made for.
unfoldable pub nats_replicas_or_one : Bindplane → ℤ
nats_replicas_or_one b = elim b.spec.nats [
  | none ↦ pos 1
  | some n ↦ elim n.replicas [ none ↦ pos 1 | some r ↦ r ]
]

unfoldable pub get_nats_server_cert_dns_names : Bindplane → List String
unfolding nats_peer_names nats_replicas_or_one get_nats_client_service_name
    get_nats_cluster_service_name
get_nats_server_cert_dns_names b =
    let client = get_nats_client_service_name b in
    let headless = get_nats_cluster_service_name b in
    let ns = b.meta.namespace in
    (client ^^ "." ^^ ns)
    ∷ (client ^^ "." ^^ ns ^^ ".svc.cluster.local")
    ∷ (client ^^ "." ^^ ns ^^ ".svc")
    ∷ (headless ^^ "." ^^ ns)
    ∷ (headless ^^ "." ^^ ns ^^ ".svc.cluster.local")
    ∷ (headless ^^ "." ^^ ns ^^ ".svc")
    ∷ "localhost"
    ∷ nats_peer_names b headless (rounds (nats_replicas_or_one b)) 0

-- buildCertificate: a common name makes it a client's certificate.
abbrev pub usages_of : Option String → List String
usages_of none = "digital signature" ∷ "key encipherment" ∷ "server auth" ∷ []
usages_of (some name) = "digital signature" ∷ "key encipherment" ∷ "client auth" ∷ []

abbrev pub text_or_empty : Option String → String
text_or_empty none = ""
text_or_empty (some s) = s

unfoldable pub build_certificate :
    Bindplane
    → (name : String) → IssuerReference
    → (dns_names ip_addresses : List String) → (common_name : Option String) → Certificate
unfolding component_meta
build_certificate b name issuer dns_names ip_addresses common_name = record {
  meta = component_meta b name name;
  spec = record {
    secret_name = name;
    issuer_ref = issuer;
    dns_names = dns_names;
    ip_addresses = ip_addresses;
    common_name = text_or_empty common_name;
    key_algorithm = "RSA";
    key_size = pos 2048;
    usages = usages_of common_name;
  };
}

abbrev pub both_usages : List String
both_usages = "digital signature" ∷ "key encipherment" ∷ "server auth" ∷ "client auth" ∷ []

-- A certificate for both ends of a connection.
unfoldable pub peer_certificate :
    Bindplane
    → (name : String) → IssuerReference
    → (dns_names ip_addresses : List String) → Certificate
unfolding component_meta
peer_certificate b name issuer dns_names ip_addresses = record {
  meta = component_meta b name name;
  spec = record {
    secret_name = name;
    issuer_ref = issuer;
    dns_names = dns_names;
    ip_addresses = ip_addresses;
    common_name = "";
    key_algorithm = "RSA";
    key_size = pos 2048;
    usages = both_usages;
  };
}

-- buildNatsCertificate
unfoldable pub build_nats_certificate :
    Bindplane → (name : String) → IssuerReference → (dns_names : List String) → Certificate
unfolding peer_certificate
build_nats_certificate b name issuer dns_names =
    peer_certificate b name issuer dns_names ("127.0.0.1" ∷ "::1" ∷ [])

-- buildTransformAgentCertificate
unfoldable pub build_transform_agent_certificate :
    Bindplane → (name : String) → IssuerReference → (dns_names : List String) → Certificate
unfolding peer_certificate
build_transform_agent_certificate b name issuer dns_names =
    peer_certificate b name issuer dns_names []

module _ (b : Bindplane) (i : CertManagerTlsIssuerRef) where
  unfoldable pub tsdb_server_certificate : Certificate
  unfolding build_certificate get_tsdb_server_cert_dns_names issuer_ref_to_cm get_resource_name
  tsdb_server_certificate =
      build_certificate b (get_resource_name b "tsdb-remote-write-server") (issuer_ref_to_cm i)
        (get_tsdb_server_cert_dns_names b) ("127.0.0.1" ∷ []) none

  unfoldable pub tsdb_probe_client_certificate : Certificate
  unfolding build_certificate issuer_ref_to_cm get_resource_name
  tsdb_probe_client_certificate =
      build_certificate b (get_resource_name b "tsdb-probe-client") (issuer_ref_to_cm i) [] []
        (some "tsdb-probe")

  unfoldable pub tsdb_client_certificate : Certificate
  unfolding build_certificate issuer_ref_to_cm get_resource_name
  tsdb_client_certificate =
      build_certificate b (get_resource_name b "tsdb-remote-write-client") (issuer_ref_to_cm i) []
        [] (some "bindplane-tsdb-remote-write-client")

  unfoldable pub nats_certificate : Certificate
  unfolding build_nats_certificate get_nats_server_cert_dns_names issuer_ref_to_cm get_resource_name
  nats_certificate =
      build_nats_certificate b (get_resource_name b "nats-tls") (issuer_ref_to_cm i)
        (get_nats_server_cert_dns_names b)

  unfoldable pub transform_agent_certificate : Certificate
  unfolding build_transform_agent_certificate get_transform_agent_server_cert_dns_names
      issuer_ref_to_cm get_resource_name
  transform_agent_certificate =
      build_transform_agent_certificate b (get_resource_name b "transform-agent-tls")
        (issuer_ref_to_cm i) (get_transform_agent_server_cert_dns_names b)

module _ (api : Api) (eq : Semantic) where
  abbrev pub guarded : Bool → Act api → Act api
  guarded true m = m
  guarded false m = fail api

  -- One toggle of reconcileInternalTLSCertificates: the certificates of an issuer, or their removal.
  abbrev pub toggled :
      Option CertManagerTlsIssuerRef → (CertManagerTlsIssuerRef → Act api) → Act api → Act api
  toggled none on off = off
  toggled (some i) on off = on i

  -- reconcileInternalTLSCertificates
  unfoldable pub reconcile_internal_tls_certificates : Bindplane → Act api
  unfolding tsdb_server_issuer tsdb_client_issuer nats_issuer transform_agent_issuer
      validate_tsdb_component_tls_config validate_tsdb_tls_config validate_nats_tls_config
      validate_transform_agent_tls_config tsdb_server_certificate tsdb_probe_client_certificate
      tsdb_client_certificate nats_certificate transform_agent_certificate reconcile_certificate
      delete_certificate_if_exists
  reconcile_internal_tls_certificates b =
      both api
        (toggled (tsdb_server_issuer b)
          (λ i. guarded (validate_tsdb_component_tls_config b) (
            both api (reconcile_certificate api eq (tsdb_server_certificate b i))
              (reconcile_certificate api eq (tsdb_probe_client_certificate b i))))
          (both api (delete_certificate_if_exists api b "tsdb-remote-write-server")
            (delete_certificate_if_exists api b "tsdb-probe-client")))
        (both api
          (toggled (tsdb_client_issuer b)
            (λ i.
              guarded (validate_tsdb_tls_config b)
                (reconcile_certificate api eq (tsdb_client_certificate b i)))
            (delete_certificate_if_exists api b "tsdb-remote-write-client"))
          (both api
            (toggled (nats_issuer b)
              (λ i.
                guarded (validate_nats_tls_config b)
                  (reconcile_certificate api eq (nats_certificate b i)))
              (delete_certificate_if_exists api b "nats-tls"))
            (toggled (transform_agent_issuer b)
              (λ i.
                guarded (validate_transform_agent_tls_config b)
                  (reconcile_certificate api eq (transform_agent_certificate b i)))
              (delete_certificate_if_exists api b "transform-agent-tls"))))
