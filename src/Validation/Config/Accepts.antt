-- ===== src/Validation/Config/Accepts.antt =====
-- Which configurations are accepted.

use bindplane_operator.Prelude.{
  ℕ, suc, ◌≡◌, ◌≢◌, sym, ◌∙◌, text_cases, ◌↔◌, ◌⊎◌, inl, inr, String, List, [], ◌∷◌, Option, none,
  some, All, eq_iff, arith, codes,
}
use bindplane_operator.Kube.{SecretKeySelector}
use bindplane_operator.Crd.{
  BindplaneConfigSpec, AuthConfig, LdapConfig, OidcConfig, TracingConfig, TracingOtlpConfig,
  PostgresConfig, StatusConfig,
}
use bindplane_operator.Validation.Errors.{on, on-eq-none_iff, Given, Present}
use bindplane_operator.Validation.Patterns.Uuids.{Fits, uuid_places, is_uuid_iff}
use bindplane_operator.Validation.Config.{
  validate_license_config, check_keys, validate_status_config, validate_ldap_config,
  validate_oidc_config, check_ldap, check_oidc, check_credentials, validate_auth,
  validate_auth_config, check_endpoint, check_tracing, validate_tracing_config, check_postgres,
  validate_postgres_config,
}

-- A value that is written out or taken from a Secret.
abbrev pub IsGiven : String → Option SecretKeySelector → Type 0
IsGiven value ref = (value ≢ "") ⊎ (ref ≢ none)

-- Exactly one source of the license.
pub validate_license_config-eq-none_iff :
    (c : BindplaneConfigSpec)
    → (validate_license_config c ≡ none) ↔ (
        ((c.license ≢ "") × (c.license_secret_ref ≡ none))
        ⊎ ((c.license ≡ "") × (c.license_secret_ref ≢ none)))
unfolding validate_license_config
validate_license_config-eq-none_iff c = ground (arith, eq_iff c.license "")

check_keys-eq-none_iff :
    (i : ℕ) (keys : List String)
    → (check_keys i keys ≡ none) ↔ All (λ k. Fits uuid_places (codes k)) keys
unfolding check_keys
check_keys-eq-none_iff i [] = ground arith
check_keys-eq-none_iff i (k ∷ keys) =
    ground (arith, check_keys-eq-none_iff (suc i) keys, is_uuid_iff k)

abbrev pub HasStatusKeys : BindplaneConfigSpec → Type 0
HasStatusKeys c = Given (λ s. All (λ k. Fits uuid_places (codes k)) s.keys) c.status

pub validate_status_config-eq-none_iff :
    (c : BindplaneConfigSpec) → (validate_status_config c ≡ none) ↔ HasStatusKeys c
unfolding validate_status_config
validate_status_config-eq-none_iff c = status c.status
  where
    status :
        (s : Option StatusConfig)
        → (on s (λ t. check_keys 0 t.keys) ≡ none)
          ↔ Given (λ t. All (λ k. Fits uuid_places (codes k)) t.keys) s
    status none = ground arith
    status (some s) = check_keys-eq-none_iff 0 s.keys

abbrev pub IsLdap : LdapConfig → Type 0
IsLdap l =
    (l.server ≢ "")
    × (l.base_dn ≢ "")
    × IsGiven l.bind_user l.bind_user_secret_ref
    × IsGiven l.bind_password l.bind_password_secret_ref

abbrev pub IsOidc : OidcConfig → Type 0
IsOidc o =
    (o.issuer ≢ "")
    × IsGiven o.client_id o.client_id_secret_ref
    × IsGiven o.client_secret o.client_secret_secret_ref

IsLdap-eq-none_iff : (l : LdapConfig) → (validate_ldap_config l ≡ none) ↔ IsLdap l
unfolding validate_ldap_config
IsLdap-eq-none_iff l = ground (
  arith,
  eq_iff l.server "",
  eq_iff l.base_dn "",
  eq_iff l.bind_user "",
  eq_iff l.bind_password "",
)

IsOidc-eq-none_iff : (o : OidcConfig) → (validate_oidc_config o ≡ none) ↔ IsOidc o
unfolding validate_oidc_config
IsOidc-eq-none_iff o =
    ground (arith, eq_iff o.issuer "", eq_iff o.client_id "", eq_iff o.client_secret "")

pub record IsAuth (a : AuthConfig) : Type 0 where
  pub ldap : (a.type ≡ "ldap") ⊎ (a.type ≡ "active-directory") → Present IsLdap a.ldap
  pub oidc : a.type ≡ "oidc" → Present IsOidc a.oidc
  pub system :
      a.type ≡ "system"
      → IsGiven a.username a.username_secret_ref × IsGiven a.password a.password_secret_ref

check_ldap-eq-none_iff : (ldap : Option LdapConfig) → (check_ldap ldap ≡ none) ↔ Present IsLdap ldap
unfolding check_ldap
check_ldap-eq-none_iff none = ground arith
check_ldap-eq-none_iff (some l) = IsLdap-eq-none_iff l

check_oidc-eq-none_iff : (oidc : Option OidcConfig) → (check_oidc oidc ≡ none) ↔ Present IsOidc oidc
unfolding check_oidc
check_oidc-eq-none_iff none = ground arith
check_oidc-eq-none_iff (some o) = IsOidc-eq-none_iff o

check_credentials-eq-none_iff :
    (a : AuthConfig)
    → (check_credentials a ≡ none)
      ↔ (IsGiven a.username a.username_secret_ref × IsGiven a.password a.password_secret_ref)
unfolding check_credentials
check_credentials-eq-none_iff a = ground (arith, eq_iff a.username "", eq_iff a.password "")

-- The switch goes by the type alone.
module _ (a : AuthConfig) where
  of_ldap : (a.type ≡ "ldap") ⊎ (a.type ≡ "active-directory") → validate_auth a ≡ check_ldap a.ldap
  unfolding validate_auth
  of_ldap h = ground (arith, eq_iff a.type "ldap", eq_iff a.type "active-directory")

  of_oidc : a.type ≡ "oidc" → validate_auth a ≡ check_oidc a.oidc
  unfolding validate_auth
  of_oidc h = rw h

  of_system : a.type ≡ "system" → validate_auth a ≡ check_credentials a
  unfolding validate_auth
  of_system h = rw h

  of_other :
      a.type ≢ "ldap"
      → a.type ≢ "active-directory"
      → a.type ≢ "oidc"
      → a.type ≢ "system"
      → validate_auth a ≡ none
  unfolding validate_auth
  of_other l d o s = ground (
    arith,
    eq_iff a.type "ldap",
    eq_iff a.type "active-directory",
    eq_iff a.type "oidc",
    eq_iff a.type "system",
  )

  IsAuth-sound : validate_auth a ≡ none → IsAuth a
  IsAuth-sound h = record {
    ldap = λ t. (check_ldap-eq-none_iff a.ldap).0 (sym (of_ldap t) ∙ h);
    oidc = λ t. (check_oidc-eq-none_iff a.oidc).0 (sym (of_oidc t) ∙ h);
    system = λ t. (check_credentials-eq-none_iff a).0 (sym (of_system t) ∙ h);
  }

  auth_complete : IsAuth a → validate_auth a ≡ none
  auth_complete v = elim (text_cases a.type "ldap") [
    | inl l ↦ of_ldap (inl l) ∙ (check_ldap-eq-none_iff a.ldap).1 (v.ldap (inl l))
    | inr l ↦ elim (text_cases a.type "active-directory") [
      | inl d ↦ of_ldap (inr d) ∙ (check_ldap-eq-none_iff a.ldap).1 (v.ldap (inr d))
      | inr d ↦ elim (text_cases a.type "oidc") [
        | inl o ↦ of_oidc o ∙ (check_oidc-eq-none_iff a.oidc).1 (v.oidc o)
        | inr o ↦ elim (text_cases a.type "system") [
          | inl s ↦ of_system s ∙ (check_credentials-eq-none_iff a).1 (v.system s)
          | inr s ↦ of_other l d o s
        ]
      ]
    ]
  ]

pub validate_auth_config-eq-none_iff :
    (c : BindplaneConfigSpec) → (validate_auth_config c ≡ none) ↔ Given IsAuth c.auth
unfolding validate_auth_config
validate_auth_config-eq-none_iff c =
    on-eq-none_iff validate_auth IsAuth (λ a. (IsAuth-sound a, auth_complete a)) c.auth

-- Tracing by OTLP names an endpoint.
abbrev pub IsTracing : TracingConfig → Type 0
IsTracing t = t.type ≡ "otlp" → Present (λ o. o.endpoint ≢ "") t.otlp

check_endpoint-eq-none_iff :
    (otlp : Option TracingOtlpConfig)
    → (check_endpoint otlp ≡ none) ↔ Present (λ o. o.endpoint ≢ "") otlp
unfolding check_endpoint
check_endpoint-eq-none_iff none = ground arith
check_endpoint-eq-none_iff (some o) = ground (arith, eq_iff o.endpoint "")

check_tracing-eq-none_iff : (t : TracingConfig) → (check_tracing t ≡ none) ↔ IsTracing t
unfolding check_tracing
check_tracing-eq-none_iff t =
    let (to, from) = check_endpoint-eq-none_iff t.otlp in
    elim (text_cases t.type "otlp") [
      | inl e ↦ (λ h _. to (rw e at h), λ h. rw e (from (h e)))
      | inr n ↦ (λ h e. absurd (n e), λ h. ground (arith, eq_iff t.type "otlp"))
    ]

pub validate_tracing_config-eq-none_iff :
    (c : BindplaneConfigSpec) → (validate_tracing_config c ≡ none) ↔ Given IsTracing c.tracing
unfolding validate_tracing_config
validate_tracing_config-eq-none_iff c =
    on-eq-none_iff check_tracing IsTracing check_tracing-eq-none_iff c.tracing

pub validate_postgres_config-eq-none_iff :
    (c : BindplaneConfigSpec)
    → (validate_postgres_config c ≡ none) ↔ Present (λ p. p.host ≢ "") c.store.postgres
unfolding validate_postgres_config
validate_postgres_config-eq-none_iff c = postgres c.store.postgres
  where
    postgres :
        (o : Option PostgresConfig) → (check_postgres o ≡ none) ↔ Present (λ p. p.host ≢ "") o
    postgres none = unfold check_postgres in ground arith
    postgres (some p) = unfold check_postgres in ground (arith, eq_iff p.host "")
