-- ===== src/Validation/Config.antt =====
-- internal/validation/validate.go: the checks on spec.config. The configuration is never nil where
-- the code calls them, and time.ParseDuration, in nanoseconds, is a parameter.
pub mod Accepts
pub mod Durations
use bindplane_operator.Crd.{
  AgentVersionsConfig, MetricsConfig, MetricsOtlpKeepAliveConfig, PostgresConfig, TracingConfig,
  TracingOtlpConfig, BindplaneConfigSpec, AuthConfig, LdapConfig, OidcConfig, MetricsOtlpConfig,
}
use bindplane_operator.Prelude.{
  ℕ, suc, ℤ, pos, ltb_ℤ, leb_ℤ, Bool, true, false, not, ◌&&◌, ◌||◌, String, List, [], ◌∷◌, Option,
  none, some, is_some, ◌==◌, if◌then◌else◌,
}
use bindplane_operator.Kube.{SecretKeySelector}
use bindplane_operator.Validation.Patterns.{is_uuid}
use bindplane_operator.Validation.Errors.{
  Error, license_not_one, status_key, missing, not_duration, not_positive, not_one_hour, ◌>>◌,
  fail_if, on,
}

-- `value != "" || ref != nil`
abbrev pub given : String → Option SecretKeySelector → Bool
given value ref = not (value == "") || is_some ref

-- ValidateLicenseConfig; the test is `hasLicense == hasLicenseSecretRef`.
unfoldable pub validate_license_config : BindplaneConfigSpec → Option Error
validate_license_config c =
    fail_if
      (if not (c.license == "")
        then is_some c.license_secret_ref
        else not (is_some c.license_secret_ref))
      license_not_one

unfoldable pub check_keys : ℕ → List String → Option Error
check_keys i [] = none
check_keys i (key ∷ keys) =
    fail_if (not (is_uuid key)) (status_key i key) >> check_keys (suc i) keys

-- ValidateStatusConfig
unfoldable pub validate_status_config : BindplaneConfigSpec → Option Error
validate_status_config c = on c.status λ s. check_keys 0 s.keys

-- validateLDAPConfig
unfoldable pub validate_ldap_config : LdapConfig → Option Error
validate_ldap_config l = do
  fail_if (l.server == "") (missing "spec.config.auth.ldap.server")
  fail_if (l.base_dn == "") (missing "spec.config.auth.ldap.baseDN")
  fail_if (not (given l.bind_user l.bind_user_secret_ref))
      (missing "spec.config.auth.ldap.bindUser")
  fail_if (not (given l.bind_password l.bind_password_secret_ref))
      (missing "spec.config.auth.ldap.bindPassword")

-- validateOIDCConfig
unfoldable pub validate_oidc_config : OidcConfig → Option Error
validate_oidc_config o = do
  fail_if (o.issuer == "") (missing "spec.config.auth.oidc.issuer")
  fail_if (not (given o.client_id o.client_id_secret_ref))
      (missing "spec.config.auth.oidc.clientID")
  fail_if (not (given o.client_secret o.client_secret_secret_ref))
      (missing "spec.config.auth.oidc.clientSecret")

abbrev require {ℓ} : {A : Type ℓ} → Option A → String → (A → Option Error) → Option Error
require none path check = some (missing path)
require (some a) path check = check a

-- The three cases of the switch of ValidateAuthConfig.
unfoldable pub check_ldap : Option LdapConfig → Option Error
check_ldap ldap = require ldap "spec.config.auth.ldap" validate_ldap_config

unfoldable pub check_oidc : Option OidcConfig → Option Error
check_oidc oidc = require oidc "spec.config.auth.oidc" validate_oidc_config

unfoldable pub check_credentials : AuthConfig → Option Error
check_credentials a = do
  fail_if (not (given a.username a.username_secret_ref)) (missing "spec.config.auth.username")
  fail_if (not (given a.password a.password_secret_ref)) (missing "spec.config.auth.password")

-- The switch.
unfoldable pub validate_auth : AuthConfig → Option Error
validate_auth a =
    if a.type == "ldap" || a.type == "active-directory"
    then check_ldap a.ldap
    else if a.type == "oidc"
    then check_oidc a.oidc
    else if a.type == "system"
    then check_credentials a
    else none

-- ValidateAuthConfig
unfoldable pub validate_auth_config : BindplaneConfigSpec → Option Error
unfolding validate_auth
validate_auth_config c = on c.auth validate_auth

unfoldable pub check_endpoint : Option TracingOtlpConfig → Option Error
check_endpoint otlp =
    require otlp "spec.config.tracing.otlp.endpoint"
      λ o. fail_if (o.endpoint == "") (missing "spec.config.tracing.otlp.endpoint")

unfoldable pub check_tracing : TracingConfig → Option Error
check_tracing t = if t.type == "otlp" then check_endpoint t.otlp else none

-- ValidateTracingConfig
unfoldable pub validate_tracing_config : BindplaneConfigSpec → Option Error
validate_tracing_config c = on c.tracing check_tracing

unfoldable pub check_postgres : Option PostgresConfig → Option Error
check_postgres postgres =
    require postgres "spec.config.store.postgres"
      λ p. fail_if (p.host == "") (missing "spec.config.store.postgres.host")

-- ValidatePostgresConfig
unfoldable pub validate_postgres_config : BindplaneConfigSpec → Option Error
validate_postgres_config c = check_postgres c.store.postgres

-- time.Hour
abbrev pub hour : ℤ
hour = pos 3600000000000

module _ (parse_duration : String → Option ℤ) where
  -- `d, err := time.ParseDuration(value)`, and the test on d.
  unfoldable pub check_duration :
      (String → String → Error) → (ℤ → Bool) → String → String → Option Error
  check_duration short bad path value = elim (parse_duration value) [
    | none ↦ some (not_duration path value)
    | some d ↦ fail_if (bad d) (short path value)
  ]

  -- validatePositiveDuration
  unfoldable pub validate_positive_duration : String → String → Option Error
  validate_positive_duration path value =
      if value == "" then none else check_duration not_positive (λ d. leb_ℤ d (pos 0)) path value

  unfoldable pub check_keep_alive : MetricsOtlpKeepAliveConfig → Option Error
  check_keep_alive k = do
    validate_positive_duration "spec.config.metrics.otlp.keepAlive.time" k.time
    validate_positive_duration "spec.config.metrics.otlp.keepAlive.timeout" k.timeout

  -- The part of ValidateMetricsConfig for the type "otlp".
  unfoldable pub check_metrics_otlp : Option MetricsOtlpConfig → Option Error
  check_metrics_otlp otlp = require otlp "spec.config.metrics.otlp.endpoint" λ o. do
    fail_if (o.endpoint == "") (missing "spec.config.metrics.otlp.endpoint")
    on o.keep_alive check_keep_alive

  unfoldable pub check_metrics : MetricsConfig → Option Error
  check_metrics m = if m.type == "otlp" then check_metrics_otlp m.otlp else none

  -- ValidateMetricsConfig
  unfoldable pub validate_metrics_config : BindplaneConfigSpec → Option Error
  validate_metrics_config c = on c.metrics check_metrics

  unfoldable pub check_agent_versions : AgentVersionsConfig → Option Error
  check_agent_versions v =
      if v.sync_interval == ""
      then none
      else check_duration not_one_hour (λ d. ltb_ℤ d hour) "spec.config.agentVersions.syncInterval"
          v.sync_interval

  -- ValidateAgentVersionsConfig
  unfoldable pub validate_agent_versions_config : BindplaneConfigSpec → Option Error
  validate_agent_versions_config c = on c.agent_versions check_agent_versions
