-- ===== src/ConfigEnv/AuthNames.antt =====
-- The names of the variables of the authentication.
use bindplane_operator.Prelude.{String, List, [], ◌∷◌, ◌++◌, Option}
use bindplane_operator.Crd.{LdapConfig, OidcConfig, OidcCustomClaimsConfig, AuthConfig}
use bindplane_operator.ConfigEnv.Emits.{
  Emits, ◌then◌, unless_empty-Emits, path-Emits, when-Emits, secret_or_value-Emits, joined-Emits,
  each-Emits,
}
use bindplane_operator.ConfigEnv.Auth.{
  get_ldap_env_vars, get_oidc_env_vars, get_oidc_custom_claims_env_vars, get_auth_config_env_vars,
}

abbrev pub ldap_names : List String
ldap_names =
    "BINDPLANE_LDAP_PROTOCOL" ∷ "BINDPLANE_LDAP_SERVER" ∷ "BINDPLANE_LDAP_PORT"
    ∷ "BINDPLANE_LDAP_BASE_DN" ∷ "BINDPLANE_LDAP_BIND_USER" ∷ "BINDPLANE_LDAP_BIND_PASSWORD"
    ∷ "BINDPLANE_LDAP_SEARCH_FILTER" ∷ "BINDPLANE_LDAP_TLS_CERT" ∷ "BINDPLANE_LDAP_TLS_KEY"
    ∷ "BINDPLANE_LDAP_TLS_CA" ∷ "BINDPLANE_LDAP_TLS_SKIP_VERIFY" ∷ []

pub ldap-Emits : (o : Option LdapConfig) → Emits ldap_names (get_ldap_env_vars o)
unfolding get_ldap_env_vars
ldap-Emits = each-Emits ldap_names _ λ l.
    unless_empty-Emits _ l.protocol
    then unless_empty-Emits _ l.server
    then unless_empty-Emits _ l.port
    then unless_empty-Emits _ l.base_dn
    then secret_or_value-Emits _ l.bind_user l.bind_user_secret_ref
    then secret_or_value-Emits _ l.bind_password l.bind_password_secret_ref
    then unless_empty-Emits _ l.search_filter
    then each-Emits _ _
        (λ t. path-Emits _ _ t.cert_key then path-Emits _ _ t.key_key then path-Emits _ _ t.ca_key)
        l.tls
    then when-Emits l.tls_skip_verify _ "true"

abbrev pub claim_names : List String
claim_names =
    "BINDPLANE_OIDC_CUSTOM_CLAIMS_GROUPS" ∷ "BINDPLANE_OIDC_CUSTOM_CLAIMS_GROUP_IDS"
    ∷ "BINDPLANE_OIDC_CUSTOM_CLAIMS_ROLES" ∷ "BINDPLANE_OIDC_CUSTOM_CLAIMS_ORGANIZATION_ADMIN"
    ∷ "BINDPLANE_OIDC_CUSTOM_CLAIMS_PROJECTS" ∷ "BINDPLANE_OIDC_CUSTOM_CLAIMS_DEFAULT_ROLE"
    ∷ "BINDPLANE_OIDC_CUSTOM_CLAIMS_ORG_ADMIN_GROUP_NAME"
    ∷ "BINDPLANE_OIDC_CUSTOM_CLAIMS_PROJECTS_GROUP_PREFIX"
    ∷ "BINDPLANE_OIDC_CUSTOM_CLAIMS_ADMIN_GROUP_NAME"
    ∷ "BINDPLANE_OIDC_CUSTOM_CLAIMS_USER_GROUP_NAME"
    ∷ "BINDPLANE_OIDC_CUSTOM_CLAIMS_VIEWER_GROUP_NAME" ∷ []

claims_emit :
    (o : Option OidcCustomClaimsConfig) → Emits claim_names (get_oidc_custom_claims_env_vars o)
unfolding get_oidc_custom_claims_env_vars
claims_emit = each-Emits claim_names _ λ c.
    unless_empty-Emits _ c.groups
    then unless_empty-Emits _ c.group_ids
    then unless_empty-Emits _ c.roles
    then unless_empty-Emits _ c.organization_admin
    then unless_empty-Emits _ c.projects
    then unless_empty-Emits _ c.default_role
    then unless_empty-Emits _ c.org_admin_group_name
    then unless_empty-Emits _ c.projects_group_prefix
    then unless_empty-Emits _ c.admin_group_name
    then unless_empty-Emits _ c.user_group_name
    then unless_empty-Emits _ c.viewer_group_name

abbrev pub oidc_names : List String
oidc_names =
    "BINDPLANE_OIDC_OAUTH2_CLIENT_ID" ∷ "BINDPLANE_OIDC_OAUTH2_CLIENT_SECRET"
    ∷ "BINDPLANE_OIDC_ISSUER" ∷ "BINDPLANE_OIDC_SCOPES" ∷ "BINDPLANE_OIDC_DISABLE_INVITATIONS"
    ∷ claim_names

oidc-Emits : (o : Option OidcConfig) → Emits oidc_names (get_oidc_env_vars o)
unfolding get_oidc_env_vars
oidc-Emits = each-Emits oidc_names _ λ c.
    secret_or_value-Emits _ c.client_id c.client_id_secret_ref
    then secret_or_value-Emits _ c.client_secret c.client_secret_secret_ref
    then unless_empty-Emits _ c.issuer
    then joined-Emits _ c.scopes
    then when-Emits c.disable_invitations _ "true"
    then claims_emit c.custom_claims

abbrev pub auth_names : List String
auth_names =
    "BINDPLANE_AUTH_TYPE"
    ∷ "BINDPLANE_AUTH_SESSIONS_STRICT_MODE"
    ∷ "BINDPLANE_USERNAME"
    ∷ "BINDPLANE_PASSWORD"
    ∷ "BINDPLANE_SECRET_KEY"
    ∷ (ldap_names ++ oidc_names)

pub auth-Emits : (o : Option AuthConfig) → Emits auth_names (get_auth_config_env_vars o)
unfolding get_auth_config_env_vars
auth-Emits = each-Emits auth_names _ λ a.
    unless_empty-Emits _ a.type
    then when-Emits a.sessions_strict_mode _ "true"
    then secret_or_value-Emits _ a.username a.username_secret_ref
    then secret_or_value-Emits _ a.password a.password_secret_ref
    then secret_or_value-Emits _ a.api_key a.api_key_secret_ref
    then ldap-Emits a.ldap
    then oidc-Emits a.oidc
