-- ===== src/ConfigEnv/Auth.antt =====
-- internal/controller/config_env.go: the variables of spec.config.auth, with LDAP and OIDC.
use bindplane_operator.Prelude.{
  ◌==◌, if◌then◌else◌, String, List, [], ◌∷◌, ◌++◌, Option, to_list, join, ◌^^◌,
}
use bindplane_operator.Kube.{EnvVar}
use bindplane_operator.Crd.{LdapConfig, OidcConfig, OidcCustomClaimsConfig, AuthConfig}
use bindplane_operator.ConfigEnv.{plain, secret_or_value, unless_empty, when, each}

abbrev pub ldap_tls_mount_path : String
ldap_tls_mount_path = "/etc/bindplane/ldap-tls"

-- A path under a mount, where the key is given.
abbrev pub path_unless_empty : (name mount key : String) → List EnvVar
path_unless_empty name mount key = if key == "" then [] else plain name (mount ^^ "/" ^^ key) ∷ []

-- getLDAPEnvVars
unfoldable pub get_ldap_env_vars : Option LdapConfig → List EnvVar
unfolding secret_or_value
get_ldap_env_vars ldap = each ldap λ l.
    unless_empty "BINDPLANE_LDAP_PROTOCOL" l.protocol
    ++ (unless_empty "BINDPLANE_LDAP_SERVER" l.server
        ++ (unless_empty "BINDPLANE_LDAP_PORT" l.port
            ++ (unless_empty "BINDPLANE_LDAP_BASE_DN" l.base_dn
                ++ (to_list (
                      secret_or_value "BINDPLANE_LDAP_BIND_USER" l.bind_user l.bind_user_secret_ref)
                    ++ (to_list (
                          secret_or_value "BINDPLANE_LDAP_BIND_PASSWORD" l.bind_password
                            l.bind_password_secret_ref)
                        ++ (unless_empty "BINDPLANE_LDAP_SEARCH_FILTER" l.search_filter
                            ++ (each l.tls (λ t.
                                  path_unless_empty "BINDPLANE_LDAP_TLS_CERT" ldap_tls_mount_path
                                    t.cert_key
                                  ++ (path_unless_empty "BINDPLANE_LDAP_TLS_KEY" ldap_tls_mount_path
                                        t.key_key
                                      ++ path_unless_empty "BINDPLANE_LDAP_TLS_CA"
                                          ldap_tls_mount_path t.ca_key))
                                ++ when l.tls_skip_verify "BINDPLANE_LDAP_TLS_SKIP_VERIFY"
                                    "true")))))))

-- getOIDCCustomClaimsEnvVars
unfoldable pub get_oidc_custom_claims_env_vars : Option OidcCustomClaimsConfig → List EnvVar
get_oidc_custom_claims_env_vars claims = each claims λ c.
    unless_empty "BINDPLANE_OIDC_CUSTOM_CLAIMS_GROUPS" c.groups
    ++ (unless_empty "BINDPLANE_OIDC_CUSTOM_CLAIMS_GROUP_IDS" c.group_ids
        ++ (unless_empty "BINDPLANE_OIDC_CUSTOM_CLAIMS_ROLES" c.roles
            ++ (unless_empty "BINDPLANE_OIDC_CUSTOM_CLAIMS_ORGANIZATION_ADMIN" c.organization_admin
                ++ (unless_empty "BINDPLANE_OIDC_CUSTOM_CLAIMS_PROJECTS" c.projects
                    ++ (unless_empty "BINDPLANE_OIDC_CUSTOM_CLAIMS_DEFAULT_ROLE" c.default_role
                        ++ (unless_empty "BINDPLANE_OIDC_CUSTOM_CLAIMS_ORG_ADMIN_GROUP_NAME"
                              c.org_admin_group_name
                            ++ (unless_empty "BINDPLANE_OIDC_CUSTOM_CLAIMS_PROJECTS_GROUP_PREFIX"
                                  c.projects_group_prefix
                                ++ (unless_empty "BINDPLANE_OIDC_CUSTOM_CLAIMS_ADMIN_GROUP_NAME"
                                      c.admin_group_name
                                    ++ (unless_empty "BINDPLANE_OIDC_CUSTOM_CLAIMS_USER_GROUP_NAME"
                                          c.user_group_name
                                        ++ unless_empty
                                            "BINDPLANE_OIDC_CUSTOM_CLAIMS_VIEWER_GROUP_NAME"
                                            c.viewer_group_name)))))))))

-- A list of values in one variable, where there is one.
abbrev pub joined : String → List String → List EnvVar
joined name [] = []
joined name (s ∷ ss) = plain name (join "," (s ∷ ss)) ∷ []

-- getOIDCEnvVars
unfoldable pub get_oidc_env_vars : Option OidcConfig → List EnvVar
unfolding secret_or_value get_oidc_custom_claims_env_vars
get_oidc_env_vars oidc = each oidc λ o.
    to_list (secret_or_value "BINDPLANE_OIDC_OAUTH2_CLIENT_ID" o.client_id o.client_id_secret_ref)
    ++ (to_list (
          secret_or_value "BINDPLANE_OIDC_OAUTH2_CLIENT_SECRET" o.client_secret
            o.client_secret_secret_ref)
        ++ (unless_empty "BINDPLANE_OIDC_ISSUER" o.issuer
            ++ (joined "BINDPLANE_OIDC_SCOPES" o.scopes
                ++ (when o.disable_invitations "BINDPLANE_OIDC_DISABLE_INVITATIONS" "true"
                    ++ get_oidc_custom_claims_env_vars o.custom_claims))))

-- getAuthConfigEnvVars
unfoldable pub get_auth_config_env_vars : Option AuthConfig → List EnvVar
unfolding secret_or_value get_ldap_env_vars get_oidc_env_vars
get_auth_config_env_vars auth = each auth λ a.
    unless_empty "BINDPLANE_AUTH_TYPE" a.type
    ++ (when a.sessions_strict_mode "BINDPLANE_AUTH_SESSIONS_STRICT_MODE" "true"
        ++ (to_list (secret_or_value "BINDPLANE_USERNAME" a.username a.username_secret_ref)
            ++ (to_list (secret_or_value "BINDPLANE_PASSWORD" a.password a.password_secret_ref)
                ++ (to_list (secret_or_value "BINDPLANE_SECRET_KEY" a.api_key a.api_key_secret_ref)
                    ++ (get_ldap_env_vars a.ldap ++ get_oidc_env_vars a.oidc)))))
