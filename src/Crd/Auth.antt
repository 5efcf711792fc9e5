-- ===== src/Crd/Auth.antt =====
-- api/v1alpha1/bindplane_types.go: authentication: `auth` of the configuration, with LDAP and OIDC.
-- A pointer is an `Option`, an integer of any width a ℤ, and `zero_x` is the Go zero value of `X`.
use bindplane_operator.Prelude.{Bool, List, Option, String, [], false, none}
use bindplane_operator.Kube.{SecretKeySelector}

pub record LdapTlsConfig : Type 0 where
  pub secret_name : String
  pub cert_key : String
  pub key_key : String
  pub ca_key : String

abbrev pub zero_ldap_tls_config : LdapTlsConfig
zero_ldap_tls_config = record { secret_name = ""; cert_key = ""; key_key = ""; ca_key = "" }

pub record LdapConfig : Type 0 where
  pub protocol : String
  pub server : String
  pub port : String
  pub base_dn : String
  pub bind_user : String
  pub bind_user_secret_ref : Option SecretKeySelector
  pub bind_password : String
  pub bind_password_secret_ref : Option SecretKeySelector
  pub search_filter : String
  pub tls : Option LdapTlsConfig
  pub tls_skip_verify : Bool

abbrev pub zero_ldap_config : LdapConfig
zero_ldap_config = record {
  protocol = "";
  server = "";
  port = "";
  base_dn = "";
  bind_user = "";
  bind_user_secret_ref = none;
  bind_password = "";
  bind_password_secret_ref = none;
  search_filter = "";
  tls = none;
  tls_skip_verify = false;
}

pub record OidcCustomClaimsConfig : Type 0 where
  pub groups : String
  pub group_ids : String
  pub roles : String
  pub organization_admin : String
  pub projects : String
  pub default_role : String
  pub org_admin_group_name : String
  pub projects_group_prefix : String
  pub admin_group_name : String
  pub user_group_name : String
  pub viewer_group_name : String

abbrev pub zero_oidc_custom_claims_config : OidcCustomClaimsConfig
zero_oidc_custom_claims_config = record {
  groups = "";
  group_ids = "";
  roles = "";
  organization_admin = "";
  projects = "";
  default_role = "";
  org_admin_group_name = "";
  projects_group_prefix = "";
  admin_group_name = "";
  user_group_name = "";
  viewer_group_name = "";
}

pub record OidcConfig : Type 0 where
  pub client_id : String
  pub client_id_secret_ref : Option SecretKeySelector
  pub client_secret : String
  pub client_secret_secret_ref : Option SecretKeySelector
  pub issuer : String
  pub scopes : List String
  pub disable_invitations : Bool
  pub custom_claims : Option OidcCustomClaimsConfig

abbrev pub zero_oidc_config : OidcConfig
zero_oidc_config = record {
  client_id = "";
  client_id_secret_ref = none;
  client_secret = "";
  client_secret_secret_ref = none;
  issuer = "";
  scopes = [];
  disable_invitations = false;
  custom_claims = none;
}

pub record AuthConfig : Type 0 where
  pub type : String
  pub username : String
  pub username_secret_ref : Option SecretKeySelector
  pub password : String
  pub password_secret_ref : Option SecretKeySelector
  pub session_secret : String
  pub session_secret_secret_ref : Option SecretKeySelector
  pub api_key : String
  pub api_key_secret_ref : Option SecretKeySelector
  pub sessions_strict_mode : Bool
  pub ldap : Option LdapConfig
  pub oidc : Option OidcConfig

abbrev pub zero_auth_config : AuthConfig
zero_auth_config = record {
  type = "";
  username = "";
  username_secret_ref = none;
  password = "";
  password_secret_ref = none;
  session_secret = "";
  session_secret_secret_ref = none;
  api_key = "";
  api_key_secret_ref = none;
  sessions_strict_mode = false;
  ldap = none;
  oidc = none;
}
