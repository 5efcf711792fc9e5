-- ===== src/TlsVolumes.antt =====
-- internal/controller/bindplane_controller.go: the Secret volumes of the TLS configuration.
pub mod Paths
pub mod Internal
use bindplane_operator.Prelude.{
  Bool, true, false, ◌||◌, String, List, [], ◌∷◌, Option, none, some, ◌==◌, if◌then◌else◌,
}
use bindplane_operator.Kube.{Volume, VolumeSource, VolumeMount, SecretVolumeSource, null}
use bindplane_operator.Crd.{
  Bindplane, LdapConfig, LdapTlsConfig, AuthConfig, NetworkConfig, NetworkTlsConfig, PostgresConfig,
  PostgresTlsConfig,
}

-- A volume of a Secret, and its mount at a path.
abbrev pub secret_volume : (name secret_name : String) → Volume
secret_volume name secret_name = record {
  name = name;
  source = record {
    host_path = none;
    secret = some (record { secret_name = secret_name; items = []; other = null });
    config_map = none;
    projected = none;
    csi = none;
    empty_dir = none;
    downward_api = none;
    other = null;
  };
}

abbrev pub read_only_mount : (name path : String) → VolumeMount
read_only_mount name path = record {
  name = name;
  mount_path = path;
  read_only = true;
  other = null;
}

abbrev pub volume_and_mount : (name path secret_name : String) → List Volume × List VolumeMount
volume_and_mount name path secret_name =
    (secret_volume name secret_name ∷ [], read_only_mount name path ∷ [])

abbrev pub no_volume : List Volume × List VolumeMount
no_volume = ([], [])

-- getLDAPTLSConfig
unfoldable pub get_ldap_tls_config : Bindplane → Option LdapTlsConfig
get_ldap_tls_config b = elim b.spec.config.auth [
  | none ↦ none
  | some a ↦ elim a.ldap [ none ↦ none | some l ↦ l.tls ]
]

unfoldable pub ldap_tls_volume : Option LdapTlsConfig → List Volume × List VolumeMount
ldap_tls_volume none = no_volume
ldap_tls_volume (some t) =
    if t.secret_name == ""
    then no_volume
    else volume_and_mount "ldap-tls" "/etc/bindplane/ldap-tls" t.secret_name

-- getLDAPTLSVolumeAndMount
unfoldable pub get_ldap_tls_volume_and_mount : Bindplane → List Volume × List VolumeMount
unfolding get_ldap_tls_config ldap_tls_volume
get_ldap_tls_volume_and_mount b = ldap_tls_volume (get_ldap_tls_config b)

-- getNetworkTLSConfig
unfoldable pub get_network_tls_config : Bindplane → Option NetworkTlsConfig
get_network_tls_config b = elim b.spec.config.network [ none ↦ none | some n ↦ n.tls ]

unfoldable pub network_tls_volume : Option NetworkTlsConfig → List Volume × List VolumeMount
network_tls_volume none = no_volume
network_tls_volume (some t) =
    if t.secret_name == "" || t.cert_key == "" || t.key_key == ""
    then no_volume
    else volume_and_mount "network-tls" "/etc/bindplane/network-tls" t.secret_name

-- getNetworkTLSVolumeAndMount
unfoldable pub get_network_tls_volume_and_mount : Bindplane → List Volume × List VolumeMount
unfolding get_network_tls_config network_tls_volume
get_network_tls_volume_and_mount b = network_tls_volume (get_network_tls_config b)

-- getPostgresTLSConfig
unfoldable pub get_postgres_tls_config : Bindplane → Option PostgresTlsConfig
get_postgres_tls_config b = elim b.spec.config.store.postgres [ none ↦ none | some p ↦ p.tls ]

unfoldable pub postgres_tls_volume : Option PostgresTlsConfig → List Volume × List VolumeMount
postgres_tls_volume none = no_volume
postgres_tls_volume (some t) =
    if t.secret_name == "" || t.ca_key == ""
    then no_volume
    else volume_and_mount "postgres-tls" "/etc/bindplane/postgres-tls" t.secret_name

-- getPostgresTLSVolumeAndMount
unfoldable pub get_postgres_tls_volume_and_mount : Bindplane → List Volume × List VolumeMount
unfolding get_postgres_tls_config postgres_tls_volume
get_postgres_tls_volume_and_mount b = postgres_tls_volume (get_postgres_tls_config b)
