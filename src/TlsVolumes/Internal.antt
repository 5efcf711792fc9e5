-- ===== src/TlsVolumes/Internal.antt =====
-- internal/controller/bindplane_controller.go: the volumes of the internal TLS, and those of all TLS
-- configurations together.
use bindplane_operator.Prelude.{String, List, [], ◌∷◌, ◌++◌, Option, none, some, if◌then◌else◌}
use bindplane_operator.Kube.{Volume, VolumeMount, null}
use bindplane_operator.Crd.{Bindplane, TsdbTlsConfig}
use bindplane_operator.Images.{get_resource_name}
use bindplane_operator.ConfigEnv.{or_default}
use bindplane_operator.ConfigEnv.Services.{
  has_issuer, enabled_client_tls, is_transform_agent_cert_manager_tls_enabled,
}
use bindplane_operator.ConfigEnv.Nats.{enabled_nats_tls}
use bindplane_operator.TlsVolumes.{
  secret_volume, read_only_mount, volume_and_mount, no_volume, get_ldap_tls_volume_and_mount,
  get_network_tls_volume_and_mount, get_postgres_tls_volume_and_mount,
}

-- A volume of a user's Secret, whose keys are mounted under the names of cert-manager's.
abbrev pub renamed_keys_volume : (name : String) → TsdbTlsConfig → Volume
renamed_keys_volume name t = record (secret_volume name t.secret_name) {
  source = record {
    host_path = none;
    secret = some (record {
      secret_name = t.secret_name;
      items =
          (or_default t.cert_key "tls.crt", "tls.crt")
          ∷ (or_default t.key_key "tls.key", "tls.key")
          ∷ (or_default t.ca_key "ca.crt", "ca.crt")
          ∷ [];
      other = null;
    });
    config_map = none;
    projected = none;
    csi = none;
    empty_dir = none;
    downward_api = none;
    other = null;
  };
}

unfoldable pub client_tls_volume : Bindplane → TsdbTlsConfig → Volume
unfolding get_resource_name
client_tls_volume b t =
    if has_issuer t.cert_manager
    then secret_volume "tsdb-remote-write-tls" (get_resource_name b "tsdb-remote-write-client")
    else renamed_keys_volume "tsdb-remote-write-tls" t

unfoldable pub client_tls_volume_and_mount :
    Bindplane → Option TsdbTlsConfig → List Volume × List VolumeMount
unfolding client_tls_volume
client_tls_volume_and_mount b none = no_volume
client_tls_volume_and_mount b (some t) = (
  client_tls_volume b t ∷ [],
  read_only_mount "tsdb-remote-write-tls" "/etc/bindplane/tsdb-remote-write-tls" ∷ [],
)

-- getInternalTLSVolumesAndMounts
unfoldable pub get_internal_tls_volumes_and_mounts : Bindplane → List Volume × List VolumeMount
unfolding client_tls_volume_and_mount enabled_client_tls
get_internal_tls_volumes_and_mounts b = client_tls_volume_and_mount b (enabled_client_tls b)

-- getNatsTLSVolumesAndMounts
unfoldable pub get_nats_tls_volumes_and_mounts : Bindplane → List Volume × List VolumeMount
unfolding enabled_nats_tls get_resource_name
get_nats_tls_volumes_and_mounts b = elim (enabled_nats_tls b) [
  | none ↦ no_volume
  | some t ↦ volume_and_mount "nats-tls" "/etc/bindplane/nats-tls" (get_resource_name b "nats-tls")
]

-- getTransformAgentTLSVolumesAndMounts
unfoldable pub get_transform_agent_tls_volumes_and_mounts :
    Bindplane → List Volume × List VolumeMount
unfolding is_transform_agent_cert_manager_tls_enabled get_resource_name
get_transform_agent_tls_volumes_and_mounts b =
    if is_transform_agent_cert_manager_tls_enabled b
    then volume_and_mount "transform-agent-tls" "/etc/bindplane/transform-agent-tls"
        (get_resource_name b "transform-agent-tls")
    else no_volume

abbrev pub joined_volumes :
    List Volume × List VolumeMount → List Volume × List VolumeMount → List Volume × List VolumeMount
joined_volumes a b = (a.0 ++ b.0, a.1 ++ b.1)

-- getConfigTLSVolumesAndMounts
unfoldable pub get_config_tls_volumes_and_mounts : Bindplane → List Volume × List VolumeMount
unfolding get_ldap_tls_volume_and_mount get_network_tls_volume_and_mount
    get_postgres_tls_volume_and_mount get_internal_tls_volumes_and_mounts
    get_nats_tls_volumes_and_mounts get_transform_agent_tls_volumes_and_mounts
get_config_tls_volumes_and_mounts b = joined_volumes (get_ldap_tls_volume_and_mount b) (
    joined_volumes (get_network_tls_volume_and_mount b) (
      joined_volumes (get_postgres_tls_volume_and_mount b) (
        joined_volumes (get_internal_tls_volumes_and_mounts b) (
          joined_volumes (get_nats_tls_volumes_and_mounts b)
            (get_transform_agent_tls_volumes_and_mounts b)))))
