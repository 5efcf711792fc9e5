-- ===== src/Validation/Volumes.antt =====
-- internal/validation/validate.go: ValidateExtraVolumes, validateExtraVolumeSource and
-- validateAllExtraVolumes. A set of names is the list of the names put in it.
pub mod Accepts
use bindplane_operator.Prelude.{
  ℕ, suc, Bool, true, false, not, ◌&&◌, ◌||◌, String, List, [], ◌∷◌, Option, none, some, member,
  has_prefix, is_some, length, codes, ltb, ◌^^◌, ◌==◌,
}
use bindplane_operator.Kube.{Volume, VolumeSource, VolumeMount}
use bindplane_operator.Crd.{Bindplane}
use bindplane_operator.Validation.Name.{bytes}
use bindplane_operator.Validation.Patterns.{is_dns1123_label}
use bindplane_operator.Validation.Errors.{
  Error, volume_name, volume_duplicate, volume_reserved, volume_host_path, volume_source,
  mount_relative, mount_duplicate, mount_reserved, mount_unknown, ◌>>◌, fail_if, on,
}

-- reservedVolumeNames
abbrev pub reserved_volume_names : List String
reserved_volume_names =
    "ldap-tls" ∷ "network-tls" ∷ "postgres-tls" ∷ "tsdb-remote-write-tls" ∷ "nats-tls"
    ∷ "transform-agent-tls" ∷ "tsdb-web-config" ∷ "tsdb-tls" ∷ "tsdb-web-server-tls"
    ∷ "tsdb-probe-client-tls" ∷ "tsdb-probe-auth" ∷ []

-- reservedMountPaths
abbrev pub reserved_mount_paths : List String
reserved_mount_paths =
    "/etc/bindplane/ldap-tls" ∷ "/etc/bindplane/network-tls" ∷ "/etc/bindplane/postgres-tls"
    ∷ "/etc/bindplane/tsdb-remote-write-tls" ∷ "/etc/bindplane/nats-tls"
    ∷ "/etc/bindplane/transform-agent-tls" ∷ "/etc/prometheus" ∷ "/etc/tsdb-tls"
    ∷ "/etc/tsdb-web-tls" ∷ "/etc/tsdb-probe-client" ∷ "/etc/tsdb-probe-auth" ∷ "/prometheus" ∷ []

-- validateExtraVolumeSource
unfoldable pub validate_extra_volume_source : String → ℕ → VolumeSource → Option Error
validate_extra_volume_source path i vs = do
  fail_if (is_some vs.host_path) (volume_host_path path i)
  fail_if
      (not (
        is_some vs.secret
        || is_some vs.config_map
        || is_some vs.projected
        || is_some vs.csi
        || is_some vs.empty_dir
        || is_some vs.downward_api))
      (volume_source path i)

-- One round of the loop over the volumes, with the names seen so far.
unfoldable pub check_volume : String → List String → List String → ℕ → Volume → Option Error
unfolding validate_extra_volume_source
check_volume path additional seen i vol = do
  fail_if (not (is_dns1123_label vol.name) || ltb 63 (length (bytes (codes vol.name))))
      (volume_name path i vol.name)
  fail_if (member vol.name seen) (volume_duplicate path i vol.name)
  fail_if (member vol.name reserved_volume_names) (volume_reserved path i vol.name)
  fail_if (member vol.name additional) (volume_reserved path i vol.name)
  validate_extra_volume_source path i vol.source

unfoldable pub check_volumes : String → List String → List String → ℕ → List Volume → Option Error
check_volumes path additional seen i [] = none
check_volumes path additional seen i (vol ∷ vols) =
    check_volume path additional seen i vol
    >> check_volumes path additional (vol.name ∷ seen) (suc i) vols

unfoldable pub volume_names : List Volume → List String
volume_names [] = []
volume_names (v ∷ vs) = v.name ∷ volume_names vs

-- One round of the loop over the mounts, with the paths seen so far.
unfoldable pub check_mount : String → List String → List String → ℕ → VolumeMount → Option Error
check_mount path names seen i m = do
  fail_if (not (has_prefix m.mount_path "/")) (mount_relative path i m.mount_path)
  fail_if (member m.mount_path seen) (mount_duplicate path i m.mount_path)
  fail_if (member m.mount_path reserved_mount_paths) (mount_reserved path i m.mount_path)
  fail_if (not (member m.name names)) (mount_unknown path i m.name)

unfoldable pub check_mounts :
    String → List String → List String → ℕ → List VolumeMount → Option Error
check_mounts path names seen i [] = none
check_mounts path names seen i (m ∷ ms) =
    check_mount path names seen i m >> check_mounts path names (m.mount_path ∷ seen) (suc i) ms

-- ValidateExtraVolumes; no additional names is the nil map.
unfoldable pub validate_extra_volumes :
    String → List Volume → List VolumeMount → List String → Option Error
validate_extra_volumes path volumes mounts additional =
    check_volumes (path ^^ ".extraVolumes") additional [] 0 volumes
    >> check_mounts (path ^^ ".extraVolumeMounts") (volume_names volumes) [] 0 mounts

-- validateAllExtraVolumes
unfoldable pub validate_all_extra_volumes : Bindplane → Option Error
validate_all_extra_volumes b = do
  validate_extra_volumes "spec.bindplane" spec.bindplane.extra_volumes
      spec.bindplane.extra_volume_mounts []
  on spec.bindplane_jobs
      λ c. validate_extra_volumes "spec.bindplaneJobs" c.extra_volumes c.extra_volume_mounts []
  on spec.bindplane_jobs_migrate λ c.
      validate_extra_volumes "spec.bindplaneJobsMigrate" c.extra_volumes c.extra_volume_mounts []
  on spec.transform_agent
      λ c. validate_extra_volumes "spec.transformAgent" c.extra_volumes c.extra_volume_mounts []
  on spec.tsdb λ c.
      validate_extra_volumes "spec.tsdb" c.extra_volumes c.extra_volume_mounts
        ((meta.name ^^ "-" ^^ "tsdb-data") ∷ [])
  on spec.nats λ c. validate_extra_volumes "spec.nats" c.extra_volumes c.extra_volume_mounts []
  on spec.opamp λ c. validate_extra_volumes "spec.opamp" c.extra_volumes c.extra_volume_mounts []
  where
    open b use {spec, meta}
