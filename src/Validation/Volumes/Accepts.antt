-- ===== src/Validation/Volumes/Accepts.antt =====
-- Which extra volumes and mounts are accepted.
use bindplane_operator.Prelude.{
  ℕ, suc, ◌≤◌, ◌≡◌, ◌≢◌, ◌↔◌, ◌⊎◌, true, String, List, [], ◌∷◌, none, All, In, member_iff, Distinct,
  has_prefix, codes, length, ◌^^◌, arith,
}
use bindplane_operator.Kube.{Volume, VolumeSource, VolumeMount}
use bindplane_operator.Validation.Errors.{>>-eq-none_iff}
use bindplane_operator.Validation.Name.{bytes}
use bindplane_operator.Validation.Patterns.{is_dns1123_label}
use bindplane_operator.Validation.Volumes.{
  reserved_volume_names, reserved_mount_paths, validate_extra_volume_source, check_volume,
  check_volumes, volume_names, check_mount, check_mounts, validate_extra_volumes,
}

-- A volume of one of the allowed sources, and none of the host's.
abbrev pub IsAllowedSource : VolumeSource → Type 0
IsAllowedSource s =
    (s.host_path ≡ none)
    × ((s.secret ≢ none)
        ⊎ (s.config_map ≢ none)
        ⊎ (s.projected ≢ none)
        ⊎ (s.csi ≢ none)
        ⊎ (s.empty_dir ≢ none)
        ⊎ (s.downward_api ≢ none))

pub record IsAllowedVolume (additional : List String) (v : Volume) : Type 0 where
  pub label : is_dns1123_label v.name ≡ true
  pub short : length (bytes (codes v.name)) ≤ 63
  pub not_reserved : ¬ In v.name reserved_volume_names
  pub not_additional : ¬ In v.name additional
  pub source : IsAllowedSource v.source

pub record IsAllowedMount (names : List String) (m : VolumeMount) : Type 0 where
  pub absolute : has_prefix m.mount_path "/" ≡ true
  pub not_reserved : ¬ In m.mount_path reserved_mount_paths
  pub known : In m.name names

abbrev pub mount_paths : List VolumeMount → List String
mount_paths [] = []
mount_paths (m ∷ ms) = m.mount_path ∷ mount_paths ms

source-eq-none_iff :
    (path : String) (i : ℕ) (s : VolumeSource)
    → (validate_extra_volume_source path i s ≡ none) ↔ IsAllowedSource s
unfolding validate_extra_volume_source
source-eq-none_iff path i s = ground arith

check_volume-eq-none_iff :
    (path : String) (additional seen : List String) (i : ℕ) (v : Volume)
    → (check_volume path additional seen i v ≡ none)
      ↔ (IsAllowedVolume additional v × ¬ In v.name seen)
unfolding check_volume
check_volume-eq-none_iff path additional seen i v = ground (
  arith,
  source-eq-none_iff path i v.source,
  member_iff v.name seen,
  member_iff v.name reserved_volume_names,
  member_iff v.name additional,
)

-- No name of the list is among the names seen before.
abbrev Unseen : List String → List String → Type 0
Unseen seen ns = All (λ n. ¬ In n seen) ns

Unseen-cons :
    (n : String) (seen ns : List String) → Unseen (n ∷ seen) ns ↔ (Unseen seen ns × ¬ In n ns)
Unseen-cons n seen [] = ground arith
Unseen-cons n seen (m ∷ ns) = ground (arith, Unseen-cons n seen ns)

check_volumes-eq-none_iff :
    (path : String) (additional seen : List String) (i : ℕ) (vols : List Volume)
    → (check_volumes path additional seen i vols ≡ none) ↔ (
        All (IsAllowedVolume additional) vols
        × Distinct (volume_names vols)
        × Unseen seen (volume_names vols))
unfolding check_volumes volume_names
check_volumes-eq-none_iff path additional seen i [] = ground arith
check_volumes-eq-none_iff path additional seen i (v ∷ vs) = ground (
  arith,
  check_volume-eq-none_iff path additional seen i v,
  check_volumes-eq-none_iff path additional (v.name ∷ seen) (suc i) vs,
  Unseen-cons v.name seen (volume_names vs),
  >>-eq-none_iff (check_volume path additional seen i v)
      (check_volumes path additional (v.name ∷ seen) (suc i) vs),
)

check_mount-eq-none_iff :
    (path : String) (names seen : List String) (i : ℕ) (m : VolumeMount)
    → (check_mount path names seen i m ≡ none) ↔ (IsAllowedMount names m × ¬ In m.mount_path seen)
unfolding check_mount
check_mount-eq-none_iff path names seen i m = ground (
  arith,
  member_iff m.mount_path seen,
  member_iff m.mount_path reserved_mount_paths,
  member_iff m.name names,
)

check_mounts-eq-none_iff :
    (path : String) (names seen : List String) (i : ℕ) (ms : List VolumeMount)
    → (check_mounts path names seen i ms ≡ none)
      ↔ (All (IsAllowedMount names) ms × Distinct (mount_paths ms) × Unseen seen (mount_paths ms))
unfolding check_mounts
check_mounts-eq-none_iff path names seen i [] = ground arith
check_mounts-eq-none_iff path names seen i (m ∷ ms) = ground (
  arith,
  check_mount-eq-none_iff path names seen i m,
  check_mounts-eq-none_iff path names (m.mount_path ∷ seen) (suc i) ms,
  Unseen-cons m.mount_path seen (mount_paths ms),
  >>-eq-none_iff (check_mount path names seen i m)
      (check_mounts path names (m.mount_path ∷ seen) (suc i) ms),
)

Unseen-nil : (ns : List String) → Unseen [] ns
Unseen-nil [] = tt
Unseen-nil (n ∷ ns) = (λ h. h, Unseen-nil ns)

-- Extra volumes and mounts are accepted exactly when each volume has a DNS-1123 label of at most 63
-- bytes that is not reserved and an allowed source that is not the host's path, each mount has an
-- absolute path that is not reserved and names one of these volumes, and no volume name and no
-- mount path occurs twice.
pub validate_extra_volumes-eq-none_iff :
    (path : String) (vols : List Volume) (ms : List VolumeMount) (additional : List String)
    → (validate_extra_volumes path vols ms additional ≡ none) ↔ (
        All (IsAllowedVolume additional) vols
        × Distinct (volume_names vols)
        × All (IsAllowedMount (volume_names vols)) ms
        × Distinct (mount_paths ms))
unfolding validate_extra_volumes
validate_extra_volumes-eq-none_iff path vols ms additional = ground (
  arith,
  check_volumes-eq-none_iff (path ^^ ".extraVolumes") additional [] 0 vols,
  check_mounts-eq-none_iff (path ^^ ".extraVolumeMounts") (volume_names vols) [] 0 ms,
  Unseen-nil (volume_names vols),
  Unseen-nil (mount_paths ms),
  >>-eq-none_iff (check_volumes (path ^^ ".extraVolumes") additional [] 0 vols)
      (check_mounts (path ^^ ".extraVolumeMounts") (volume_names vols) [] 0 ms),
)
