-- ===== src/Merge.antt =====
-- internal/controller/bindplane_controller.go: a workload's pod template, merged with the one that
-- the resource gives for the component. encoding/json is a parameter.
pub mod Paths
pub mod Tables
pub mod Volumes
pub mod Containers
pub mod Labels
pub mod Template
use bindplane_operator.Prelude.{
  Bool, true, false, String, List, [], ◌∷◌, ◌++◌, Option, none, some, map, ◌==◌, if◌then◌else◌,
  lookup, insert, member, is_some,
}
use bindplane_operator.Kube.{
  Json, null, bool, num, str, arr, obj, Fields, end, field, Volume, VolumeSource, Container,
  PodSpec, PodTemplateSpec,
}
use bindplane_operator.GoRuntime.{QuantityOps, apply_go_runtime_env_vars}

-- `m[k]` and `m[k] = v` on a map of JSON values.
unfoldable pub get : String → Fields → Option Json
get k end = none
get k (field j v m) = if j == k then some v else get k m

unfoldable pub put : String → Json → Fields → Fields
put k v end = field k v end
put k v (field j w m) = if j == k then field k v m else field j w (put k v m)

-- mergeMaps: `merge_value` is what an entry becomes, from what stands there and from a value that
-- is not null.
unfoldable mutual
  unfolding get put

  pub merge_value : Option Json → Json → Json
  merge_value (some (obj f)) (obj g) = obj (merge_maps f g)
  merge_value o v = v

  pub merge_maps : Fields → Fields → Fields
  merge_maps a end = a
  merge_maps a (field k null b) = merge_maps a b
  merge_maps a (field k v b) = merge_maps (put k (merge_value (get k a) v) a) b

-- encoding/json on one Go type. `encode` writes a value and reads the text as a map of values;
-- `decode` writes such a map and reads the text into a value that stands, and on an error (false)
-- leaves it with what has been read until then.
pub record Codec (A : Type 0) : Type 0 where
  pub encode : A → Option Fields
  pub decode : Fields → A → Bool × A

pub record Codecs : Type 0 where
  pub pod_spec : Codec PodSpec
  pub container : Codec Container

-- mergeTemplateMetadata
unfoldable pub merge_labels :
    List String → List (String × String) → List (String × String) → List (String × String)
merge_labels protected_keys labels [] = labels
merge_labels protected_keys labels ((k, v) ∷ user) =
    merge_labels protected_keys (if member k protected_keys then labels else insert k v labels) user

unfoldable pub copy_all : List (String × String) → List (String × String) → List (String × String)
copy_all m [] = m
copy_all m ((k, v) ∷ user) = copy_all (insert k v m) user

unfoldable pub merge_template_metadata :
    PodTemplateSpec → PodTemplateSpec → List String → PodTemplateSpec
unfolding merge_labels copy_all
merge_template_metadata merged user protected_keys = record merged {
  labels = merge_labels protected_keys merged.labels user.labels;
  annotations = copy_all merged.annotations user.annotations;
}

-- mergeSpecViaJSON: whether it succeeds, and what it leaves in the destination.
unfoldable pub merge_spec_via_json : Codec PodSpec → PodSpec → PodSpec → Bool × PodSpec
merge_spec_via_json c dst user = elim (c.encode dst) [
  | none ↦ (false, dst)
  | some a ↦ elim (c.encode user) [ none ↦ (false, dst) | some b ↦ c.decode (merge_maps a b) dst ]
]

-- mergeSingleContainer
unfoldable pub decoded_or : Container → Bool × Container → Container
decoded_or c (true, m) = m
decoded_or c (false, m) = c

unfoldable pub merge_single_container : Codec Container → Container → Container → Container
unfolding decoded_or
merge_single_container c operator user =
    let merged : Container = elim (c.encode operator) [
      | none ↦ operator
      | some a ↦ elim (c.encode user) [
        | none ↦ operator
        | some b ↦ decoded_or operator (c.decode (merge_maps a b) operator)
      ]
    ] in
    record merged {
      name = operator.name;
      image = operator.image;
      ports = operator.ports;
      env = operator.env;
      command = operator.command;
      args = operator.args;
    }

-- mergeContainers: the map by name, the loop over the user's containers, and the result.
unfoldable pub container_map :
    List Container → List (String × Container) → List (String × Container)
container_map [] m = m
container_map (c ∷ cs) m = container_map cs (insert c.name c m)

unfoldable pub merge_user_container :
    Codec Container → List (String × Container) → Container → List (String × Container)
merge_user_container codec m u = elim (lookup u.name m) [
  | none ↦ m
  | some c ↦ insert u.name (merge_single_container codec c u) m
]

unfoldable pub merge_user_containers :
    Codec Container → List (String × Container) → List Container → List (String × Container)
merge_user_containers codec m [] = m
merge_user_containers codec m (u ∷ us) =
    merge_user_containers codec (merge_user_container codec m u) us

unfoldable pub updated_or : List (String × Container) → Container → Container
updated_or m c = elim (lookup c.name m) [ none ↦ c | some d ↦ d ]

unfoldable pub merge_containers : Codec Container → List Container → List Container → List Container
unfolding updated_or
merge_containers codec operators [] = operators
merge_containers codec operators (u ∷ us) =
    map (updated_or (merge_user_containers codec (container_map operators []) (u ∷ us))) operators

-- mergeVolumes: the map by name with the order of the names, first from the operator's volumes,
-- then from the user's. `volumeMap[name]` of a name that is absent is the zero Volume.
abbrev pub VolumeTable : Type 0
VolumeTable = List (String × Volume) × List String

unfoldable pub volume_table : List Volume → VolumeTable → VolumeTable
volume_table [] t = t
volume_table (v ∷ vs) (m, order) = volume_table vs (insert v.name v m, order ++ v.name ∷ [])

unfoldable pub add_volumes : List Volume → VolumeTable → VolumeTable
add_volumes [] t = t
add_volumes (v ∷ vs) (m, order) =
    add_volumes vs
      (insert v.name v m, if is_some (lookup v.name m) then order else order ++ v.name ∷ [])

abbrev pub zero_volume : Volume
zero_volume = record {
  name = "";
  source = record {
    host_path = none;
    secret = none;
    config_map = none;
    projected = none;
    csi = none;
    empty_dir = none;
    downward_api = none;
    other = null;
  };
}

unfoldable pub volume_of : List (String × Volume) → String → Volume
volume_of m name = elim (lookup name m) [ none ↦ zero_volume | some v ↦ v ]

unfoldable pub in_order : VolumeTable → List Volume
unfolding volume_of
in_order (m, order) = map (volume_of m) order

unfoldable pub merge_volumes : List Volume → List Volume → List Volume
unfolding in_order
merge_volumes operators [] = operators
merge_volumes operators (u ∷ us) = in_order (add_volumes (u ∷ us) (volume_table operators ([], [])))

-- mergePodTemplateSpec
abbrev pub protected_label_keys : List String
protected_label_keys =
    "app.kubernetes.io/name" ∷ "app.kubernetes.io/instance" ∷ "app.kubernetes.io/component" ∷ []

module _ (q : QuantityOps) (codecs : Codecs) where
  unfoldable with_go_runtime : PodSpec → PodSpec
  with_go_runtime s = record s { containers = map (apply_go_runtime_env_vars q) s.containers }

  -- The fields that the merge has overwritten are set back.
  unfoldable restore : PodSpec → PodSpec → PodSpec → PodSpec
  restore operator user merged = record merged {
    service_account_name = operator.service_account_name;
    termination_grace_period_seconds = operator.termination_grace_period_seconds;
    containers = merge_containers codecs.container operator.containers user.containers;
    volumes = merge_volumes operator.volumes user.volumes;
  }

  unfoldable after_merge : PodSpec → PodSpec → Bool × PodSpec → PodSpec
  unfolding restore with_go_runtime
  after_merge operator user (false, merged) = merged
  after_merge operator user (true, merged) = with_go_runtime (restore operator user merged)

  unfoldable pub merge_pod_template_spec :
      PodTemplateSpec → Option PodTemplateSpec → PodTemplateSpec
  unfolding after_merge with_go_runtime merge_template_metadata merge_spec_via_json
  merge_pod_template_spec operator none = record operator { spec = with_go_runtime operator.spec }
  merge_pod_template_spec operator (some user) =
      record (merge_template_metadata operator user protected_label_keys) {
        spec =
            after_merge operator.spec user.spec
              (merge_spec_via_json codecs.pod_spec operator.spec user.spec);
      }
