-- ===== src/Examples/Merging.antt =====
-- Pod templates that are merged.
use bindplane_operator.Merge.Paths.{below, IsSilent, HasDistinctKeys, at_path, at_path-merge_maps}
use bindplane_operator.EnvVars.Effective.{first_some}
use bindplane_operator.Merge.{
  get, merge_spec_via_json, merge_maps, merge_containers, merge_volumes, merge_pod_template_spec,
  protected_label_keys,
}
use bindplane_operator.Merge.Labels.{keys, lookup-merge_pod_template_spec}
use bindplane_operator.Merge.Template.{
  IsBlank, KeepsOperator, merge_pod_template_spec-KeepsOperator, merge_pod_template_spec_of_blank,
}
use bindplane_operator.Merge.Tables.{last_named, first_named, volume_names}
use bindplane_operator.Merge.Volumes.{first_named-merge_volumes, merge_volumes-names}
use bindplane_operator.Prelude.{
  [], ◌∷◌, none, some, ◌≡◌, refl, pos, String, List, inr, lookup, map, if◌then◌else◌, member, ◌++◌,
  Distinct,
}
use bindplane_operator.Kube.{PodTemplateSpec, Volume, null, num, obj, field, end, Fields}
use bindplane_operator.Merge.Containers.{container_names, merged_with, merge_containers-eq-map}
use bindplane_operator.Examples.{empty_codecs, quantities, container, data_volume}

abbrev operator_volume : Volume
operator_volume = record data_volume { name = "tls" }

abbrev operators : List Volume
operators = operator_volume ∷ []

abbrev users : List Volume
users = data_volume ∷ []

volume_example :
    first_named "data" (merge_volumes operators users)
    ≡ first_some (last_named "data" users) (first_named "data" operators)
unfolding volume_names
volume_example = first_named-merge_volumes "data" operators users ((λ i. i), tt)

volume_names_example :
    Distinct (volume_names (merge_volumes operators users))
    × ((rest : List String) × (volume_names (merge_volumes operators users)
          ≡ volume_names operators ++ rest))
unfolding volume_names
volume_names_example = merge_volumes-names operators users ((λ i. i), tt)

containers_example :
    merge_containers empty_codecs.container (container ∷ []) (container ∷ [])
    ≡ map (merged_with empty_codecs.container (container ∷ [])) (container ∷ [])
unfolding container_names
containers_example =
    merge_containers-eq-map empty_codecs.container (container ∷ []) (container ∷ []) ((λ i. i), tt)

abbrev managed_template : PodTemplateSpec
managed_template = record {
  labels = ("app.kubernetes.io/name", "bindplane") ∷ [];
  annotations = [];
  spec = record {
    containers = container ∷ [];
    volumes = operators;
    service_account_name = "bp";
    termination_grace_period_seconds = some (pos 60);
    affinity = none;
    other = null;
  };
}

abbrev user_template : PodTemplateSpec
user_template = record managed_template {
  labels = ("app.kubernetes.io/name", "mine") ∷ [];
  spec = record managed_template.spec { volumes = users; service_account_name = "mine" };
}

abbrev blank_template : PodTemplateSpec
blank_template = record managed_template {
  labels = [];
  spec = record managed_template.spec { containers = []; volumes = [] };
}

kept_example :
    KeepsOperator quantities managed_template.spec
      (merge_pod_template_spec quantities empty_codecs managed_template (some user_template)).spec
unfolding container_names merge_spec_via_json merge_maps
kept_example =
    merge_pod_template_spec-KeepsOperator quantities empty_codecs managed_template
      (some user_template) ((λ i. i), tt) ((tt, tt), tt) refl

labels_example :
    (lookup "app.kubernetes.io/name"
        (merge_pod_template_spec quantities empty_codecs managed_template
          (some user_template)).labels
      ≡ (if member "app.kubernetes.io/name" protected_label_keys
          then lookup "app.kubernetes.io/name" managed_template.labels
          else first_some
              (lookup "app.kubernetes.io/name" user_template.labels)
              (lookup "app.kubernetes.io/name" managed_template.labels)))
    × (lookup "app.kubernetes.io/name"
          (merge_pod_template_spec quantities empty_codecs managed_template
            (some user_template)).annotations
        ≡ first_some
            (lookup "app.kubernetes.io/name" user_template.annotations)
            (lookup "app.kubernetes.io/name" managed_template.annotations))
unfolding keys
labels_example =
    lookup-merge_pod_template_spec quantities empty_codecs managed_template user_template
      "app.kubernetes.io/name" ((λ i. i), tt) tt

blank_example :
    merge_pod_template_spec quantities empty_codecs managed_template (some blank_template)
    ≡ merge_pod_template_spec quantities empty_codecs managed_template none
unfolding IsBlank
blank_example =
    merge_pod_template_spec_of_blank quantities empty_codecs managed_template blank_template end end
      refl refl refl tt refl refl refl refl

-- The pod's user, of an operator's and of a user's security context.
abbrev operator_context : Fields
operator_context = field "securityContext" (obj (field "runAsUser" (num (pos 65532)) end)) end

abbrev user_context : Fields
user_context = field "securityContext" (obj (field "fsGroup" (num (pos 7)) end)) end

path_example :
    at_path ("securityContext" ∷ "runAsUser" ∷ []) (merge_maps operator_context user_context)
    ≡ some (num (pos 65532))
unfolding HasDistinctKeys IsSilent below get
path_example =
    at_path-merge_maps ("securityContext" ∷ "runAsUser" ∷ []) operator_context user_context
      (num (pos 65532)) (refl, (refl, tt, tt), tt) (inr (tt, refl))
