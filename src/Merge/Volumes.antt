-- ===== src/Merge/Volumes.antt =====
-- mergeVolumes: what stands under a name, and the order of the names.
use bindplane_operator.Prelude.{
  ap, ◌∙◌, sym, String, List, [], ◌∷◌, ◌++◌, none, ◌≡◌, refl, eq_iff, lookup, member, In, Distinct,
  arith,
}
use mathlib.Core.List.{append-nil}
use bindplane_operator.Kube.{Volume}
use bindplane_operator.EnvVars.Effective.{first_some}
use bindplane_operator.Merge.{VolumeTable, volume_table, add_volumes, in_order, merge_volumes}
use bindplane_operator.Merge.Tables.{
  volume_names, first_named, last_named, IsTidy, volume_table-IsTidy, add_volumes-IsTidy,
  lookup-volume_table, lookup-add_volumes, AreFilled, AreFilled-of_members, names-in_order,
  first_named-in_order, add_volumes-Distinct, add_volumes-extends, volume_table-order,
}

-- Where names are distinct, the first volume of a name is the last.
last_named_of_new :
    (n : String) (vs : List Volume) → ¬ In n (volume_names vs) → last_named n vs ≡ none
unfolding last_named volume_names
last_named_of_new n [] h = refl
last_named_of_new n (v ∷ vs) h =
    ground (arith, last_named_of_new n vs, eq_iff v.name n, eq_iff n v.name)

first_named-eq-last_named :
    (n : String) (vs : List Volume)
    → Distinct (volume_names vs)
    → first_named n vs ≡ last_named n vs
unfolding first_named last_named volume_names
first_named-eq-last_named n [] d = refl
first_named-eq-last_named n (v ∷ vs) d =
    ground (arith, first_named-eq-last_named n vs, last_named_of_new n vs, eq_iff v.name n)

-- The table that mergeVolumes ends with.
abbrev merged_table : List Volume → List Volume → VolumeTable
merged_table operators users = add_volumes users (volume_table operators ([], []))

operators-IsTidy : (operators : List Volume) → IsTidy (volume_table operators ([], []))
unfolding lookup member
operators-IsTidy operators = volume_table-IsTidy operators ([], []) (tt, λ n. refl)

merged_table-IsTidy : (operators users : List Volume) → IsTidy (merged_table operators users)
merged_table-IsTidy operators users =
    add_volumes-IsTidy users (volume_table operators ([], [])) (operators-IsTidy operators)

merged_table-AreFilled :
    (operators users : List Volume)
    → AreFilled (merged_table operators users).0 (merged_table operators users).1
merged_table-AreFilled operators users =
    AreFilled-of_members _ _ (λ k e. sym ((merged_table-IsTidy operators users).1 k) ∙ e)

merged_table-first_named :
    (n : String) (operators users : List Volume)
    → first_named n (in_order (merged_table operators users))
      ≡ first_some (last_named n users) (last_named n operators)
unfolding lookup
merged_table-first_named n operators users =
    let t = merged_table operators users in
    let (named, covers) = merged_table-IsTidy operators users in
    ground (
      arith,
      first_named-in_order t.0 named n t.1 (merged_table-AreFilled operators users),
      covers n,
      lookup-add_volumes n users (volume_table operators ([], [])),
      lookup-volume_table n operators ([], []),
    )

-- Where the operator's volumes have distinct names, a name stands in the merged volumes for the
-- last of the user's volumes of that name, else for the operator's, and otherwise for none.
pub first_named-merge_volumes :
    (n : String) (operators users : List Volume)
    → Distinct (volume_names operators)
    → first_named n (merge_volumes operators users)
      ≡ first_some (last_named n users) (first_named n operators)
unfolding merge_volumes last_named
first_named-merge_volumes n operators [] d = refl
first_named-merge_volumes n operators (u ∷ us) d =
    rw (first_named-eq-last_named n operators d) (merged_table-first_named n operators (u ∷ us))

-- Where the operator's volumes have distinct names, so have the merged volumes, and they begin with
-- the operator's names in their order.
pub merge_volumes-names :
    (operators users : List Volume)
    → Distinct (volume_names operators)
    → Distinct (volume_names (merge_volumes operators users))
      × ((rest : List String) × (volume_names (merge_volumes operators users)
            ≡ volume_names operators ++ rest))
unfolding merge_volumes
merge_volumes-names operators [] d = (d, ([], sym (append-nil _)))
merge_volumes-names operators (u ∷ us) d =
    let t = merged_table operators (u ∷ us) in
    let names =
      names-in_order t.0 (merged_table-IsTidy operators (u ∷ us)).0 t.1
        (merged_table-AreFilled operators (u ∷ us)) in
    let order = volume_table-order operators ([], []) in
    let (rest, more) = add_volumes-extends (u ∷ us) (volume_table operators ([], [])) in
    (
      rw names (
          add_volumes-Distinct (u ∷ us) (volume_table operators ([], []))
            (operators-IsTidy operators) (rw order d)),
      (rest, names ∙ more ∙ ap (λ o. o ++ rest) order),
    )
