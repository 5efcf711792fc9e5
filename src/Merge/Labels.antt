-- ===== src/Merge/Labels.antt =====
-- mergeTemplateMetadata: the labels and annotations of the merged template.
use bindplane_operator.Merge.{
  Codecs, merge_labels, copy_all, merge_pod_template_spec, protected_label_keys,
}
use bindplane_operator.Kube.{PodTemplateSpec}
use bindplane_operator.Prelude.{
  ◌≢◌, inl, inr, Bool-cases, String, List, [], ◌∷◌, none, some, ◌≡◌, refl, ◌∙◌, eq_iff,
  if◌then◌else◌, lookup, insert, lookup-insert, member, In, Distinct, arith,
}
use bindplane_operator.EnvVars.Effective.{first_some}
use bindplane_operator.GoRuntime.{QuantityOps}

unfoldable pub keys : List (String × String) → List String
keys [] = []
keys ((k, v) ∷ m) = k ∷ keys m

lookup_of_new : (k : String) (m : List (String × String)) → ¬ In k (keys m) → lookup k m ≡ none
unfolding lookup keys
lookup_of_new k [] h = refl
lookup_of_new k ((j, v) ∷ m) h = ground (arith, eq_iff j k, lookup_of_new k m)

-- One step of either loop.
label_step :
    (k j : String) (v : String) (labels user : List (String × String))
    → ¬ In j (keys user)
    → first_some (lookup k user) (lookup k (insert j v labels))
      ≡ first_some (lookup k ((j, v) ∷ user)) (lookup k labels)
unfolding lookup
label_step k j v labels user h =
    ground (arith, lookup-insert k j v labels, eq_iff j k, lookup_of_new k user)

lookup-copy_all :
    (k : String) (m user : List (String × String))
    → Distinct (keys user)
    → lookup k (copy_all m user) ≡ first_some (lookup k user) (lookup k m)
unfolding copy_all keys
lookup-copy_all k m [] d = unfold lookup in refl
lookup-copy_all k m ((j, v) ∷ user) (new, d) =
    lookup-copy_all k (insert j v m) user d ∙ label_step k j v m user new

label_skip :
    (k j : String) (v : String) (labels user : List (String × String))
    → k ≢ j
    → lookup k ((j, v) ∷ user) ≡ lookup k user
unfolding lookup
label_skip k j v labels user h = ground (arith, eq_iff j k)

lookup-merge_labels :
    (k : String) (ps : List String) (labels user : List (String × String))
    → Distinct (keys user)
    → lookup k (merge_labels ps labels user)
      ≡ (if member k ps then lookup k labels else first_some (lookup k user) (lookup k labels))
unfolding merge_labels keys
lookup-merge_labels k ps labels [] d = unfold lookup in ground arith
lookup-merge_labels k ps labels ((j, v) ∷ user) (new, d) = elim (Bool-cases (member j ps)) [
  | inl e ↦ ground (arith, lookup-merge_labels k ps labels user d, label_skip k j v labels user)
  | inr e ↦ ground (
    arith,
    lookup-merge_labels k ps (insert j v labels) user d,
    label_step k j v labels user new,
    lookup-insert k j v labels,
    eq_iff j k,
  )
]

-- The labels of the merged template, where the user's labels and annotations have distinct keys: a
-- protected label is the operator's, whatever the user gives, and any other is the user's, if
-- there is one, else the operator's; an annotation is the user's, if there is one, else the
-- operator's.
pub lookup-merge_pod_template_spec :
    (q : QuantityOps) (codecs : Codecs) (operator user : PodTemplateSpec) (k : String)
    → Distinct (keys user.labels)
    → Distinct (keys user.annotations)
    → (lookup k (merge_pod_template_spec q codecs operator (some user)).labels ≡ (
        if member k protected_label_keys
        then lookup k operator.labels
        else first_some (lookup k user.labels) (lookup k operator.labels)))
      × (lookup k (merge_pod_template_spec q codecs operator (some user)).annotations
          ≡ first_some (lookup k user.annotations) (lookup k operator.annotations))
unfolding merge_pod_template_spec
lookup-merge_pod_template_spec q codecs operator user k d e = (
  lookup-merge_labels k protected_label_keys operator.labels user.labels d,
  lookup-copy_all k operator.annotations user.annotations e,
)
