-- ===== src/Merge/Template.antt =====
-- internal/controller/bindplane_controller.go: mergePodTemplateSpec as a whole.
use bindplane_operator.Merge.{
  Codec, merge_volumes, merge_containers, merge_maps, after_merge, Codecs, merge_labels, copy_all,
  merge_spec_via_json, merge_pod_template_spec,
}
use bindplane_operator.Merge.Containers.{
  map-merged_with_none, ProtectedPart, container_names, merged_with, merge_containers-eq-map,
  protected_part-merged_with,
}
use bindplane_operator.Kube.{field, end, null, Container, PodSpec, PodTemplateSpec, Fields}
use bindplane_operator.Prelude.{
  sym, Bool, true, false, String, List, [], ◌∷◌, Option, none, some, map, ◌≡◌, refl, ap, ◌∙◌,
  Distinct, All, arith,
}
use bindplane_operator.GoRuntime.Effect.{effective-apply_go_runtime_env_vars}
use mathlib.Core.Path.{subst}
use bindplane_operator.EnvVars.Effective.{first_some, effective, HasDistinctNames}
use bindplane_operator.GoRuntime.{QuantityOps, get_go_runtime_env_vars, apply_go_runtime_env_vars}

-- Lists of the same length, related item by item.
abbrev pub Pairs : {A B : Type 0} → (A → B → Type 0) → List A → List B → Type 0
Pairs R [] [] = Unit
Pairs R (x ∷ xs) (y ∷ ys) = R x y × Pairs R xs ys
Pairs R xs ys = ⊥

module _ (q : QuantityOps) where
  -- A container that kept its identity: its environment is the operator's but for GOMAXPROCS and
  -- GOMEMLIMIT, which fit its own resources.
  abbrev pub KeepsContainer : Container → Container → Type 0
  KeepsContainer o c =
      (c.name ≡ o.name)
      × (c.image ≡ o.image)
      × (c.ports ≡ o.ports)
      × (c.command ≡ o.command)
      × (c.args ≡ o.args)
      × ((n : String)
          → effective n c.env
            ≡ first_some (effective n (get_go_runtime_env_vars q c.resources)) (effective n o.env))

  abbrev pub HasDistinctEnv : Container → Type 0
  HasDistinctEnv c = HasDistinctNames c.env

  merged_with-KeepsContainer :
      (codecs : Codecs) (us : List Container) (o : Container)
      → HasDistinctEnv o
      → KeepsContainer o (apply_go_runtime_env_vars q (merged_with codecs.container us o))
  unfolding apply_go_runtime_env_vars
  merged_with-KeepsContainer codecs us o h =
      let same = protected_part-merged_with codecs.container us o in
      let c = merged_with codecs.container us o in
      let same_env = ap (λ (p : ProtectedPart). p.3) same in
      (
        ap (λ (p : ProtectedPart). p.0) same,
        ap (λ (p : ProtectedPart). p.1) same,
        ap (λ (p : ProtectedPart). p.2) same,
        ap (λ (p : ProtectedPart). p.4) same,
        ap (λ (p : ProtectedPart). p.5) same,
        λ n.
            effective-apply_go_runtime_env_vars q n c (subst HasDistinctNames (sym same_env) h)
            ∙ ap
                (λ env.
                  first_some (effective n (get_go_runtime_env_vars q c.resources))
                    (effective n env))
                same_env,
      )

  merged_with-KeepsContainers :
      (codecs : Codecs) (us os : List Container)
      → All HasDistinctEnv os
      → Pairs KeepsContainer os
          (map (apply_go_runtime_env_vars q) (map (merged_with codecs.container us) os))
  merged_with-KeepsContainers codecs us [] h = tt
  merged_with-KeepsContainers codecs us (o ∷ os) (h, hs) =
      (merged_with-KeepsContainer codecs us o h, merged_with-KeepsContainers codecs us os hs)

  -- A spec that kept what is the operator's.
  abbrev pub KeepsOperator : PodSpec → PodSpec → Type 0
  KeepsOperator o s =
      (s.service_account_name ≡ o.service_account_name)
      × (s.termination_grace_period_seconds ≡ o.termination_grace_period_seconds)
      × Pairs KeepsContainer o.containers s.containers

  restored-KeepsOperator :
      (codecs : Codecs) (operator user : PodSpec) (merged : Bool × PodSpec)
      → merged.0 ≡ true
      → Distinct (container_names operator.containers)
      → All HasDistinctEnv operator.containers
      → KeepsOperator operator (after_merge q codecs operator user merged)
  unfolding after_merge
  restored-KeepsOperator codecs operator user (false, merged) ok d h = absurd (cc)
  restored-KeepsOperator codecs operator user (true, merged) ok d h = (
    refl,
    refl,
    rw (merge_containers-eq-map codecs.container operator.containers user.containers d)
        (merged_with-KeepsContainers codecs user.containers operator.containers h),
  )

-- The user's template, if there is one, merges: encoding/json reports no error.
abbrev pub Merges : Codecs → PodSpec → Option PodTemplateSpec → Type 0
Merges codecs operator none = Unit
Merges codecs operator (some user) =
    (merge_spec_via_json codecs.pod_spec operator user.spec).0 ≡ true

-- Whatever template the user gives, if it merges: the service account and the grace period are the
-- operator's, and so are the containers, one for one and in their order, with their names, images,
-- ports, commands and arguments; and each environment is the operator's but for GOMAXPROCS and
-- GOMEMLIMIT, which fit the resources that result from the merge. The operator's containers have
-- distinct names, and in each the variables have distinct names.
pub merge_pod_template_spec-KeepsOperator :
    (q : QuantityOps) (codecs : Codecs) (operator : PodTemplateSpec) (user : Option PodTemplateSpec)
    → Distinct (container_names operator.spec.containers)
    → All (HasDistinctEnv q) operator.spec.containers
    → Merges codecs operator.spec user
    → KeepsOperator q operator.spec (merge_pod_template_spec q codecs operator user).spec
unfolding merge_pod_template_spec
merge_pod_template_spec-KeepsOperator q codecs operator none d h ok = (
  refl,
  refl,
  subst
      (λ cs.
        Pairs (KeepsContainer q) operator.spec.containers (map (apply_go_runtime_env_vars q) cs))
      (map-merged_with_none codecs.container operator.spec.containers)
      (merged_with-KeepsContainers q codecs [] operator.spec.containers h),
)
merge_pod_template_spec-KeepsOperator q codecs operator (some user) d h ok =
    restored-KeepsOperator q codecs operator.spec user.spec _ ok d h

-- Every entry is null, as in what encoding/json writes for a spec with no field set.
unfoldable pub IsBlank : Fields → Type 0
IsBlank end = Unit
IsBlank (field k null m) = IsBlank m
IsBlank (field k v m) = ⊥

merge_maps_of_IsBlank : (a b : Fields) → IsBlank b → merge_maps a b ≡ a
unfolding merge_maps IsBlank
merge_maps_of_IsBlank a end h = refl
merge_maps_of_IsBlank a (field k null b) h = merge_maps_of_IsBlank a b h
merge_maps_of_IsBlank a (field k v b) h = absurd h

merge_spec_via_json_of_blank :
    (c : Codec PodSpec) (operator user : PodSpec) (a b : Fields)
    → c.decode a operator ≡ (true, operator)
    → c.encode operator ≡ some a
    → c.encode user ≡ some b
    → IsBlank b
    → merge_spec_via_json c operator user ≡ (true, operator)
unfolding merge_spec_via_json
merge_spec_via_json_of_blank c operator user a b read wrote_a wrote_b blank =
    ground (arith, merge_maps_of_IsBlank a b)

-- A template that says nothing is the same as none: where reading back what was written of a spec
-- into that spec leaves it as it is, the operator's spec is written, and every entry of the user's
-- is null.
pub merge_pod_template_spec_of_blank :
    (q : QuantityOps) (codecs : Codecs) (operator : PodTemplateSpec) (user : PodTemplateSpec)
    (a b : Fields)
    → codecs.pod_spec.decode a operator.spec ≡ (true, operator.spec)
    → codecs.pod_spec.encode operator.spec ≡ some a
    → codecs.pod_spec.encode user.spec ≡ some b
    → IsBlank b
    → user.labels ≡ []
    → user.annotations ≡ []
    → user.spec.containers ≡ []
    → user.spec.volumes ≡ []
    → merge_pod_template_spec q codecs operator (some user)
      ≡ merge_pod_template_spec q codecs operator none
unfolding merge_pod_template_spec after_merge merge_containers merge_volumes merge_labels copy_all
merge_pod_template_spec_of_blank q codecs operator user a b read wrote_a wrote_b blank l n c v =
    let same =
      merge_spec_via_json_of_blank codecs.pod_spec operator.spec user.spec a b read wrote_a wrote_b
        blank in
    rw same (rw (l, n, c, v) refl)
