-- ===== src/Merge/Containers.antt =====
-- internal/controller/bindplane_controller.go: mergeContainers, beside a description without its
-- map.
use bindplane_operator.Prelude.{
  All, sym, String, List, [], ◌∷◌, Option, none, some, map, ◌≡◌, refl, ap, ◌∙◌, inl, inr, ◌==◌,
  eq_iff, if◌then◌else◌, lookup, insert, lookup-insert, In, Distinct, Bool-cases, Option-cases,
  arith,
}
use bindplane_operator.Kube.{Json, EnvVar, Container}
use bindplane_operator.Merge.{
  Codec, merge_single_container, container_map, merge_user_container, merge_user_containers,
  updated_or, merge_containers,
}

unfoldable pub container_names : List Container → List String
container_names [] = []
container_names (c ∷ cs) = c.name ∷ container_names cs

-- What the operator keeps of its own container.
abbrev pub ProtectedPart : Type 0
ProtectedPart = String × String × Json × List EnvVar × List String × List String

abbrev pub protected_part : Container → ProtectedPart
protected_part c = (c.name, c.image, c.ports, c.env, c.command, c.args)

module _ (codec : Codec Container) where
  -- A container with one of the user's, if they have the same name.
  unfoldable pub merged_if_named : Container → Container → Container
  merged_if_named u c = if u.name == c.name then merge_single_container codec c u else c

  unfoldable pub merged_with : List Container → Container → Container
  merged_with [] c = c
  merged_with (u ∷ us) c = merged_with us (merged_if_named u c)

  protected_part-merge_single_container :
      (c u : Container) → protected_part (merge_single_container codec c u) ≡ protected_part c
  unfolding merge_single_container
  protected_part-merge_single_container c u = refl

  protected_part-merged_if_named :
      (u c : Container) → protected_part (merged_if_named u c) ≡ protected_part c
  unfolding merged_if_named
  protected_part-merged_if_named u c = elim (Bool-cases (u.name == c.name)) [
    | inl e ↦ rw e (protected_part-merge_single_container c u)
    | inr e ↦ rw e refl
  ]

  pub protected_part-merged_with :
      (us : List Container) (c : Container) → protected_part (merged_with us c) ≡ protected_part c
  unfolding merged_with
  protected_part-merged_with [] c = refl
  protected_part-merged_with (u ∷ us) c =
      protected_part-merged_with us (merged_if_named u c) ∙ protected_part-merged_if_named u c

  merged_option : List Container → Option Container → Option Container
  merged_option us none = none
  merged_option us (some c) = some (merged_with us c)

  -- Each value of the map has its key's name.
  abbrev IsNamed : List (String × Container) → Type 0
  IsNamed m = (n : String) (c : Container) → lookup n m ≡ some c → c.name ≡ n

  insert-IsNamed :
      (n : String) (c : Container) (m : List (String × Container))
      → IsNamed m
      → c.name ≡ n
      → IsNamed (insert n c m)
  insert-IsNamed n c m h e j d f = ground (arith, lookup-insert j n c m, eq_iff n j, h j d)

  one_option : Container → Option Container → Option Container
  one_option u none = none
  one_option u (some c) = some (merged_if_named u c)

  lookup-merge_user_container :
      (n : String) (u : Container) (m : List (String × Container))
      → IsNamed m
      → lookup n (merge_user_container codec m u) ≡ one_option u (lookup n m)
  unfolding merge_user_container one_option merged_if_named
  lookup-merge_user_container n u m h = elim (Option-cases (lookup n m)) [
    | inl f ↦ elim (Option-cases (lookup u.name m)) [
      | inl e ↦ ground arith
      | inr (c, e) ↦
          ground
            (arith, lookup-insert n u.name (merge_single_container codec c u) m, eq_iff u.name n)
    ]
    | inr (d, f) ↦ elim (Option-cases (lookup u.name m)) [
      | inl e ↦ ground (arith, h n d f, eq_iff u.name n)
      | inr (c, e) ↦ ground (
        arith,
        h n d f,
        lookup-insert n u.name (merge_single_container codec c u) m,
        eq_iff u.name n,
      )
    ]
  ]

  merge_user_container-IsNamed :
      (u : Container) (m : List (String × Container))
      → IsNamed m
      → IsNamed (merge_user_container codec m u)
  unfolding one_option
  merge_user_container-IsNamed u m h n c e = elim (Option-cases (lookup n m)) [
    | inl f ↦ absurd (ground (arith, lookup-merge_user_container n u m h))
    | inr (d, f) ↦ ground (
      arith,
      lookup-merge_user_container n u m h,
      h n d f,
      ap (λ (p : ProtectedPart). p.0) (protected_part-merged_if_named u d),
    )
  ]

  merged_option-one_option :
      (u : Container) (us : List Container) (o : Option Container)
      → merged_option us (one_option u o) ≡ merged_option (u ∷ us) o
  unfolding merged_option one_option merged_with
  merged_option-one_option u us none = refl
  merged_option-one_option u us (some c) = refl

  lookup-merge_user_containers :
      (n : String) (us : List Container) (m : List (String × Container))
      → IsNamed m
      → lookup n (merge_user_containers codec m us) ≡ merged_option us (lookup n m)
  unfolding merge_user_containers merged_option merged_with
  lookup-merge_user_containers n [] m h = ground arith
  lookup-merge_user_containers n (u ∷ us) m h =
      lookup-merge_user_containers n us (merge_user_container codec m u)
        (merge_user_container-IsNamed u m h)
      ∙ ap (merged_option us) (lookup-merge_user_container n u m h)
      ∙ merged_option-one_option u us (lookup n m)

  container_map-IsNamed :
      (cs : List Container) (m : List (String × Container))
      → IsNamed m
      → IsNamed (container_map cs m)
  unfolding container_map
  container_map-IsNamed [] m h = h
  container_map-IsNamed (c ∷ cs) m h =
      container_map-IsNamed cs (insert c.name c m) (insert-IsNamed c.name c m h refl)

lookup-container_map_of_new :
    (n : String) (cs : List Container) (m : List (String × Container))
    → ¬ In n (container_names cs)
    → lookup n (container_map cs m) ≡ lookup n m
unfolding container_map container_names
lookup-container_map_of_new n [] m h = refl
lookup-container_map_of_new n (c ∷ cs) m h = ground (
  arith,
  lookup-container_map_of_new n cs (insert c.name c m),
  lookup-insert n c.name c m,
  eq_iff c.name n,
)

lookup-container_map :
    (cs : List Container) (m : List (String × Container))
    → Distinct (container_names cs)
    → All (λ c. lookup c.name (container_map cs m) ≡ some c) cs
unfolding container_map container_names
lookup-container_map [] m d = tt
lookup-container_map (c ∷ cs) m d = (
  ground (
    arith,
    lookup-container_map_of_new c.name cs (insert c.name c m),
    lookup-insert c.name c.name c m,
    eq_iff c.name c.name,
  ),
  lookup-container_map cs (insert c.name c m) d.1,
)

-- The result, from what the map has under the names of the operator's containers.
map-updated_or :
    (codec : Codec Container) (m : List (String × Container)) (us cs : List Container)
    → IsNamed codec m
    → All (λ c. lookup c.name m ≡ some c) cs
    → map (updated_or (merge_user_containers codec m us)) cs ≡ map (merged_with codec us) cs
unfolding updated_or merged_option
map-updated_or codec m us [] h f = refl
map-updated_or codec m us (c ∷ cs) h (e, f) =
    ground
      (arith, map-updated_or codec m us cs h f, lookup-merge_user_containers codec c.name us m h)

pub map-merged_with_none :
    (codec : Codec Container) (cs : List Container) → map (merged_with codec []) cs ≡ cs
unfolding merged_with
map-merged_with_none codec [] = refl
map-merged_with_none codec (c ∷ cs) = ap (λ r. c ∷ r) (map-merged_with_none codec cs)

-- Where the operator's containers have distinct names, the merged containers are the operator's in
-- their order, each merged with the user's containers of its name, one after the other.
pub merge_containers-eq-map :
    (codec : Codec Container) (operators users : List Container)
    → Distinct (container_names operators)
    → merge_containers codec operators users ≡ map (merged_with codec users) operators
unfolding merge_containers lookup
merge_containers-eq-map codec operators [] d = sym (map-merged_with_none codec operators)
merge_containers-eq-map codec operators (u ∷ us) d =
    map-updated_or codec (container_map operators []) (u ∷ us) operators
      (container_map-IsNamed codec operators [] (λ n c e. absurd (cc)))
      (lookup-container_map operators [] d)

pub protected_part-merged_with_all :
    (codec : Codec Container) (us cs : List Container)
    → map protected_part (map (merged_with codec us) cs) ≡ map protected_part cs
protected_part-merged_with_all codec us [] = refl
protected_part-merged_with_all codec us (c ∷ cs) =
    ground
      (arith, protected_part-merged_with codec us c, protected_part-merged_with_all codec us cs)
