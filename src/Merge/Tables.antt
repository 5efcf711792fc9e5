-- ===== src/Merge/Tables.antt =====
-- The table and the order that mergeVolumes keeps: what each step makes of them.
use bindplane_operator.Prelude.{
  ap, ◌∙◌, sym, Option-cases, true, false, ◌||◌, String, List, [], ◌∷◌, ◌++◌, Option, none, some,
  ◌≡◌, refl, inl, inr, ◌==◌, eq_iff, if◌then◌else◌, lookup, insert, lookup-insert, member,
  member_iff, is_some, All, Distinct, Bool-cases, arith,
}
use mathlib.Core.List.{append-nil, append_assoc}
use bindplane_operator.Kube.{Volume}
use bindplane_operator.EnvVars.Effective.{first_some}
use bindplane_operator.Merge.{VolumeTable, volume_table, add_volumes, in_order}

unfoldable pub volume_names : List Volume → List String
volume_names [] = []
volume_names (v ∷ vs) = v.name ∷ volume_names vs

-- The first and the last volume of a name.
unfoldable pub first_named : String → List Volume → Option Volume
first_named n [] = none
first_named n (v ∷ vs) = if v.name == n then some v else first_named n vs

unfoldable pub last_named : String → List Volume → Option Volume
last_named n [] = none
last_named n (v ∷ vs) = first_some (last_named n vs) (if v.name == n then some v else none)

-- The table: each value has its key's name, and the order has the keys.
abbrev pub IsNamed : List (String × Volume) → Type 0
IsNamed = All (λ p. p.1.name ≡ p.0)

abbrev pub IsTidy : VolumeTable → Type 0
IsTidy t = IsNamed t.0 × ((n : String) → member n t.1 ≡ is_some (lookup n t.0))

pub insert-IsNamed :
    (v : Volume) (m : List (String × Volume)) → IsNamed m → IsNamed (insert v.name v m)
unfolding insert
insert-IsNamed v [] h = (refl, tt)
insert-IsNamed v ((j, w) ∷ m) h = elim (Bool-cases (j == v.name)) [
  | inl e ↦ rw e (refl, h.1)
  | inr e ↦ rw e (h.0, insert-IsNamed v m h.1)
]

pub lookup-IsNamed :
    (n : String) (m : List (String × Volume)) (v : Volume)
    → IsNamed m
    → lookup n m ≡ some v
    → v.name ≡ n
unfolding lookup
lookup-IsNamed n [] v h e = absurd (cc)
lookup-IsNamed n ((j, w) ∷ m) v h e = ground (arith, eq_iff j n, lookup-IsNamed n m v)

pub member_snoc :
    (n y : String) (xs : List String) → member n (xs ++ y ∷ []) ≡ (member n xs || y == n)
unfolding member
member_snoc n y [] = ground arith
member_snoc n y (x ∷ xs) = ground (arith, member_snoc n y xs)

pub Distinct-snoc :
    (y : String) (xs : List String) → Distinct xs → member y xs ≡ false → Distinct (xs ++ y ∷ [])
unfolding member
Distinct-snoc y [] d h = ground arith
Distinct-snoc y (x ∷ xs) d h = ground (
  arith,
  Distinct-snoc y xs,
  eq_iff x y,
  eq_iff y x,
  member_iff x (xs ++ y ∷ []),
  member_iff x xs,
  member_snoc x y xs,
)

module _ (v : Volume) (m : List (String × Volume)) (order : List String) where
  -- One volume whose name is new to the table.
  pub push-IsTidy : IsTidy (m, order) → IsTidy (insert v.name v m, order ++ v.name ∷ [])
  push-IsTidy (named, covers) = (
    insert-IsNamed v m named,
    λ n.
        ground (
          arith,
          covers n,
          member_snoc n v.name order,
          lookup-insert n v.name v m,
          eq_iff v.name n,
        ),
  )

  -- One volume of the user's.
  pub add-IsTidy :
      IsTidy (m, order)
      → IsTidy
          (insert v.name v m, if is_some (lookup v.name m) then order else order ++ v.name ∷ [])
  add-IsTidy (named, covers) = (
    insert-IsNamed v m named,
    λ n. ground (
      arith,
      covers n,
      covers v.name,
      member_snoc n v.name order,
      lookup-insert n v.name v m,
      eq_iff v.name n,
    ),
  )

pub volume_table-IsTidy :
    (vs : List Volume) (t : VolumeTable) → IsTidy t → IsTidy (volume_table vs t)
unfolding volume_table
volume_table-IsTidy [] t h = h
volume_table-IsTidy (v ∷ vs) (m, order) h =
    volume_table-IsTidy vs (insert v.name v m, order ++ v.name ∷ []) (push-IsTidy v m order h)

pub add_volumes-IsTidy : (vs : List Volume) (t : VolumeTable) → IsTidy t → IsTidy (add_volumes vs t)
unfolding add_volumes
add_volumes-IsTidy [] t h = h
add_volumes-IsTidy (v ∷ vs) (m, order) h = add_volumes-IsTidy vs _ (add-IsTidy v m order h)

-- What stands in the table.
pub lookup-volume_table :
    (n : String) (vs : List Volume) (t : VolumeTable)
    → lookup n (volume_table vs t).0 ≡ first_some (last_named n vs) (lookup n t.0)
unfolding volume_table last_named
lookup-volume_table n [] t = refl
lookup-volume_table n (v ∷ vs) (m, order) = ground (
  arith,
  lookup-volume_table n vs (insert v.name v m, order ++ v.name ∷ []),
  lookup-insert n v.name v m,
)

pub lookup-add_volumes :
    (n : String) (vs : List Volume) (t : VolumeTable)
    → lookup n (add_volumes vs t).0 ≡ first_some (last_named n vs) (lookup n t.0)
unfolding add_volumes last_named
lookup-add_volumes n [] t = refl
lookup-add_volumes n (v ∷ vs) (m, order) = ground (
  arith,
  lookup-add_volumes n vs
      (insert v.name v m, if is_some (lookup v.name m) then order else order ++ v.name ∷ []),
  lookup-insert n v.name v m,
)

-- The list that the table stands for.
pub AreFilled : List (String × Volume) → List String → Type 0
AreFilled m = All (λ k. is_some (lookup k m) ≡ true)

pub AreFilled-of_members :
    (m : List (String × Volume)) (order : List String)
    → ((k : String) → member k order ≡ true → is_some (lookup k m) ≡ true)
    → AreFilled m order
unfolding AreFilled member
AreFilled-of_members m [] h = tt
AreFilled-of_members m (k ∷ ks) h =
    (h k (ground (arith, eq_iff k k)), AreFilled-of_members m ks (λ j e. h j (ground arith)))

module _ (m : List (String × Volume)) (named : IsNamed m) where
  pub names-in_order :
      (order : List String) → AreFilled m order → volume_names (in_order (m, order)) ≡ order
  unfolding AreFilled volume_names in_order
  names-in_order [] h = refl
  names-in_order (k ∷ ks) (p, h) = elim (Option-cases (lookup k m)) [
    | inl e ↦ absurd (ground arith)
    | inr (v, e) ↦ ground (arith, lookup-IsNamed k m v named e, names-in_order ks h)
  ]

  pub first_named-in_order :
      (n : String) (order : List String)
      → AreFilled m order
      → first_named n (in_order (m, order)) ≡ (if member n order then lookup n m else none)
  unfolding AreFilled first_named in_order member
  first_named-in_order n [] h = refl
  first_named-in_order n (k ∷ ks) (p, h) = elim (Option-cases (lookup k m)) [
    | inl e ↦ absurd (ground arith)
    | inr (v, e) ↦
        ground (arith, lookup-IsNamed k m v named e, first_named-in_order n ks h, eq_iff k n)
  ]

-- The order begins with what it was, and no name comes twice.
module _ (v : Volume) (m : List (String × Volume)) (order : List String) where
  pub add-Distinct :
      IsTidy (m, order)
      → Distinct order
      → Distinct (if is_some (lookup v.name m) then order else order ++ v.name ∷ [])
  add-Distinct (named, covers) d = elim (Bool-cases (is_some (lookup v.name m))) [
    | inl e ↦ rw e d
    | inr e ↦ rw e (Distinct-snoc v.name order d (covers v.name ∙ e))
  ]

  pub add-extends :
      (more : List String) × ((if is_some (lookup v.name m) then order else order ++ v.name ∷ [])
        ≡ order ++ more)
  add-extends = elim (Bool-cases (is_some (lookup v.name m))) [
    | inl e ↦ ([], rw e (sym (append-nil order)))
    | inr e ↦ (v.name ∷ [], rw e refl)
  ]

pub add_volumes-Distinct :
    (vs : List Volume) (t : VolumeTable) → IsTidy t → Distinct t.1 → Distinct (add_volumes vs t).1
unfolding add_volumes
add_volumes-Distinct [] t h d = d
add_volumes-Distinct (v ∷ vs) (m, order) h d =
    add_volumes-Distinct vs _ (add-IsTidy v m order h) (add-Distinct v m order h d)

pub add_volumes-extends :
    (vs : List Volume) (t : VolumeTable)
    → (rest : List String) × ((add_volumes vs t).1 ≡ t.1 ++ rest)
unfolding add_volumes
add_volumes-extends [] (m, order) = ([], sym (append-nil order))
add_volumes-extends (v ∷ vs) (m, order) =
    let (more, e) = add-extends v m order in
    let (rest, f) =
      add_volumes-extends vs
        (insert v.name v m, if is_some (lookup v.name m) then order else order ++ v.name ∷ []) in
    (more ++ rest, f ∙ ap (λ o. o ++ rest) e ∙ append_assoc order more rest)

pub volume_table-order :
    (vs : List Volume) (t : VolumeTable) → (volume_table vs t).1 ≡ t.1 ++ volume_names vs
unfolding volume_table volume_names
volume_table-order [] (m, order) = sym (append-nil order)
volume_table-order (v ∷ vs) (m, order) =
    volume_table-order vs (insert v.name v m, order ++ v.name ∷ [])
    ∙ append_assoc order (v.name ∷ []) (volume_names vs)
