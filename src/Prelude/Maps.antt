-- ===== src/Prelude/Maps.antt =====
-- Go maps with string keys, as association lists with distinct keys.
use Prim.Native.String.{String}
use mathlib.Core.Path.{◌≡◌, refl}
use mathlib.Core.Bool.{Bool, true, false, ◌||◌}
use mathlib.Core.List.{List, [], ◌∷◌}
use mathlib.Core.Option.{Option, none, some}
use mathlib.Core.Logic.{◌↔◌}
use native.Mathlib.Omega.{arith}
use bindplane_operator.Prelude.Tests.{if◌then◌else◌}
use bindplane_operator.Prelude.Lists.{In}
use bindplane_operator.Prelude.Text.{◌==◌, eq_iff}

module _ {ℓ} {V : Type ℓ} where
  -- `m[k]`, with its `ok` flag.
  unfoldable pub lookup : String → List (String × V) → Option V
  lookup k [] = none
  lookup k ((j, v) ∷ m) = if j == k then some v else lookup k m

  -- `m[k] = v`
  unfoldable pub insert : String → V → List (String × V) → List (String × V)
  insert k v [] = (k, v) ∷ []
  insert k v ((j, w) ∷ m) = if j == k then (k, v) ∷ m else (j, w) ∷ insert k v m

  -- `delete(m, k)`
  unfoldable pub remove : String → List (String × V) → List (String × V)
  remove k [] = []
  remove k ((j, w) ∷ m) = let rest = remove k m in if j == k then rest else (j, w) ∷ rest

  pub lookup-insert :
      (j k : String) (v : V) (m : List (String × V))
      → lookup j (insert k v m) ≡ (if k == j then some v else lookup j m)
  unfolding lookup insert
  lookup-insert j k v [] = refl
  lookup-insert j k v ((i, w) ∷ m) =
      ground (arith, eq_iff k j, eq_iff i k, eq_iff i j, lookup-insert j k v m)

  pub lookup-remove :
      (j k : String) (m : List (String × V))
      → lookup j (remove k m) ≡ (if k == j then none else lookup j m)
  unfolding lookup remove
  lookup-remove j k [] = ground arith
  lookup-remove j k ((i, w) ∷ m) =
      ground (arith, eq_iff k j, eq_iff i k, eq_iff i j, lookup-remove j k m)

-- `slices.Contains`, and membership in a map that is used as a set.
unfoldable pub member : String → List String → Bool
member s [] = false
member s (t ∷ ts) = t == s || member s ts

pub member_iff : (s : String) (ts : List String) → (member s ts ≡ true) ↔ In s ts
unfolding member
member_iff s [] = ground arith
member_iff s (t ∷ ts) = ground (arith, member_iff s ts, eq_iff t s)

-- No text occurs twice.
abbrev pub Distinct : List String → Type 0
Distinct [] = Unit
Distinct (s ∷ ss) = ¬ In s ss × Distinct ss
