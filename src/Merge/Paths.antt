-- ===== src/Merge/Paths.antt =====
-- mergeMaps at one key, and along a path of keys.
use bindplane_operator.Prelude.{
  sym, Bool-cases, String, List, [], ◌∷◌, Option, none, some, ◌≡◌, refl, ◌⊎◌, inl, inr, ◌==◌,
  eq_iff, if◌then◌else◌, arith,
}
use mathlib.Core.Path.{subst}
use bindplane_operator.Kube.{Json, null, bool, num, str, arr, obj, Fields, end, field}
use bindplane_operator.Merge.{get, put, merge_value, merge_maps}

-- The keys of a map, and of the maps in it, are distinct.
unfoldable mutual
  pub HasDistinctKeys : Fields → Type 0
  HasDistinctKeys end = Unit
  HasDistinctKeys (field k v m) = (get k m ≡ none) × HasDistinctKeysInside v × HasDistinctKeys m

  pub HasDistinctKeysInside : Json → Type 0
  HasDistinctKeysInside (obj m) = HasDistinctKeys m
  HasDistinctKeysInside null = Unit
  HasDistinctKeysInside (bool b) = Unit
  HasDistinctKeysInside (num n) = Unit
  HasDistinctKeysInside (str s) = Unit
  HasDistinctKeysInside (arr xs) = Unit

-- What an entry is after the merge: the second map's, unless it has none or null.
unfoldable pub merged_entry : Option Json → Option Json → Option Json
unfolding merge_value
merged_entry o none = o
merged_entry o (some null) = o
merged_entry o (some v) = some (merge_value o v)

get-put :
    (j k : String) (v : Json) (m : Fields)
    → get j (put k v m) ≡ (if k == j then some v else get j m)
unfolding get put
get-put j k v end = refl
get-put j k v (field i w m) = ground (arith, eq_iff k j, eq_iff i k, eq_iff i j, get-put j k v m)

-- One entry of the second map, put into the first.
merged_entry-put :
    (k j : String) (w : Json) (a b : Fields)
    → get j b ≡ none
    → merged_entry (get k (put j w a)) (get k b)
      ≡ (if j == k then some w else merged_entry (get k a) (get k b))
unfolding merged_entry
merged_entry-put k j w a b h = rw (get-put k j w a) (ground (arith, eq_iff j k))

pub get-merge_maps :
    (k : String) (a b : Fields)
    → HasDistinctKeys b
    → get k (merge_maps a b) ≡ merged_entry (get k a) (get k b)
unfolding merge_maps HasDistinctKeys get merged_entry
get-merge_maps k a end h = refl
get-merge_maps k a (field j null b) h = ground (arith, get-merge_maps k a b, eq_iff j k)
get-merge_maps k a (field j v b) h = ground (
  arith,
  get-merge_maps k (put j (merge_value (get j a) v) a) b,
  merged_entry-put k j (merge_value (get j a) v) a b,
  eq_iff j k,
)

-- The value at a path of keys.
unfoldable pub below : List String → Option Json → Option Json
below [] o = o
below (k ∷ ks) (some (obj m)) = below ks (get k m)
below (k ∷ ks) o = none

abbrev pub at_path : List String → Fields → Option Json
at_path ks m = below ks (some (obj m))

-- A value that the merge sets as a whole: neither null nor a map.
abbrev pub IsLeaf : Json → Type 0
IsLeaf null = ⊥
IsLeaf (obj m) = ⊥
IsLeaf v = Unit

-- A map says nothing at the path: along it there are maps, and then nothing or null.
unfoldable pub IsSilent : List String → Option Json → Type 0
IsSilent ks none = Unit
IsSilent ks (some null) = Unit
IsSilent [] (some v) = ⊥
IsSilent (k ∷ ks) (some (obj m)) = IsSilent ks (get k m)
IsSilent (k ∷ ks) (some v) = ⊥

abbrev pub IsSilentAt : List String → Fields → Type 0
IsSilentAt ks m = IsSilent ks (some (obj m))

abbrev AreDistinctIn : Option Json → Type 0
AreDistinctIn none = Unit
AreDistinctIn (some v) = HasDistinctKeysInside v

get-AreDistinctIn : (k : String) (m : Fields) → HasDistinctKeys m → AreDistinctIn (get k m)
unfolding get HasDistinctKeys
get-AreDistinctIn k end h = tt
get-AreDistinctIn k (field j w m) h = elim (Bool-cases (j == k)) [
  | inl e ↦ rw e (h.1)
  | inr e ↦ rw e (get-AreDistinctIn k m h.2)
]

merged_entry_leaf : (o : Option Json) (v : Json) → IsLeaf v → merged_entry o (some v) ≡ some v
unfolding merged_entry
merged_entry_leaf o null l = absurd l
merged_entry_leaf o (obj m) l = absurd l
merged_entry_leaf none v l = refl
merged_entry_leaf (some (obj m)) v l = refl
merged_entry_leaf (some w) v l = refl

-- The two halves, for the entries at which the path starts.
below-merged_entry :
    (ks : List String) (o u : Option Json) (v : Json)
    → AreDistinctIn u
    → IsLeaf v
    → below ks u ≡ some v
    → below ks (merged_entry o u) ≡ some v
unfolding below merged_entry HasDistinctKeys
below-merged_entry [] o none v d l e = absurd (cc)
below-merged_entry [] o (some w) v d l e =
    subst (λ x. merged_entry o x ≡ some v) (sym e) (merged_entry_leaf o v l)
below-merged_entry (k ∷ ks) (some (obj f)) (some (obj g)) v d l e =
    rw (get-merge_maps k f g d)
      (below-merged_entry ks (get k f) (get k g) v (get-AreDistinctIn k g d) l e)
below-merged_entry (k ∷ ks) o (some (obj g)) v d l e = e
below-merged_entry (k ∷ ks) o u v d l e = absurd (cc)

below-merged_entry_silent :
    (ks : List String) (o u : Option Json) (v : Json)
    → AreDistinctIn u
    → IsSilent ks u
    → below ks o ≡ some v
    → below ks (merged_entry o u) ≡ some v
unfolding below merged_entry IsSilent HasDistinctKeys
below-merged_entry_silent ks o none v d s e = e
below-merged_entry_silent ks o (some null) v d s e = e
below-merged_entry_silent (k ∷ ks) (some (obj f)) (some (obj g)) v d s e =
    rw (get-merge_maps k f g d)
      (below-merged_entry_silent ks (get k f) (get k g) v (get-AreDistinctIn k g d) s e)
below-merged_entry_silent [] o (some u) v d s e = absurd s
below-merged_entry_silent (k ∷ ks) o (some (obj g)) v d s e = absurd (cc)
below-merged_entry_silent (k ∷ ks) o (some u) v d s e = absurd s

-- At every path, the merge of two maps has a value that the second map has there, if it is neither
-- null nor a map, and a value that the first has there, if the second says nothing at that path. The
-- second map's keys are distinct, also in the maps inside it.
pub at_path-merge_maps :
    (ks : List String) (a b : Fields) (v : Json)
    → HasDistinctKeys b
    → (IsLeaf v × (at_path ks b ≡ some v)) ⊎ (IsSilentAt ks b × (at_path ks a ≡ some v))
    → at_path ks (merge_maps a b) ≡ some v
unfolding below merged_entry IsSilent HasDistinctKeys
at_path-merge_maps ks a b v d (inl (l, e)) =
    below-merged_entry ks (some (obj a)) (some (obj b)) v d l e
at_path-merge_maps ks a b v d (inr (s, e)) =
    below-merged_entry_silent ks (some (obj a)) (some (obj b)) v d s e
