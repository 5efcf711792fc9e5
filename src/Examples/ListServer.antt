-- ===== src/Examples/ListServer.antt =====
-- An API server that keeps its objects in a list: it refuses to create what is there, and to update
-- or delete what is not.
use bindplane_operator.Objects.Runs.{IsWilling, fits}
use bindplane_operator.Prelude.{
  inr, inl, Bool, true, false, not, List, [], ◌∷◌, Option, none, some, ◌≡◌, refl, if◌then◌else◌,
  Bool-cases, is_some, arith,
}
use bindplane_operator.Api.{
  Api, Object, Key, key_of, same_key, Request, own, get, delete, create, update, effect,
}
use bindplane_operator.Api.Laws.{same_key_iff}
use bindplane_operator.Objects.{Semantic, IsReflexive}

unfoldable pub live_in : List Object → Key → Option Object
live_in [] q = none
live_in (o ∷ s) q = if same_key (key_of o) q then some o else live_in s q

unfoldable pub without : Key → List Object → List Object
without k [] = []
without k (o ∷ s) = let rest = without k s in if same_key (key_of o) k then rest else o ∷ rest

unfoldable pub accepts_in : List Object → Request → Bool
unfolding live_in
accepts_in s (create o) = not (is_some (live_in s (key_of o)))
accepts_in s (update o) = is_some (live_in s (key_of o))
accepts_in s (delete k) = is_some (live_in s k)
accepts_in s r = true

unfoldable pub stored : List Object → Request → List Object
unfolding without
stored s (create o) = o ∷ s
stored s (update o) = o ∷ s
stored s (delete k) = without k s
stored s r = s

live_in-without :
    (k q : Key) (s : List Object)
    → live_in (without k s) q ≡ (if same_key k q then none else live_in s q)
unfolding live_in without
live_in-without k q [] = ground arith
live_in-without k q (o ∷ s) = ground (
  arith,
  live_in-without k q s,
  same_key_iff (key_of o) k,
  same_key_iff (key_of o) q,
  same_key_iff k q,
)

pub live_in-stored :
    (s : List Object) (r : Request) (q : Key) → live_in (stored s r) q ≡ effect r q (live_in s q)
unfolding live_in stored effect
live_in-stored s (own k) q = refl
live_in-stored s (get k) q = refl
live_in-stored s (delete k) q = live_in-without k q s
live_in-stored s (create o) q = refl
live_in-stored s (update o) q = refl

pub live_in-key : (s : List Object) (q : Key) (o : Object) → live_in s q ≡ some o → key_of o ≡ q
unfolding live_in
live_in-key [] q o h = absurd (cc)
live_in-key (p ∷ s) q o h = elim (Bool-cases (same_key (key_of p) q)) [
  | inl e ↦ ground (arith, same_key_iff (key_of p) q)
  | inr e ↦ live_in-key s q o (ground arith)
]

pub live_in_unknown : (s : List Object) (q : Key) → true ≡ false → live_in s q ≡ none
live_in_unknown s q h = absurd (cc)

pub live_in_missing :
    (s : List Object) (q : Key) → not (is_some (live_in s q)) ≡ true → live_in s q ≡ none
live_in_missing s q h = ground arith

abbrev pub server : Api
server = record {
  State = List Object;
  live = live_in;
  knows = λ s k. true;
  accepts = accepts_in;
  after = λ s r. if accepts_in s r then stored s r else s;
  live_after_accepted = λ s r q h. rw h (live_in-stored s r q);
  live_after_refused = λ s r q h. rw h refl;
  live_if_known = λ s q. live_in_unknown s q;
  missing = λ s q. not (is_some (live_in s q));
  live_if_missing = λ s q. live_in_missing s q;
  live_under_its_key = live_in-key;
}

-- Everything counts as equal.
abbrev pub indifferent : Semantic
indifferent = record {
  text_maps = λ a b. true;
  deployment_specs = λ a b. true;
  rollout_specs = λ a b. true;
  replica_counts = λ a b. true;
  templates = λ a b. true;
  ports = λ a b. true;
  budget_specs = λ a b. true;
  certificate_specs = λ a b. true;
  same_text_maps = λ a b. true;
}

abbrev pub indifferent-IsReflexive : IsReflexive indifferent
indifferent-IsReflexive = record { text_maps_refl = λ a. refl; deployment_specs_refl = λ a. refl }

pub accepts_in-fits :
    (s : List Object) (r : Request) → fits server s r ≡ true → accepts_in s r ≡ true
unfolding accepts_in
accepts_in-fits s (own k) h = refl
accepts_in-fits s (get k) h = refl
accepts_in-fits s (delete k) h = h
accepts_in-fits s (create o) h = h
accepts_in-fits s (update o) h = h

abbrev pub server-IsWilling : IsWilling server
server-IsWilling = record { knows_all = λ s k. refl; accepts_fitting = accepts_in-fits }
