-- ===== src/Objects/Runs.antt =====
-- Steps on an API server that refuses only what does not fit its objects.
use mathlib.Core.Path.{subst}
use bindplane_operator.Prelude.{
  Bool, true, false, not, Option, none, some, ◌≡◌, refl, sym, ap, ◌∙◌, is_some,
}
use bindplane_operator.Cluster.{Reply, returns, fails, panics}
use bindplane_operator.Api.{
  Api, Act, Kind, Object, Key, key_of, Request, own, get, delete, create, update, both, next, must,
  answer, found_or_not,
}
use bindplane_operator.Api.Laws.{after-Unchanged}
use bindplane_operator.Objects.{
  Plan, keep, change, mismatch, carry_out, converge_found, converge, delete_found, delete_if_exists,
}
use bindplane_operator.Objects.Plans.{planned, KeepsKeys}

-- A request fits the objects: a Create of what is not there, an Update or Delete of what is.
abbrev pub fits : (api : Api) → api.State → Request → Bool
fits api s (own k) = true
fits api s (get k) = true
fits api s (delete k) = is_some (api.live s k)
fits api s (create o) = not (is_some (api.live s (key_of o)))
fits api s (update o) = is_some (api.live s (key_of o))

-- A server that knows every kind and accepts each request that fits.
pub record IsWilling (api : Api) : Type 0 where
  pub knows_all : (s : api.State) (k : Kind) → api.knows s k ≡ true
  pub accepts_fitting : (s : api.State) (r : Request) → fits api s r ≡ true → api.accepts s r ≡ true

abbrev pub is_mismatch : Plan → Bool
is_mismatch keep = false
is_mismatch (change o) = false
is_mismatch mismatch = true

-- What is planned for any object under the key of the desired one.
abbrev pub IsPlanned : Object → (Object → Plan) → Type 0
IsPlanned desired plan = (o : Object) → key_of o ≡ key_of desired → is_mismatch (plan o) ≡ false

module _ (api : Api) (w : IsWilling api) where
  abbrev pub Runs : Act api → Type 0
  Runs m = (s : api.State) → (m s).0 ≡ returns tt

  next-Runs :
      (p : Reply (Unit {0}) × api.State) (k : Act api)
      → p.0 ≡ returns tt
      → (k p.1).0 ≡ returns tt
      → (next api p k).0 ≡ returns tt
  next-Runs (returns u, s) k h g = g
  next-Runs (fails, s) k h g = absurd (cc)
  next-Runs (panics, s) k h g = absurd (cc)

  pub both-Runs : (m k : Act api) → Runs m → Runs k → Runs (both api m k)
  both-Runs m k f g s = next-Runs (m s) k (f s) (g (m s).1)

  must-Runs : (r : Request) (s : api.State) → fits api s r ≡ true → (must api r s).0 ≡ returns tt
  must-Runs r s h = rw (w.accepts_fitting s r h) refl

  answer-live : (s : api.State) (q : Key) → answer api s q ≡ found_or_not (api.live s q)
  unfolding answer
  answer-live s q = rw (w.knows_all s q.kind) (rw (w.accepts_fitting s (get q) refl) refl)

  carry_out-Runs :
      (o : Object) (p : Plan) (s : api.State)
      → is_mismatch p ≡ false
      → key_of (planned o p) ≡ key_of o
      → is_some (api.live s (key_of o)) ≡ true
      → (carry_out api p s).0 ≡ returns tt
  unfolding carry_out
  carry_out-Runs o keep s h k l = refl
  carry_out-Runs o (change x) s h k l =
      must-Runs (update x) s (ap (λ q. is_some (api.live s q)) k ∙ l)
  carry_out-Runs o mismatch s h k l = absurd (cc)

  module _ (desired : Object) (plan : Object → Plan) (keeps : KeepsKeys plan)
      (fine : IsPlanned desired plan) where
    converge_found-Runs :
        (l : Option Object) (v : api.State)
        → api.live v (key_of desired) ≡ l
        → (converge_found api desired plan (found_or_not l) v).0 ≡ returns tt
    unfolding converge_found
    converge_found-Runs none v e = must-Runs (create desired) v (rw e refl)
    converge_found-Runs (some o) v e =
        let k = api.live_under_its_key v (key_of desired) o e in
        carry_out-Runs o (plan o) v (fine o k) (keeps o) (rw k (rw e refl))

    pub converge-Runs : Runs (converge api desired plan)
    unfolding converge
    converge-Runs s =
        let q = key_of desired in
        let u = api.after s (own q) in
        next-Runs (must api (own q) s) _ (must-Runs (own q) s refl) (
          subst (λ a. (converge_found api desired plan a (api.after u (get q))).0 ≡ returns tt)
            (sym (answer-live u q))
            (converge_found-Runs (api.live u q) (api.after u (get q))
              (after-Unchanged api u (get q) tt q)))

  delete_found-Runs :
      (t : Bool) (q : Key) (l : Option Object) (v : api.State)
      → api.live v q ≡ l
      → (delete_found api t q (found_or_not l) v).0 ≡ returns tt
  unfolding delete_found
  delete_found-Runs t q none v e = refl
  delete_found-Runs t q (some o) v e = must-Runs (delete q) v (rw e refl)

  pub delete_if_exists-Runs : (t : Bool) (q : Key) → Runs (delete_if_exists api t q)
  unfolding delete_if_exists
  delete_if_exists-Runs t q s =
      subst (λ a. (delete_found api t q a (api.after s (get q))).0 ≡ returns tt)
        (sym (answer-live s q))
        (delete_found-Runs t q (api.live s q) (api.after s (get q))
          (after-Unchanged api s (get q) tt q))
