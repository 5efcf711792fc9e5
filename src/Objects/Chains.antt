-- ===== src/Objects/Chains.antt =====
-- Steps that touch a list of keys, one after the other, and what stands under each at the end.
use mathlib.Core.Path.{subst}
use bindplane_operator.Prelude.{
  Bool, true, false, List, [], ◌∷◌, ◌++◌, Option, none, ◌≡◌, ◌≢◌, refl, ap, ◌∙◌, is_some, All,
  arith,
}
use bindplane_operator.Cluster.{returns}
use bindplane_operator.Api.{Api, Act, Object, Key, key_of, both, panic}
use bindplane_operator.Api.Laws.{same_key_iff, both-returns}
use bindplane_operator.Objects.Ensures.{Holds, converge-Holds, delete_if_exists-Holds}
use bindplane_operator.Objects.{Plan, converge, delete_if_exists}
use bindplane_operator.Objects.Plans.{KeepsKeys}

-- A key, and whether an object is left there.
abbrev pub Change : Type 0
Change = Key × Bool

abbrev pub IsUntouched : Key → List Change → Type 0
IsUntouched k = All (λ c. k ≢ c.0)

abbrev pub AreApart : List Change → Type 0
AreApart [] = Unit
AreApart (c ∷ cs) = IsUntouched c.0 cs × AreApart cs

module _ (api : Api) where
  -- One key is touched, and an object left there or not.
  abbrev pub Sets : api.State → api.State → Change → Type 0
  Sets s t c =
      (is_some (api.live t c.0) ≡ c.1) × ((k : Key) → k ≢ c.0 → api.live t k ≡ api.live s k)

  unfoldable pub Chain : api.State → List Change → api.State → Type 0
  Chain s [] t = (k : Key) → api.live t k ≡ api.live s k
  Chain s (c ∷ cs) t = (u : api.State) × Sets s u c × Chain u cs t

  pub Chain-frame :
      (cs : List Change) (s t : api.State) (k : Key)
      → Chain s cs t
      → IsUntouched k cs
      → api.live t k ≡ api.live s k
  unfolding Chain
  Chain-frame [] s t k h n = h k
  Chain-frame (c ∷ cs) s t k (u, (present, frame), h) (n, ns) =
      Chain-frame cs u t k h ns ∙ frame k n

  -- Where the keys are apart, each is left as its change says.
  pub Chain-final :
      (cs : List Change) (s t : api.State)
      → AreApart cs
      → Chain s cs t
      → All (λ c. is_some (api.live t c.0) ≡ c.1) cs
  unfolding Chain
  Chain-final [] s t a h = tt
  Chain-final (c ∷ cs) s t (apart, a) (u, (present, frame), h) =
      (ap is_some (Chain-frame cs u t c.0 h apart) ∙ present, Chain-final cs u t a h)

  Chain-from :
      (cs : List Change) (s u t : api.State)
      → ((k : Key) → api.live u k ≡ api.live s k)
      → Chain u cs t
      → Chain s cs t
  unfolding Chain
  Chain-from [] s u t same h = λ k. h k ∙ same k
  Chain-from (c ∷ cs) s u t same (v, (present, frame), h) =
      (v, (present, λ k n. frame k n ∙ same k), h)

  Chain-append :
      (cs ds : List Change) (s u t : api.State) → Chain s cs u → Chain u ds t → Chain s (cs ++ ds) t
  unfolding Chain
  Chain-append [] ds s u t h k = Chain-from ds s u t h k
  Chain-append (c ∷ cs) ds s u t (v, sets, h) k = (v, sets, Chain-append cs ds v u t h k)

  -- A step that makes these changes where it returns without an error.
  abbrev pub Makes : Act api → List Change → Type 0
  Makes m cs = (s t : api.State) → m s ≡ (returns tt, t) → Chain s cs t

  pub both-Makes :
      (m k : Act api) (cs ds : List Change)
      → Makes m cs
      → Makes k ds
      → Makes (both api m k) (cs ++ ds)
  both-Makes m k cs ds f g s t h =
      let (u, first, rest) = both-returns api m k s t h in
      Chain-append cs ds s u t (f s u first) (g u t rest)

  Holds-Chain :
      (s t : api.State) (k : Key) (o : Option Object)
      → Holds api s t k o
      → Chain s ((k, is_some o) ∷ []) t
  unfolding Chain
  Holds-Chain s t k o h = (
    t,
    (
      ap is_some (h k ∙ rw ((same_key_iff k k).1 refl) refl),
      λ p n. h p ∙ ground (arith, same_key_iff k p),
    ),
    λ p. refl,
  )

  pub converge-Makes :
      (desired : Object) (plan : Object → Plan) (k : Key)
      → KeepsKeys plan
      → key_of desired ≡ k
      → Makes (converge api desired plan) ((k, true) ∷ [])
  converge-Makes desired plan k keeps e s t h =
      subst (λ k. Chain s ((k, true) ∷ []) t) e
        (Holds-Chain s t (key_of desired) _ (converge-Holds api desired plan s t keeps h))

  pub delete_if_exists-Makes :
      (tolerant : Bool) (k : Key) → Makes (delete_if_exists api tolerant k) ((k, false) ∷ [])
  delete_if_exists-Makes tolerant k s t h =
      Holds-Chain s t k none (delete_if_exists-Holds api tolerant k s t h)

  pub panic-Makes : (cs : List Change) → Makes (panic api) cs
  panic-Makes cs s t h = absurd (cc (ap (λ p. p.0) h))
