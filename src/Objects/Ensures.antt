-- ===== src/Objects/Ensures.antt =====
-- What the cluster holds after a reconciler of one object has returned without an error.
use bindplane_operator.Objects.{
  clean_up, clean_found, Plan, keep, change, mismatch, carry_out, converge_found, converge,
  delete_found, delete_if_exists,
}
use bindplane_operator.Api.{
  must_be_gone, Api, Object, Key, key_of, same_key, own, get, delete, create, update, effect, Found,
  found, not_found, no_match, failed, answer, must, done, fetch,
}
use bindplane_operator.Api.Laws.{
  answer_no_match, same_key_iff, Unchanged, after-Unchanged, must-live, both-returns, answer_found,
  answer_not_found,
}
use mathlib.Core.Path.{subst}
use bindplane_operator.Prelude.{
  inr, inl, Bool, true, false, Option, none, some, ◌≡◌, refl, sym, ap, ◌∙◌, if◌then◌else◌,
  Bool-cases, arith,
}
use bindplane_operator.Cluster.{returns}
use bindplane_operator.Objects.Plans.{planned, converged, KeepsKeys}

module _ (api : Api) where
  -- The object under one key is replaced, and every other stays.
  abbrev pub Holds : api.State → api.State → Key → Option Object → Type 0
  Holds s t k o = (q : Key) → api.live t q ≡ (if same_key k q then o else api.live s q)

  Holds-of_equal :
      (s t u : api.State) (k : Key) (o : Option Object)
      → Unchanged api s t
      → Holds t u k o
      → Holds s u k o
  Holds-of_equal s t u k o same h q = elim (Bool-cases (same_key k q)) [
    | inl e ↦ h q ∙ rw e refl
    | inr e ↦ h q ∙ rw e (same q)
  ]

  -- Nothing is done, where the key holds that object.
  Holds-done :
      (s t : api.State) (k : Key) (o : Option Object)
      → api.live s k ≡ o
      → done api s ≡ (returns tt, t)
      → Holds s t k o
  Holds-done s t k o live h q =
      subst (λ u. api.live u q ≡ (if same_key k q then o else api.live s q)) (ap (λ p. p.1) h)
        (elim (Bool-cases (same_key k q)) [
          | inl e ↦ rw e (ap (api.live s) (sym ((same_key_iff k q).0 e)) ∙ live)
          | inr e ↦ rw e refl
        ])

  Holds-create :
      (s t : api.State) (o : Object)
      → must api (create o) s ≡ (returns tt, t)
      → Holds s t (key_of o) (some o)
  unfolding effect
  Holds-create s t o h q = must-live api s t (create o) q h

  Holds-update :
      (s t : api.State) (k : Key) (o : Object)
      → key_of o ≡ k
      → must api (update o) s ≡ (returns tt, t)
      → Holds s t k (some o)
  unfolding effect
  Holds-update s t k o e h q =
      subst (λ k. api.live t q ≡ (if same_key k q then some o else api.live s q)) e
        (must-live api s t (update o) q h)

  Holds-delete :
      (s t : api.State) (k : Key) → must api (delete k) s ≡ (returns tt, t) → Holds s t k none
  unfolding effect
  Holds-delete s t k h q = must-live api s t (delete k) q h

  carry_out-Holds :
      (p : Plan) (s t : api.State) (k : Key) (o : Object)
      → api.live s k ≡ some o
      → key_of (planned o p) ≡ k
      → carry_out api p s ≡ (returns tt, t)
      → Holds s t k (some (planned o p))
  unfolding carry_out
  carry_out-Holds keep s t k o live e h = Holds-done s t k (some o) live h
  carry_out-Holds (change o') s t k o live e h = Holds-update s t k o' e h
  carry_out-Holds mismatch s t k o live e h = absurd (cc (ap (λ p. p.0) h))

  -- What the answer to the Get says of the object.
  Answers : Found → Option Object → Type 0
  Answers (found o) live = live ≡ some o
  Answers not_found live = live ≡ none
  Answers no_match live = live ≡ none
  Answers failed live = Unit

  Answers-of : (f : Found) (s : api.State) (k : Key) → answer api s k ≡ f → Answers f (api.live s k)
  unfolding Answers
  Answers-of (found o) s k e = answer_found api s k o e
  Answers-of not_found s k e = answer_not_found api s k e
  Answers-of no_match s k e = api.live_if_known s k (answer_no_match api s k e)
  Answers-of failed s k e = tt

  converge_found-Holds :
      (desired : Object) (plan : Object → Plan) (f : Found) (s t : api.State)
      → KeepsKeys plan
      → Answers f (api.live s (key_of desired))
      → converge_found api desired plan f s ≡ (returns tt, t)
      → Holds s t (key_of desired) (some (converged desired plan (api.live s (key_of desired))))
  unfolding converge_found Answers
  converge_found-Holds desired plan (found o) s t keeps live h =
      subst (λ l. Holds s t (key_of desired) (some (converged desired plan l))) (sym live)
        (carry_out-Holds (plan o) s t (key_of desired) o live
          (keeps o ∙ api.live_under_its_key s (key_of desired) o live) h)
  converge_found-Holds desired plan not_found s t keeps live h =
      subst (λ l. Holds s t (key_of desired) (some (converged desired plan l))) (sym live)
        (Holds-create s t desired h)
  converge_found-Holds desired plan no_match s t keeps live h = absurd (cc (ap (λ p. p.0) h))
  converge_found-Holds desired plan failed s t keeps live h = absurd (cc (ap (λ p. p.0) h))

  -- After a reconciler that returns without an error, the object's key holds what its plan leaves,
  -- and every other key what it held.
  pub converge-Holds :
      (desired : Object) (plan : Object → Plan) (s t : api.State)
      → KeepsKeys plan
      → converge api desired plan s ≡ (returns tt, t)
      → Holds s t (key_of desired) (some (converged desired plan (api.live s (key_of desired))))
  unfolding converge effect
  converge-Holds desired plan s t keeps h =
      let k = key_of desired in
      let (u, owned, rest) =
        both-returns api (must api (own k)) (fetch api k (converge_found api desired plan)) s t h in
      let same_u : Unchanged api s u = λ q. must-live api s u (own k) q owned in
      let v = api.after u (get k) in
      let same_v : Unchanged api s v = λ q. after-Unchanged api u (get k) tt q ∙ same_u q in
      let answered = Answers-of (answer api u k) u k refl in
      Holds-of_equal s v t k _ same_v (
        subst (λ l. Holds v t k (some (converged desired plan l))) (same_v k)
          (converge_found-Holds desired plan (answer api u k) v t keeps
            (subst (Answers (answer api u k)) (sym (after-Unchanged api u (get k) tt k)) answered)
            rest))

  delete_found-Holds :
      (tolerant : Bool) (k : Key) (f : Found) (s t : api.State)
      → Answers f (api.live s k)
      → delete_found api tolerant k f s ≡ (returns tt, t)
      → Holds s t k none
  unfolding delete_found Answers
  delete_found-Holds tolerant k (found o) s t live h = Holds-delete s t k h
  delete_found-Holds tolerant k not_found s t live h = Holds-done s t k none live h
  delete_found-Holds true k no_match s t live h = Holds-done s t k none live h
  delete_found-Holds false k no_match s t live h = absurd (cc (ap (λ p. p.0) h))
  delete_found-Holds tolerant k failed s t live h = absurd (cc (ap (λ p. p.0) h))

  -- After a deletion that returns without an error, the key holds nothing, and every other key what
  -- it held.
  pub delete_if_exists-Holds :
      (tolerant : Bool) (k : Key) (s t : api.State)
      → delete_if_exists api tolerant k s ≡ (returns tt, t)
      → Holds s t k none
  unfolding delete_if_exists
  delete_if_exists-Holds tolerant k s t h =
      let v = api.after s (get k) in
      let same_v = after-Unchanged api s (get k) tt in
      Holds-of_equal s v t k none same_v (
        delete_found-Holds tolerant k (answer api s k) v t
          (subst (Answers (answer api s k)) (sym (same_v k)) (Answers-of (answer api s k) s k refl))
          h)

  Holds-must_be_gone :
      (s t : api.State) (k : Key) → must_be_gone api k s ≡ (returns tt, t) → Holds s t k none
  unfolding effect
  Holds-must_be_gone s t k h q =
      let to_t = λ (o : Option Object) (e : api.live (api.after s (delete k)) q ≡ o).
        subst (λ u. api.live u q ≡ o) (ap (λ p. p.1) h) e in
      elim (Bool-cases (api.accepts s (delete k))) [
        | inl e ↦ to_t _ (api.live_after_accepted s (delete k) q e)
        | inr e ↦ elim (Bool-cases (api.missing s k)) [
          | inl m ↦ to_t _ (
              api.live_after_refused s (delete k) q e
              ∙ ground (arith, api.live_if_missing s k m, same_key_iff k q))
          | inr m ↦ absurd (ground arith)
        ]
      ]

  clean_found-Holds :
      (k : Key) (f : Found) (s t : api.State)
      → Answers f (api.live s k)
      → clean_found api k f s ≡ (returns tt, t)
      → Holds s t k none
  unfolding clean_found Answers
  clean_found-Holds k (found o) s t live h = Holds-must_be_gone s t k h
  clean_found-Holds k not_found s t live h = Holds-done s t k none live h
  clean_found-Holds k no_match s t live h = absurd (cc (ap (λ p. p.0) h))
  clean_found-Holds k failed s t live h = absurd (cc (ap (λ p. p.0) h))

  pub clean_up-Holds :
      (k : Key) (s t : api.State) → clean_up api k s ≡ (returns tt, t) → Holds s t k none
  unfolding clean_up
  clean_up-Holds k s t h =
      let v = api.after s (get k) in
      let same_v = after-Unchanged api s (get k) tt in
      Holds-of_equal s v t k none same_v (
        clean_found-Holds k (answer api s k) v t
          (subst (Answers (answer api s k)) (sym (same_v k)) (Answers-of (answer api s k) s k refl))
          h)
