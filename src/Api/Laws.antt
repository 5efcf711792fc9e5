-- ===== src/Api/Laws.antt =====
-- Steps that return: what they leave under each key.
use bindplane_operator.Api.{
  certificates, next, service_accounts, deployments, rollouts, stateful_sets, services,
  pod_disruption_budgets, horizontal_pod_autoscalers, Api, Act, Kind, kind_number, Object, Key,
  same_key, own, get, delete, create, update, Request, effect, found, not_found, no_match, answer,
  both, must,
}
use mathlib.Core.Path.{subst}
use bindplane_operator.Prelude.{
  ℕ, zero, suc, ap, true, false, Option, none, some, ◌≡◌, refl, sym, ◌∙◌, ◌↔◌, inl, inr, eq_iff,
  nat_eq_iff, if◌then◌else◌, Bool-cases, arith,
}
use bindplane_operator.Cluster.{Reply, returns, fails, panics}

kind_at : ℕ → Kind
kind_at zero = service_accounts
kind_at (suc zero) = deployments
kind_at (suc (suc zero)) = rollouts
kind_at (suc (suc (suc zero))) = stateful_sets
kind_at (suc (suc (suc (suc zero)))) = services
kind_at (suc (suc (suc (suc (suc zero))))) = pod_disruption_budgets
kind_at (suc (suc (suc (suc (suc (suc zero)))))) = horizontal_pod_autoscalers
kind_at (suc (suc (suc (suc (suc (suc (suc n))))))) = certificates

kind_at-kind_number : (k : Kind) → kind_at (kind_number k) ≡ k
unfolding kind_at
kind_at-kind_number service_accounts = refl
kind_at-kind_number deployments = refl
kind_at-kind_number rollouts = refl
kind_at-kind_number stateful_sets = refl
kind_at-kind_number services = refl
kind_at-kind_number pod_disruption_budgets = refl
kind_at-kind_number horizontal_pod_autoscalers = refl
kind_at-kind_number certificates = refl

kind_number_inj : (k l : Kind) → kind_number k ≡ kind_number l → k ≡ l
kind_number_inj k l h = sym (kind_at-kind_number k) ∙ ap kind_at h ∙ kind_at-kind_number l

pub same_key_iff : (a b : Key) → (same_key a b ≡ true) ↔ (a ≡ b)
unfolding same_key
same_key_iff a b = ground (
  arith,
  kind_number_inj a.kind b.kind,
  nat_eq_iff (kind_number a.kind) (kind_number b.kind),
  eq_iff a.namespace b.namespace,
  eq_iff a.name b.name,
)

module _ (api : Api) where
  -- A state with the same objects.
  abbrev pub Unchanged : api.State → api.State → Type 0
  Unchanged s t = (q : Key) → api.live t q ≡ api.live s q

  -- What a request that is a reading leaves, accepted or not.
  abbrev pub IsReading : Request → Type 0
  IsReading (own k) = Unit
  IsReading (get k) = Unit
  IsReading r = ⊥

  effect_of_reading :
      (r : Request) (q : Key) (prior : Option Object) → IsReading r → effect r q prior ≡ prior
  unfolding effect
  effect_of_reading (own k) q prior h = refl
  effect_of_reading (get k) q prior h = refl
  effect_of_reading (delete k) q prior h = absurd h
  effect_of_reading (create o) q prior h = absurd h
  effect_of_reading (update o) q prior h = absurd h

  pub after-Unchanged : (s : api.State) (r : Request) → IsReading r → Unchanged s (api.after s r)
  after-Unchanged s r h q = elim (Bool-cases (api.accepts s r)) [
    | inl e ↦ api.live_after_accepted s r q e ∙ effect_of_reading r q (api.live s q) h
    | inr e ↦ api.live_after_refused s r q e
  ]

  pub must-live :
      (s t : api.State) (r : Request) (q : Key)
      → must api r s ≡ (returns tt, t)
      → api.live t q ≡ effect r q (api.live s q)
  must-live s t r q h = elim (Bool-cases (api.accepts s r)) [
    | inl e ↦
        subst (λ u. api.live u q ≡ effect r q (api.live s q)) (ap (λ p. p.1) h)
          (api.live_after_accepted s r q e)
    | inr e ↦ absurd (cc (sym (ap (λ b. if b then returns tt else fails) e) ∙ ap (λ p. p.0) h))
  ]

  next_returns :
      (r : Reply (Unit {0}) × api.State) (k : Act api) (t : api.State)
      → next api r k ≡ (returns tt, t)
      → (u : api.State) × (r ≡ (returns tt, u)) × (k u ≡ (returns tt, t))
  next_returns (returns u, s) k t h = (s, refl, h)
  next_returns (fails, s) k t h = absurd (cc (ap (λ p. p.0) h))
  next_returns (panics, s) k t h = absurd (cc (ap (λ p. p.0) h))

  pub both-returns :
      (m k : Act api) (s t : api.State)
      → both api m k s ≡ (returns tt, t)
      → (u : api.State) × (m s ≡ (returns tt, u)) × (k u ≡ (returns tt, t))
  both-returns m k s t h = next_returns (m s) k t h

  pub answer_found :
      (s : api.State) (q : Key) (o : Object) → answer api s q ≡ found o → api.live s q ≡ some o
  unfolding answer
  answer_found s q o h = ground arith

  pub answer_not_found :
      (s : api.State) (q : Key) → answer api s q ≡ not_found → api.live s q ≡ none
  unfolding answer
  answer_not_found s q h = ground arith

  pub answer_no_match :
      (s : api.State) (q : Key) → answer api s q ≡ no_match → api.knows s q.kind ≡ false
  unfolding answer
  answer_no_match s q h = ground arith
