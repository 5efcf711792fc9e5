-- ===== src/Secrets/Once.antt =====
-- internal/controller/session_secret.go and status_secret.go: the calls of the two reconcilers.
use bindplane_operator.Prelude.{◌≡◌, String, List, [], ◌∷◌, Option, Bool-cases, inl, inr, arith}
use bindplane_operator.Crd.{Bindplane}
use bindplane_operator.Secrets.{
  has_session_secret, create_value, create_missing, ensure_secret, reconcile_session_secret,
  reconcile_status_secret, needs_no_status_secret,
}
use bindplane_operator.Cluster.{Call, get_secret, create_secret, not_found, Server}

module _ (server : Server) where
  -- The last call is a Get of that Secret, which the server did not find.
  abbrev pub Missing : String → List Call → Type 0
  Missing name [] = ⊥
  Missing name (get_secret n ∷ cs) = (n ≡ name) × (server.answer cs (get_secret n) ≡ not_found)
  Missing name (c ∷ cs) = ⊥

  -- No Secret is created over one that is there.
  abbrev pub CreatesOnce : List Call → Type 0
  CreatesOnce [] = Unit
  CreatesOnce (create_secret name key v ∷ cs) = Missing name cs × CreatesOnce cs
  CreatesOnce (c ∷ cs) = CreatesOnce cs

module _ (server : Server) (value : Option String) where
  ensure_once :
      (name key : String) (b : Bindplane) (cs : List Call)
      → CreatesOnce server cs
      → CreatesOnce server (ensure_secret server value name key b cs).2
  unfolding ensure_secret create_missing create_value
  ensure_once name key b cs h = ground arith

  -- Whatever the server answers, a Secret of the session or the status check is created only right
  -- after a Get that did not find it: one that exists is never overwritten.
  pub reconcile_secrets-CreatesOnce :
      (b : Bindplane) (cs : List Call)
      → CreatesOnce server cs
      → CreatesOnce server (reconcile_session_secret server value b cs).2
        × CreatesOnce server (reconcile_status_secret server value b cs).2
  unfolding reconcile_session_secret reconcile_status_secret
  reconcile_secrets-CreatesOnce b cs h = (
    elim (Bool-cases (has_session_secret b.spec.config.auth)) [
      | inl e ↦ rw e h
      | inr e ↦ rw e (ensure_once _ _ b cs h)
    ],
    elim (Bool-cases (needs_no_status_secret b.spec.config.status)) [
      | inl e ↦ rw e h
      | inr e ↦ rw e (ensure_once _ _ b cs h)
    ],
  )
