-- ===== src/Secrets.antt =====
-- internal/controller/session_secret.go and status_secret.go: the Secrets that the operator
-- generates. The generated value is a parameter, `none` where the source of random bytes fails.
pub mod Once
pub mod Session
use bindplane_operator.Prelude.{
  Bool, true, false, not, ◌||◌, String, List, [], ◌∷◌, Option, none, some, is_some, ◌==◌,
  if◌then◌else◌,
}
use bindplane_operator.Crd.{Bindplane, AuthConfig, StatusConfig}
use bindplane_operator.Images.{get_resource_name}
use bindplane_operator.Cluster.{
  Call, own_secret, get_secret, create_secret, Answer, accepted, not_found, refused, Server, Run,
  ◌>>=◌, ◌>>◌, return, fail, local_copy, ask, must,
}

-- The user has given a session secret.
unfoldable pub has_session_secret : Option AuthConfig → Bool
has_session_secret none = false
has_session_secret (some a) = not (a.session_secret == "") || is_some a.session_secret_secret_ref

abbrev pub is_empty : List String → Bool
is_empty [] = true
is_empty (k ∷ ks) = false

-- The status check is disabled, or the user has given keys.
unfoldable pub needs_no_status_secret : Option StatusConfig → Bool
needs_no_status_secret none = false
needs_no_status_secret (some s) =
    not s.enabled || is_some s.keys_secret_ref || not (is_empty s.keys)

module _ (server : Server) (value : Option String) where
  unfoldable pub create_value : (name key : String) → Option String → Run (Unit {0})
  create_value name key none = fail
  create_value name key (some v) = must server (create_secret name key v)

  -- The answer to the Get: a Secret that exists is left alone.
  unfoldable pub create_missing : (name key : String) → Answer → Run (Unit {0})
  unfolding create_value
  create_missing name key accepted = return tt
  create_missing name key not_found = create_value name key value
  create_missing name key refused = fail

  unfoldable pub ensure_secret : (name key : String) → Run (Unit {0})
  unfolding create_missing
  ensure_secret name key = do
    must server (own_secret name)
    answer ← ask server (get_secret name)
    create_missing name key answer

  -- reconcileSessionSecret
  unfoldable pub reconcile_session_secret : Run (Unit {0})
  unfolding has_session_secret ensure_secret get_resource_name
  reconcile_session_secret = do
    b ← local_copy
    if has_session_secret b.spec.config.auth
        then return tt
        else ensure_secret (get_resource_name b "session-secret") "session-secret"

  -- reconcileStatusSecret
  unfoldable pub reconcile_status_secret : Run (Unit {0})
  unfolding needs_no_status_secret ensure_secret get_resource_name
  reconcile_status_secret = do
    b ← local_copy
    if needs_no_status_secret b.spec.config.status
        then return tt
        else ensure_secret (get_resource_name b "status-secret") "status-keys"
