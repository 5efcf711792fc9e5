-- ===== src/Secrets/Session.antt =====
-- internal/controller/session_secret.go and config_env.go: the session secret that is generated, and
-- the one that the environment refers to.
use bindplane_operator.ConfigEnv.Override.{effective_of_shared}
use bindplane_operator.Prelude.{
  ◌≡◌, ◌↔◌, ◌⊎◌, inl, inr, refl, ap, true, false, String, List, ◌∷◌, Option, none, some, Bool-cases,
  In, In-append, eq_iff, arith, to_list, not, ◌||◌, ◌==◌, is_some,
}
use mathlib.Core.Path.{subst}
use bindplane_operator.ConfigEnv.{plain, secret_or_value, from_secret, key_of}
use bindplane_operator.Kube.{SecretKeySelector, EnvVar}
use bindplane_operator.Crd.{Bindplane, AuthConfig}
use bindplane_operator.Images.{get_resource_name}
use bindplane_operator.ConfigEnv.Auth.{get_auth_config_env_vars}
use bindplane_operator.ConfigEnv.Common.{
  user_session_secret, session_secret_var, get_bindplane_config_env_vars, shared_env_vars,
  get_bindplane_common_env_vars,
}
use bindplane_operator.EnvVars.{combine_env_vars}
use bindplane_operator.EnvVars.Effective.{effective}
use bindplane_operator.Validation.Config.Accepts.{IsGiven}
use bindplane_operator.Secrets.{
  has_session_secret, create_value, create_missing, ensure_secret, reconcile_session_secret,
}
use bindplane_operator.Cluster.{
  Call, own_secret, get_secret, create_secret, accepted, not_found, Server, returns,
}

-- The user gives a session secret, as a text or as a reference.
abbrev pub GivesSession : Option AuthConfig → Type 0
GivesSession none = ⊥
GivesSession (some a) = IsGiven a.session_secret a.session_secret_secret_ref

-- A server that has no Secret yet, and lets Secrets be created.
pub record IsFresh (server : Server) : Type 0 where
  pub owns : (cs : List Call) (name : String) → server.answer cs (own_secret name) ≡ accepted
  pub lacks : (cs : List Call) (name : String) → server.answer cs (get_secret name) ≡ not_found
  pub creates :
      (cs : List Call) (name key value : String)
      → server.answer cs (create_secret name key value) ≡ accepted

has_session_secret_iff :
    (auth : Option AuthConfig) → (has_session_secret auth ≡ true) ↔ GivesSession auth
unfolding has_session_secret
has_session_secret_iff none = ground arith
has_session_secret_iff (some a) = ground (arith, eq_iff a.session_secret "")

user_session_secret-none :
    (auth : Option AuthConfig) → has_session_secret auth ≡ false → user_session_secret auth ≡ none
unfolding has_session_secret user_session_secret secret_or_value
user_session_secret-none none h = refl
user_session_secret-none (some a) h = ground arith

secret_or_value-some :
    (name value : String) (ref : Option SecretKeySelector)
    → (not (value == "") || is_some ref) ≡ true
    → (v : EnvVar) × (secret_or_value name value ref ≡ some v) × (v.name ≡ name)
unfolding secret_or_value
secret_or_value-some name value (some r) h = (from_secret name r, refl, refl)
secret_or_value-some name value none h = (plain name value, ground arith, refl)

user_session_secret-some :
    (auth : Option AuthConfig)
    → has_session_secret auth ≡ true
    → (v : EnvVar) × (user_session_secret auth ≡ some v) × (v.name ≡ "BINDPLANE_SESSION_SECRET")
unfolding has_session_secret user_session_secret
user_session_secret-some none h = absurd (cc)
user_session_secret-some (some a) h =
    secret_or_value-some "BINDPLANE_SESSION_SECRET" a.session_secret a.session_secret_secret_ref h

-- The variable is one of the shared environment.
module _ (b : Bindplane) where
  abbrev session_var : EnvVar
  session_var = session_secret_var b (user_session_secret b.spec.config.auth)

  session_var-In-config : In session_var (get_bindplane_config_env_vars b)
  unfolding get_bindplane_config_env_vars
  session_var-In-config =
      In-append session_var
        (to_list (
          secret_or_value "BINDPLANE_LICENSE" b.spec.config.license
            b.spec.config.license_secret_ref))
        _
        (inr
          (In-append session_var (get_auth_config_env_vars b.spec.config.auth) _ (inr (inl refl))))

  session_var-In-shared : (health : List EnvVar) → In session_var (shared_env_vars b health)
  unfolding shared_env_vars combine_env_vars
  session_var-In-shared health =
      In-append session_var (get_bindplane_config_env_vars b) _ (inl session_var-In-config)

  session_var-effect :
      (vars : List EnvVar)
      → get_bindplane_common_env_vars b ≡ some vars
      → (v : EnvVar) → session_var ≡ v
      → v.name ≡ "BINDPLANE_SESSION_SECRET"
      → effective "BINDPLANE_SESSION_SECRET" vars ≡ some v
  session_var-effect vars e v is_v named =
      subst (λ n. effective n vars ≡ some v) named
        (subst (λ w. effective w.name vars ≡ some w) is_v
          (effective_of_shared b vars session_var e session_var-In-shared))

pub reconcile_session_secret-refers :
    (server : Server) (value : String) (b : Bindplane) (cs : List Call) (vars : List EnvVar)
    → IsFresh server
    → get_bindplane_common_env_vars b ≡ some vars
    → (GivesSession b.spec.config.auth
        × (reconcile_session_secret server (some value) b cs ≡ (returns tt, b, cs))
        × (v : EnvVar) × (user_session_secret b.spec.config.auth ≡ some v)
        × (effective "BINDPLANE_SESSION_SECRET" vars ≡ some v))
      ⊎ ((¬ GivesSession b.spec.config.auth)
          × (name : String) × (key : String) × (reconcile_session_secret server (some value) b cs
              ≡ (
                returns tt,
                b,
                create_secret name key value ∷ get_secret name ∷ own_secret name ∷ cs,
              ))
          × (effective "BINDPLANE_SESSION_SECRET" vars
              ≡ some (from_secret "BINDPLANE_SESSION_SECRET" (key_of name key))))
unfolding reconcile_session_secret ensure_secret create_missing create_value session_secret_var
reconcile_session_secret-refers server value b cs vars fresh e =
    let auth = b.spec.config.auth in
    elim (Bool-cases (has_session_secret auth)) [
      | inl h ↦
          let (v, u, n) = user_session_secret-some auth h in
          inl (
            (has_session_secret_iff auth).0 h,
            rw h refl,
            v,
            u,
            session_var-effect b vars e v (ap (session_secret_var b) u) n,
          )
      | inr h ↦
          let name = get_resource_name b "session-secret" in
          inr (
            λ g. absurd (cc (h, (has_session_secret_iff auth).1 g)),
            name,
            "session-secret",
            rw
                (
                  h,
                  fresh.owns cs name,
                  fresh.lacks (own_secret name ∷ cs) name,
                  fresh.creates (get_secret name ∷ own_secret name ∷ cs) name "session-secret"
                      value,
                )
                refl,
            session_var-effect b vars e _
                (ap (session_secret_var b) (user_session_secret-none auth h)) refl,
          )
    ]
