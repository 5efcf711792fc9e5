-- ===== src/Validation/ExtraEnv/Accepts.antt =====
-- Which extra variables are accepted.
use bindplane_operator.Prelude.{
  ℕ, suc, ◌≡◌, ◌↔◌, ◌⊎◌, Bool, true, false, String, List, [], ◌∷◌, none, All, In, member_iff,
  has_prefix, arith,
}
use bindplane_operator.Kube.{EnvVar}
use bindplane_operator.Validation.ExtraEnv.{
  reserved_extra_env_names, check_extra_env, validate_extra_env,
}

-- A variable that a user may set.
abbrev pub IsUserName : Bool → String → Type 0
IsUserName allow n =
    (¬ In n reserved_extra_env_names) × ((allow ≡ true) ⊎ (has_prefix n "BINDPLANE_" ≡ false))

check_extra_env-eq-none_iff :
    (path : String) (allow : Bool) (i : ℕ) (vars : List EnvVar)
    → (check_extra_env path allow i vars ≡ none) ↔ All (λ v. IsUserName allow v.name) vars
unfolding check_extra_env
check_extra_env-eq-none_iff path allow i [] = ground arith
check_extra_env-eq-none_iff path allow i (v ∷ vs) = ground (
  arith,
  check_extra_env-eq-none_iff path allow (suc i) vs,
  member_iff v.name reserved_extra_env_names,
)

-- The extra variables are accepted exactly when none has a reserved name, and none starts with
-- BINDPLANE_ unless the operator's flag allows it.
pub validate_extra_env-eq-none_iff :
    (path : String) (vars : List EnvVar) (allow : Bool)
    → (validate_extra_env path vars allow ≡ none) ↔ All (λ v. IsUserName allow v.name) vars
unfolding validate_extra_env
validate_extra_env-eq-none_iff path vars allow = check_extra_env-eq-none_iff path allow 0 vars
