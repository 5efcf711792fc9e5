-- ===== src/GoRuntime/Effect.antt =====
-- What the two variables are in the container that results.
use bindplane_operator.Prelude.{◌≡◌, refl, String, List, [], ◌∷◌, arith}
use bindplane_operator.Kube.{EnvVar, Container}
use bindplane_operator.EnvVars.{upsert_env_var}
use bindplane_operator.EnvVars.Effective.{
  effective, first_some, HasDistinctNames, upsert-HasDistinctNames, effective-upsert,
}
use bindplane_operator.GoRuntime.{
  QuantityOps, upsert_all, get_go_runtime_env_vars, apply_go_runtime_env_vars,
}

pub effective-upsert_all :
    (n : String) (env evs : List EnvVar)
    → HasDistinctNames env
    → effective n (upsert_all env evs) ≡ first_some (effective n evs) (effective n env)
unfolding upsert_all effective
effective-upsert_all n env [] h = refl
effective-upsert_all n env (ev ∷ evs) h = ground (
  arith,
  effective-upsert_all n (upsert_env_var env ev) evs (upsert-HasDistinctNames env ev h),
  effective-upsert n env ev h,
)

-- In a container whose variables have distinct names, GOMAXPROCS and GOMEMLIMIT take effect with
-- the values computed from the container's own resources, and any other variable is what it was.
pub effective-apply_go_runtime_env_vars :
    (q : QuantityOps) (n : String) (c : Container)
    → HasDistinctNames c.env
    → effective n (apply_go_runtime_env_vars q c).env
      ≡ first_some (effective n (get_go_runtime_env_vars q c.resources)) (effective n c.env)
unfolding apply_go_runtime_env_vars
effective-apply_go_runtime_env_vars q n c h =
    effective-upsert_all n c.env (get_go_runtime_env_vars q c.resources) h
