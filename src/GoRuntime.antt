-- ===== src/GoRuntime.antt =====
-- internal/controller/go_runtime_env.go: GOMAXPROCS and GOMEMLIMIT from a container's resources.
-- A quantity's methods are those of k8s.io/apimachinery, a parameter.
pub mod Bounds
pub mod Effect
use bindplane_operator.Prelude.{
  ℤ, pos, Bool, String, List, [], ◌∷◌, ◌++◌, Option, none, some, if◌then◌else◌, leb_ℤ, add64, sub64,
  mul64, quot, lookup, itoa,
}
use bindplane_operator.Kube.{Quantity, ResourceRequirements, EnvVar, Container}
use bindplane_operator.EnvVars.{upsert_env_var}

-- resource.Quantity: IsZero, MilliValue and Value; the last two return an int64.
pub record QuantityOps : Type 0 where
  pub is_zero : Quantity → Bool
  pub milli_value : Quantity → ℤ
  pub value : Quantity → ℤ

-- ceilMilliCPUs
unfoldable pub ceil_milli_cpus : ℤ → ℤ
ceil_milli_cpus milli_cpu =
    if leb_ℤ milli_cpu (pos 0) then pos 1 else quot (add64 milli_cpu (pos 999)) 1000

-- applyMemoryHeadroom; goRuntimeHeadroomP is 10.
unfoldable pub apply_memory_headroom : ℤ → ℤ
apply_memory_headroom bytes =
    let headroom = quot (mul64 bytes (pos 10)) 100 in
    if leb_ℤ bytes (pos 0)
    then pos 1
    else if leb_ℤ (sub64 bytes headroom) (pos 0)
    then pos 1
    else sub64 bytes headroom

module _ (q : QuantityOps) where
  -- `m[k]` where it is present and not zero.
  unfoldable nonzero : String → List (String × Quantity) → Option Quantity
  nonzero k m = elim (lookup k m) [ none ↦ none | some v ↦ if q.is_zero v then none else some v ]

  -- getGoMaxProcsValue
  unfoldable pub get_go_max_procs_value : ResourceRequirements → Option ℤ
  unfolding nonzero
  get_go_max_procs_value r = elim (nonzero "cpu" r.limits) [
    | some limit ↦ some (ceil_milli_cpus (q.milli_value limit))
    | none ↦ elim (nonzero "cpu" r.requests) [
      | some request ↦ some (ceil_milli_cpus (q.milli_value request))
      | none ↦ none
    ]
  ]

  -- getGoMemLimitValue
  unfoldable pub get_go_mem_limit_value : ResourceRequirements → Option ℤ
  unfolding nonzero
  get_go_mem_limit_value r = elim (nonzero "memory" r.limits) [
    | some limit ↦ some (apply_memory_headroom (q.value limit))
    | none ↦ elim (nonzero "memory" r.requests) [
      | some request ↦ some (apply_memory_headroom (q.value request))
      | none ↦ none
    ]
  ]

  unfoldable plain : String → Option ℤ → List EnvVar
  plain name none = []
  plain name (some n) = record { name = name; value = itoa n; value_from = none } ∷ []

  -- getGoRuntimeEnvVars
  unfoldable pub get_go_runtime_env_vars : ResourceRequirements → List EnvVar
  unfolding plain get_go_max_procs_value get_go_mem_limit_value
  get_go_runtime_env_vars r =
      plain "GOMAXPROCS" (get_go_max_procs_value r) ++ plain "GOMEMLIMIT" (get_go_mem_limit_value r)

-- The loop of applyGoRuntimeEnvVars.
unfoldable pub upsert_all : List EnvVar → List EnvVar → List EnvVar
upsert_all env [] = env
upsert_all env (ev ∷ evs) = upsert_all (upsert_env_var env ev) evs

-- applyGoRuntimeEnvVars
unfoldable pub apply_go_runtime_env_vars : QuantityOps → Container → Container
unfolding upsert_all get_go_runtime_env_vars
apply_go_runtime_env_vars q c = record c {
  env = upsert_all c.env (get_go_runtime_env_vars q c.resources);
}
