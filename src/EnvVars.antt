-- ===== src/EnvVars.antt =====
-- internal/controller: the lists of environment variables of a container
-- (bindplane_controller.go, go_runtime_env.go).
pub mod Effective
use bindplane_operator.Prelude.{Bool, List, [], ◌∷◌, ◌++◌, ◌==◌, if◌then◌else◌}
use bindplane_operator.Kube.{EnvVar}

-- combineEnvVars; the capacity that it computes first is not modelled.
unfoldable pub combine_env_vars : List (List EnvVar) → List EnvVar
combine_env_vars [] = []
combine_env_vars (vars ∷ rest) = vars ++ combine_env_vars rest

-- prependExtraEnv
unfoldable pub prepend_extra_env : List EnvVar → List (List EnvVar) → List EnvVar
unfolding combine_env_vars
prepend_extra_env extra operator = extra ++ combine_env_vars operator

-- upsertEnvVar: the first variable of that name is replaced.
unfoldable pub upsert_env_var : List EnvVar → EnvVar → List EnvVar
upsert_env_var [] ev = ev ∷ []
upsert_env_var (v ∷ vs) ev = if v.name == ev.name then ev ∷ vs else v ∷ upsert_env_var vs ev
