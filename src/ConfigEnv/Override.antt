-- ===== src/ConfigEnv/Override.antt =====
-- internal/controller/config_env.go and bindplane_controller.go: the shared environment among the
-- other variables of a container.
use bindplane_operator.ConfigEnv.Common.{
  shared_env_vars, get_event_bus_health_env_vars, get_bindplane_common_env_vars,
}
use mathlib.Core.Option
use mathlib.Core.Path.{subst}
use bindplane_operator.Prelude.{
  ◌≡◌, sym, List, [], ◌∷◌, ◌++◌, Option, none, some, In, inl, inr, eq_refl, arith,
}
use bindplane_operator.Kube.{EnvVar}
use bindplane_operator.Crd.{Bindplane}
use bindplane_operator.EnvVars.{combine_env_vars, prepend_extra_env}
use bindplane_operator.EnvVars.Effective.{
  effective, Absent, HasDistinctNames, effective-append, effective_of_Absent,
}
use bindplane_operator.ConfigEnv.ServiceNames.{
  AllSome, get_bindplane_common_env_vars-HasDistinctNames,
}

effective-head :
    (w : EnvVar) (ws : List EnvVar) → Absent w.name ws → effective w.name (w ∷ ws) ≡ some w
unfolding effective
effective-head w ws a = ground (arith, effective_of_Absent w.name ws a, eq_refl w.name)

-- In a list of distinct names each variable takes effect.
effective_of_In :
    (v : EnvVar) (vs : List EnvVar) → HasDistinctNames vs → In v vs → effective v.name vs ≡ some v
unfolding effective
effective_of_In v [] d i = absurd i
effective_of_In v (w ∷ ws) (a, d) (inl e) =
    subst (λ x. effective x.name (w ∷ ws) ≡ some x) (sym e) (effective-head w ws a)
effective_of_In v (w ∷ ws) (a, d) (inr i) = ground (arith, effective_of_In v ws d i)

-- The last of the lists that are combined decides.
effective-combine_env_vars :
    (v : EnvVar) (before : List (List EnvVar)) (vs : List EnvVar)
    → effective v.name vs ≡ some v
    → effective v.name (combine_env_vars (before ++ (vs ∷ []))) ≡ some v
unfolding combine_env_vars effective
effective-combine_env_vars v [] vs h = ground (arith, effective-append v.name vs [])
effective-combine_env_vars v (us ∷ before) vs h = ground (
  arith,
  effective-append v.name us (combine_env_vars (before ++ (vs ∷ []))),
  effective-combine_env_vars v before vs h,
)

-- In the shared environment each variable takes effect.
pub effective_of_common :
    (b : Bindplane) (vars : List EnvVar) (v : EnvVar)
    → get_bindplane_common_env_vars b ≡ some vars
    → In v vars
    → effective v.name vars ≡ some v
effective_of_common b vars v e i =
    effective_of_In v vars
      (of_some (get_bindplane_common_env_vars b) e
        (get_bindplane_common_env_vars-HasDistinctNames b))
      i
  where
    of_some :
        (o : Option (List EnvVar))
        → o ≡ some vars
        → AllSome HasDistinctNames o
        → HasDistinctNames vars
    of_some none e d = ground arith
    of_some (some us) e d = ground arith

shared-In_of_health :
    (b : Bindplane) (vars : List EnvVar) (v : EnvVar)
    → ((health : List EnvVar) → In v (shared_env_vars b health))
    → (o : Option (List EnvVar)) → Option.map (shared_env_vars b) o ≡ some vars
    → In v vars
shared-In_of_health b vars v h none e = absurd (cc)
shared-In_of_health b vars v h (some health) e = subst (In v) (cc) (h health)

-- A variable that is shared, whatever the event bus adds, takes effect in the shared environment.
pub effective_of_shared :
    (b : Bindplane) (vars : List EnvVar) (v : EnvVar)
    → get_bindplane_common_env_vars b ≡ some vars
    → ((health : List EnvVar) → In v (shared_env_vars b health))
    → effective v.name vars ≡ some v
unfolding get_bindplane_common_env_vars
effective_of_shared b vars v e h =
    effective_of_common b vars v e
      (shared-In_of_health b vars v h (get_event_bus_health_env_vars b) e)

-- A variable of the shared environment takes effect in a container that combines it last, whatever
-- the user's extra variables and the operator's other lists are.
pub effective-prepend_common :
    (b : Bindplane) (vars extra : List EnvVar) (before : List (List EnvVar)) (v : EnvVar)
    → get_bindplane_common_env_vars b ≡ some vars
    → In v vars
    → effective v.name (prepend_extra_env extra (before ++ (vars ∷ []))) ≡ some v
unfolding prepend_extra_env
effective-prepend_common b vars extra before v e i = ground (
  arith,
  effective-append v.name extra (combine_env_vars (before ++ (vars ∷ []))),
  effective-combine_env_vars v before vars (effective_of_common b vars v e i),
)
