-- ===== src/EnvVars/Effective.antt =====
-- What a container sees of its list of variables: Kubernetes honours the last occurrence of a name.
use bindplane_operator.Prelude.{
  ◌≡◌, ◌≢◌, refl, inl, inr, String, List, [], ◌∷◌, ◌++◌, Option, none, some, All, ◌==◌, eq_iff,
  if◌then◌else◌, arith, Bool-cases,
}
use bindplane_operator.Kube.{EnvVar}
use bindplane_operator.EnvVars.{combine_env_vars, prepend_extra_env, upsert_env_var}

-- The first of two candidates, where there is one.
abbrev pub first_some {ℓ} : {A : Type ℓ} → Option A → Option A → Option A
first_some (some a) o = some a
first_some none o = o

-- The variable of that name that takes effect: its last occurrence.
unfoldable pub effective : String → List EnvVar → Option EnvVar
effective n [] = none
effective n (v ∷ vs) = first_some (effective n vs) (if v.name == n then some v else none)

-- No variable of the list has that name.
abbrev pub Absent : String → List EnvVar → Type 0
Absent n = All (λ v. v.name ≢ n)

-- No name occurs twice.
abbrev pub HasDistinctNames : List EnvVar → Type 0
HasDistinctNames [] = Unit
HasDistinctNames (v ∷ vs) = Absent v.name vs × HasDistinctNames vs

first_some_assoc {ℓ} :
    {A : Type ℓ} (a b c : Option A) → first_some (first_some a b) c ≡ first_some a (first_some b c)
first_some_assoc (some a) b c = refl
first_some_assoc none b c = refl

pub effective-append :
    (n : String) (xs ys : List EnvVar)
    → effective n (xs ++ ys) ≡ first_some (effective n ys) (effective n xs)
unfolding effective
effective-append n [] ys = ground arith
effective-append n (x ∷ xs) ys = ground (arith, effective-append n xs ys)

-- Whatever the extra variables are, a name that the operator sets has the operator's value, and any
-- other name has the user's.
pub effective-prepend_extra_env :
    (n : String) (extra : List EnvVar) (operator : List (List EnvVar))
    → effective n (prepend_extra_env extra operator)
      ≡ first_some (effective n (combine_env_vars operator)) (effective n extra)
unfolding prepend_extra_env
effective-prepend_extra_env n extra operator = effective-append n extra (combine_env_vars operator)

pub effective_of_Absent : (n : String) (vs : List EnvVar) → Absent n vs → effective n vs ≡ none
unfolding effective
effective_of_Absent n [] h = refl
effective_of_Absent n (v ∷ vs) (p, h) = ground (arith, effective_of_Absent n vs h, eq_iff v.name n)

upsert-Absent :
    (n : String) (vs : List EnvVar) (ev : EnvVar)
    → ev.name ≢ n
    → Absent n vs
    → Absent n (upsert_env_var vs ev)
unfolding upsert_env_var
upsert-Absent n [] ev p h = (p, tt)
upsert-Absent n (v ∷ vs) ev p (q, h) =
    ground (arith, upsert-Absent n vs ev p h, eq_iff v.name ev.name)

-- Upserting keeps the names distinct.
pub upsert-HasDistinctNames :
    (vs : List EnvVar) (ev : EnvVar) → HasDistinctNames vs → HasDistinctNames (upsert_env_var vs ev)
unfolding upsert_env_var
upsert-HasDistinctNames [] ev h = (tt, tt)
upsert-HasDistinctNames (v ∷ vs) ev (a, h) = elim (Bool-cases (v.name == ev.name)) [
  | inl same ↦ rw same (rw ((eq_iff v.name ev.name).0 same) at a, h)
  | inr other ↦ rw other (
    upsert-Absent v.name vs ev (ground (arith, eq_iff v.name ev.name)) a,
    upsert-HasDistinctNames vs ev h,
  )
]

-- In a list without duplicates an upsert sets the one name and leaves all others.
pub effective-upsert :
    (n : String) (vs : List EnvVar) (ev : EnvVar)
    → HasDistinctNames vs
    → effective n (upsert_env_var vs ev) ≡ (if ev.name == n then some ev else effective n vs)
unfolding effective upsert_env_var
effective-upsert n [] ev h = refl
effective-upsert n (v ∷ vs) ev (a, h) = ground (
  arith,
  effective-upsert n vs ev h,
  effective_of_Absent v.name vs a,
  eq_iff v.name ev.name,
  eq_iff v.name n,
  eq_iff ev.name n,
)
