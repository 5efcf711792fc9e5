-- ===== src/ConfigEnv/Emits.antt =====
-- The names of the variables of a list, against a list of names that does not depend on the
-- configuration: each variable has its place in it, and the order is kept.
use bindplane_operator.ConfigEnv.{ℤ, secret_or_value, unless_empty, when, each}
use bindplane_operator.Prelude.{
  ◌≡◌, refl, sym, ◌∙◌, Bool, true, false, String, List, [], ◌∷◌, ◌++◌, Option, none, some, In, inl,
  inr, Distinct, to_list, ◌==◌, Bool-cases, if◌then◌else◌,
}
use bindplane_operator.Kube.{EnvVar, SecretKeySelector}
use bindplane_operator.EnvVars.Effective.{Absent, HasDistinctNames}
use bindplane_operator.ConfigEnv.Auth.{path_unless_empty, joined}
use bindplane_operator.ConfigEnv.Network.{number_of}

pub data Emits : List String → List EnvVar → Type 0 where
  done : Emits [] []
  omit : {n : String} {ns : List String} {vs : List EnvVar} → Emits ns vs → Emits (n ∷ ns) vs
  emit :
      {n : String} {ns : List String} {v : EnvVar} {vs : List EnvVar}
      → v.name ≡ n
      → Emits ns vs
      → Emits (n ∷ ns) (v ∷ vs)

-- Two lists, one after the other.
infixr 5 ◌then◌
pub ◌then◌ :
    {ns ms : List String} {vs ws : List EnvVar}
    → Emits ns vs
    → Emits ms ws
    → Emits (ns ++ ms) (vs ++ ws)
done then k = k
omit h then k = omit (h then k)
emit e h then k = emit e (h then k)

pub nothing : (ns : List String) → Emits ns []
nothing [] = done
nothing (n ∷ ns) = omit (nothing ns)

pub under_if :
    {ns : List String} {vs ws : List EnvVar} (b : Bool)
    → Emits ns vs
    → Emits ns ws
    → Emits ns (if b then vs else ws)
under_if true h k = h
under_if false h k = k

pub unless_empty-Emits : (n value : String) → Emits (n ∷ []) (unless_empty n value)
unless_empty-Emits n value = under_if (value == "") (nothing (n ∷ [])) (emit refl done)

pub path-Emits : (n mount key : String) → Emits (n ∷ []) (path_unless_empty n mount key)
path-Emits n mount key = under_if (key == "") (nothing (n ∷ [])) (emit refl done)

pub when-Emits : (b : Bool) (n value : String) → Emits (n ∷ []) (when b n value)
when-Emits b n value = under_if b (emit refl done) (nothing (n ∷ []))

pub secret_or_value-Emits :
    (n value : String) (ref : Option SecretKeySelector)
    → Emits (n ∷ []) (to_list (secret_or_value n value ref))
unfolding secret_or_value
secret_or_value-Emits n value (some ref) = emit refl done
secret_or_value-Emits n value none = elim (Bool-cases (value == "")) [
  | inl e ↦ rw e (nothing (n ∷ []))
  | inr e ↦ rw e (emit refl done)
]

pub joined-Emits : (n : String) (ss : List String) → Emits (n ∷ []) (joined n ss)
joined-Emits n [] = omit done
joined-Emits n (s ∷ ss) = emit refl done

pub number_of-Emits : (n : String) (i : Option ℤ) → Emits (n ∷ []) (number_of n i)
number_of-Emits n none = omit done
number_of-Emits n (some i) = emit refl done

pub each-Emits {ℓ} :
    {A : Type ℓ} (ns : List String) (f : A → List EnvVar)
    → ((a : A) → Emits ns (f a))
    → (o : Option A) → Emits ns (each o f)
each-Emits ns f h none = nothing ns
each-Emits ns f h (some a) = h a

-- Names that are not of the list are not of the variables.
pub Emits-Absent :
    {ns : List String} {vs : List EnvVar} (n : String) → Emits ns vs → ¬ In n ns → Absent n vs
Emits-Absent n done k = tt
Emits-Absent n (omit h) k = Emits-Absent n h (λ i. k (inr i))
Emits-Absent n (emit e h) k = ((λ p. k (inl (sym p ∙ e))), Emits-Absent n h (λ i. k (inr i)))

-- Distinct names are emitted once at most.
pub Emits-HasDistinctNames :
    {ns : List String} {vs : List EnvVar} → Emits ns vs → Distinct ns → HasDistinctNames vs
Emits-HasDistinctNames done d = tt
Emits-HasDistinctNames (omit h) (k, d) = Emits-HasDistinctNames h d
Emits-HasDistinctNames {vs = v ∷ vs} (emit e h) (k, d) =
    (Emits-Absent v.name h (λ i. k (rw e at i)), Emits-HasDistinctNames h d)
