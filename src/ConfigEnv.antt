-- ===== src/ConfigEnv.antt =====
-- internal/controller/config_env.go: the environment variables that the configuration becomes.
pub mod Auth
pub mod Network
pub mod Telemetry
pub mod Services
pub mod Nats
pub mod Common
pub mod Emits
pub mod AuthNames
pub mod PartNames
pub mod ServiceNames
pub mod Majority
pub mod Override
use bindplane_operator.Prelude.{
  ℤ, Bool, true, false, String, List, [], ◌∷◌, Option, none, some, ◌==◌, if◌then◌else◌,
}
use bindplane_operator.Kube.{EnvVar, SecretKeySelector, EnvVarSource, null}

-- A variable with a value, and one that is read from a Secret.
abbrev pub plain : String → String → EnvVar
plain name value = record { name = name; value = value; value_from = none }

abbrev pub from_secret : String → SecretKeySelector → EnvVar
from_secret name ref = record {
  name = name;
  value = "";
  value_from = some (record { field_ref = none; secret_key_ref = some ref; other = null });
}

-- A key of a Secret that the operator manages.
abbrev pub key_of : (name key : String) → SecretKeySelector
key_of name key = record { name = name; key = key; optional = none }

-- secretOrValue
unfoldable pub secret_or_value : String → String → Option SecretKeySelector → Option EnvVar
secret_or_value name value (some ref) = some (from_secret name ref)
secret_or_value name value none = if value == "" then none else some (plain name value)

-- `if value != "" { envVars = append(envVars, …) }`
abbrev pub unless_empty : String → String → List EnvVar
unless_empty name value = if value == "" then [] else plain name value ∷ []

-- The variable, with that value, under a test.
abbrev pub when : Bool → String → String → List EnvVar
when b name value = if b then plain name value ∷ [] else []

-- `s := value; if s == "" { s = d }`
abbrev pub or_default : String → String → String
or_default value d = if value == "" then d else value

-- The variables of what a pointer points to; nil gives none.
abbrev pub each {ℓ} : {A : Type ℓ} → Option A → (A → List EnvVar) → List EnvVar
each none f = []
each (some a) f = f a
