-- ===== src/Validation/Errors.antt =====
-- internal/validation: the errors of the validators, one constructor for each message, with the
-- arguments of its format. A Go `error` is an `Option Error`.
use bindplane_operator.Prelude.{
  ℕ, ℤ, ◌≡◌, ◌↔◌, Bool, true, false, String, Option, none, some, arith,
}

pub data Error : Type 0 where
  name_empty name_too_long name_start name_end : Error
  name_character : (code position : ℕ) → Error
  version_empty : Error
  too_few_replicas : (path : String) → ℤ → Error
  image_whitespace image_scheme : (path : String) → Error
  strategy_and_rollout : Error
  budget_both : (path : String) → Error
  budget_negative : (path : String) → ℤ → Error
  budget_not_percent : (path value : String) → Error
  env_reserved env_bindplane : (path : String) → (i : ℕ) → (name : String) → Error
  tls_without_issuer : Error
  license_not_one : Error
  status_key : (i : ℕ) → (key : String) → Error
  missing : (path : String) → Error
  not_duration not_positive not_one_hour : (path value : String) → Error
  volume_name volume_duplicate volume_reserved : (path : String) → (i : ℕ) → (name : String) → Error
  volume_host_path volume_source : (path : String) → (i : ℕ) → Error
  mount_relative mount_duplicate mount_reserved mount_unknown :
      (path : String) → (i : ℕ) → (mount : String) → Error

-- `if err := m; err != nil { return err }; return k`
infixl 5 ◌>>◌
abbrev pub ◌>>◌ : Option Error → Option Error → Option Error
none >> k = k
some e >> k = some e

-- `if b { return e }`
abbrev pub fail_if : Bool → Error → Option Error
fail_if true e = some e
fail_if false e = none

-- A check of what a pointer points to; nil passes.
abbrev pub on {ℓ} : {A : Type ℓ} → Option A → (A → Option Error) → Option Error
on none check = none
on (some a) check = check a

pub >>-eq-none_iff : (m k : Option Error) → ((m >> k) ≡ none) ↔ ((m ≡ none) × (k ≡ none))
>>-eq-none_iff none k = ground arith
>>-eq-none_iff (some e) k = ground arith

pub fail_if-eq-none_iff : (b : Bool) (e : Error) → (fail_if b e ≡ none) ↔ (b ≡ false)
fail_if-eq-none_iff true e = ground arith
fail_if-eq-none_iff false e = ground arith

-- What holds of what a pointer points to, where it is not nil; and where it must not be nil.
abbrev pub Given {ℓ} : {A : Type ℓ} → (A → Type 0) → Option A → Type 0
Given P none = Unit
Given P (some a) = P a

abbrev pub Present {ℓ} : {A : Type ℓ} → (A → Type 0) → Option A → Type 0
Present P none = ⊥
Present P (some a) = P a

module _ {ℓ} {A : Type ℓ} (check : A → Option Error) (P : A → Type 0) where
  pub on-eq-none_iff :
      ((a : A) → (check a ≡ none) ↔ P a) → (o : Option A) → (on o check ≡ none) ↔ Given P o
  on-eq-none_iff h none = ground arith
  on-eq-none_iff h (some a) = h a
