-- ===== src/Prelude/Text.antt =====
-- Texts. A Go string that is compared whole is a native `String`; where the source looks inside it,
-- `codes` gives its code points.
use Prim.Native.Char.{code}
use Prim.Native.Nat.{ℕ, zero, suc, ◌+◌, ◌/◌, ◌%◌}
use Prim.Native.String
use Prim.Native.String.{String}
use mathlib.Core.Path.{◌≡◌, refl}
use mathlib.Core.Bool.{Bool, true, false, ◌&&◌}
use mathlib.Core.List.{List, [], ◌∷◌}
use mathlib.Core.Logic.{◌⊎◌, inl, inr, ◌≢◌}
use native.Mathlib.Omega.{arith}
use bindplane_operator.Prelude.Tests.{Bool-cases, nat_eq, if◌then◌else◌}
use bindplane_operator.Prelude.Int.{ℤ, pos, negsuc}
pub use text.Mathlib.Text.{◌==◌}
pub use text.Mathlib.TextEquality.{eq_iff}
pub use text.Mathlib.TextPositions.{eq_refl}

infixr 65 ◌^^◌
abbrev pub ◌^^◌ : String → String → String
s ^^ t = String.◌++◌ s t

abbrev pub codes : String → List ℕ
codes String.[] = []
codes (String.◌∷◌ c s) = code c ∷ codes s

-- strings.HasPrefix
abbrev pub codes_prefix : List ℕ → List ℕ → Bool
codes_prefix [] s = true
codes_prefix (p ∷ ps) [] = false
codes_prefix (p ∷ ps) (c ∷ s) = nat_eq p c && codes_prefix ps s

abbrev pub has_prefix : String → String → Bool
has_prefix s p = codes_prefix (codes p) (codes s)

-- strings.Join
unfoldable pub join : String → List String → String
join sep [] = ""
join sep (s ∷ []) = s
join sep (s ∷ t ∷ ts) = s ^^ sep ^^ join sep (t ∷ ts)

-- strconv.Itoa
digit : ℕ → String
digit zero = "0"
digit (suc zero) = "1"
digit (suc (suc zero)) = "2"
digit (suc (suc (suc zero))) = "3"
digit (suc (suc (suc (suc zero)))) = "4"
digit (suc (suc (suc (suc (suc zero))))) = "5"
digit (suc (suc (suc (suc (suc (suc zero)))))) = "6"
digit (suc (suc (suc (suc (suc (suc (suc zero))))))) = "7"
digit (suc (suc (suc (suc (suc (suc (suc (suc zero)))))))) = "8"
digit (suc (suc (suc (suc (suc (suc (suc (suc (suc n))))))))) = "9"

decimal : ℕ → ℕ → String
decimal zero n = ""
decimal (suc f) n =
    let more = decimal f (n / 10) ^^ digit (n % 10) in if nat_eq (n / 10) 0 then digit n else more

unfoldable pub itoa : ℤ → String
unfolding decimal digit
itoa (pos n) = decimal (n + 1) n
itoa (negsuc n) = "-" ^^ decimal (n + 2) (n + 1)

itoa_negative : itoa (negsuc 11) ≡ "-12"
unfolding itoa
itoa_negative = refl

itoa_large : itoa (pos 9090) ≡ "9090"
unfolding itoa
itoa_large = refl

-- A split on whether two texts are equal.
pub text_cases : (s t : String) → (s ≡ t) ⊎ (s ≢ t)
text_cases s t = elim (Bool-cases (s == t)) [
  | inl e ↦ inl ((eq_iff s t).0 e)
  | inr e ↦ inr (ground (arith, eq_iff s t))
]
