-- ===== src/Regexp.antt =====
-- Go's regexp package, as far as the operator uses it: classes of characters, sequence, choice,
-- repetition, and the match of a whole text (the patterns are anchored by ^ and $).
pub mod Language
use bindplane_operator.Prelude.{
  ℕ, zero, suc, Bool, true, false, ◌&&◌, ◌||◌, List, [], ◌∷◌, leb, nat_eq, if◌then◌else◌,
}

pub data Regex : Type 0 where
  fail : Regex
  eps : Regex
  range : (lo hi : ℕ) → Regex
  seq : Regex → Regex → Regex
  alt : Regex → Regex → Regex
  star : Regex → Regex

-- One character.
abbrev pub lit : ℕ → Regex
lit c = range c c

-- `r?` and `r{n}`
abbrev pub opt : Regex → Regex
opt r = alt eps r

abbrev pub times : ℕ → Regex → Regex
times zero r = eps
times (suc n) r = seq r (times n r)

unfoldable pub nullable : Regex → Bool
nullable fail = false
nullable eps = true
nullable (range lo hi) = false
nullable (seq r s) = nullable r && nullable s
nullable (alt r s) = nullable r || nullable s
nullable (star r) = true

-- What is left to match after the character c.
unfoldable pub deriv : ℕ → Regex → Regex
deriv c fail = fail
deriv c eps = fail
deriv c (range lo hi) = if leb lo c && leb c hi then eps else fail
deriv c (seq r s) =
    let whole = alt (seq (deriv c r) s) (deriv c s) in
    let first = seq (deriv c r) s in if nullable r then whole else first
deriv c (alt r s) = alt (deriv c r) (deriv c s)
deriv c (star r) = seq (deriv c r) (star r)

-- MatchString of an anchored pattern.
unfoldable pub match_string : Regex → List ℕ → Bool
match_string r [] = nullable r
match_string r (c ∷ cs) = match_string (deriv c r) cs
