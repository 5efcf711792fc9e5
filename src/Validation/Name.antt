-- ===== src/Validation/Name.antt =====
-- internal/validation/validate.go: ValidateBindplaneName. The name is walked both by its UTF-8
-- bytes and by its runes; the tables of the package unicode are a parameter.
pub mod Dns
use bindplane_operator.Prelude.{
  ℕ, ◌+◌, ◌/◌, ◌%◌, Bool, true, false, not, ◌&&◌, ◌||◌, String, List, [], ◌∷◌, ◌++◌, Option, none,
  some, codes, length, leb, ltb, nat_eq, if◌then◌else◌,
}
use bindplane_operator.Validation.Errors.{
  Error, name_empty, name_too_long, name_start, name_end, name_character, ◌>>◌, fail_if,
}

-- unicode.IsLetter, IsLower and IsDigit
pub record Unicode : Type 0 where
  pub is_letter : ℕ → Bool
  pub is_lower : ℕ → Bool
  pub is_digit : ℕ → Bool

-- maxResourceNamePrefixLen
abbrev pub max_resource_name_prefix_len : ℕ
max_resource_name_prefix_len = 47

-- The bytes of a rune.
unfoldable pub utf8 : ℕ → List ℕ
utf8 c =
    if ltb c 0x80
    then c ∷ []
    else if ltb c 0x800
    then (0xc0 + c / 64) ∷ (0x80 + c % 64) ∷ []
    else if ltb c 0x10000
    then (0xe0 + c / 4096) ∷ (0x80 + c / 64 % 64) ∷ (0x80 + c % 64) ∷ []
    else (0xf0 + c / 262144) ∷ (0x80 + c / 4096 % 64) ∷ (0x80 + c / 64 % 64) ∷ (0x80 + c % 64) ∷ []

unfoldable pub bytes : List ℕ → List ℕ
bytes [] = []
bytes (c ∷ cs) = utf8 c ++ bytes cs

-- The last byte, where there is a first.
unfoldable pub last_of : ℕ → List ℕ → ℕ
last_of b [] = b
last_of b (c ∷ cs) = last_of c cs

abbrev pub is_end_byte : ℕ → Bool
is_end_byte b = (leb b'a' b && leb b b'z') || (leb b'0' b && leb b b'9')

module _ (u : Unicode) where
  -- The loop over the runes; i is the position of the rune's first byte.
  unfoldable pub check_characters : ℕ → List ℕ → Option Error
  check_characters i [] = none
  check_characters i (c ∷ cs) =
      fail_if (not (nat_eq c b'-') && not (u.is_lower c) && not (u.is_digit c)) (name_character c i)
      >> check_characters (i + length (utf8 c)) cs

  unfoldable pub check_bytes : List ℕ → Option Error
  check_bytes [] = some name_empty
  check_bytes (b ∷ bs) =
      fail_if (ltb max_resource_name_prefix_len (length (b ∷ bs))) name_too_long
      >> fail_if (not (u.is_letter b) || not (u.is_lower b)) name_start
      >> fail_if (not (is_end_byte (last_of b bs))) name_end

  -- ValidateBindplaneName
  unfoldable pub validate_bindplane_name : String → Option Error
  unfolding check_characters check_bytes
  validate_bindplane_name name = check_bytes (bytes (codes name)) >> check_characters 0 (codes name)
