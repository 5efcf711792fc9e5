-- ===== src/Validation/Patterns.antt =====
-- internal/validation/validate.go: the three regular expressions.
pub mod Labels
pub mod Percentages
pub mod Uuids
use bindplane_operator.Prelude.{Bool, String, [], ◌∷◌, ◌≡◌, refl, true, false, codes}
use bindplane_operator.Regexp.{
  Regex, eps, range, seq, alt, star, lit, opt, times, match_string, nullable, deriv,
}

-- ^(100|[1-9]?[0-9])%$
abbrev pub percent_regex : Regex
percent_regex =
    seq
      (alt (seq (lit b'1') (seq (lit b'0') (lit b'0')))
        (seq (opt (range b'1' b'9')) (range b'0' b'9')))
      (lit b'%')

-- [0-9a-f] under (?i)
abbrev pub hex_digit : Regex
hex_digit = alt (range b'0' b'9') (alt (range b'a' b'f') (range b'A' b'F'))

-- (?i)^[0-9a-f]{8}-[0-9a-f]{4}-[0-9a-f]{4}-[0-9a-f]{4}-[0-9a-f]{12}$
abbrev pub uuid_regex : Regex
uuid_regex = seq (times 8 hex_digit) (
    seq (lit b'-') (
      seq (times 4 hex_digit) (
        seq (lit b'-') (
          seq (times 4 hex_digit)
            (seq (lit b'-') (seq (times 4 hex_digit) (seq (lit b'-') (times 12 hex_digit))))))))

abbrev alphanumeric : Regex
alphanumeric = alt (range b'a' b'z') (range b'0' b'9')

-- ^[a-z0-9]([a-z0-9-]*[a-z0-9])?$
abbrev pub dns1123_label_regexp : Regex
dns1123_label_regexp =
    seq alphanumeric (opt (seq (star (alt alphanumeric (lit b'-'))) alphanumeric))

unfoldable pub is_percent : String → Bool
is_percent s = match_string percent_regex (codes s)

unfoldable pub is_uuid : String → Bool
is_uuid s = match_string uuid_regex (codes s)

unfoldable pub is_dns1123_label : String → Bool
is_dns1123_label s = match_string dns1123_label_regexp (codes s)

pattern_tests :
    (is_percent "100%" ≡ true)
    × (is_percent "7%" ≡ true)
    × (is_percent "07%" ≡ false)
    × (is_percent "101%" ≡ false)
    × (is_uuid "123e4567-E89b-12d3-a456-426614174000" ≡ true)
    × (is_uuid "123e4567" ≡ false)
    × (is_dns1123_label "my-vol-1" ≡ true)
    × (is_dns1123_label "-vol" ≡ false)
unfolding is_percent is_uuid is_dns1123_label match_string nullable deriv
pattern_tests = (refl, refl, refl, refl, refl, refl, refl, refl)
