-- ===== src/Prelude/Split.antt =====
-- strings.Split at commas and strings.TrimSpace.
use Prim.Native.Char.{code}
use Prim.Native.Nat.{ℕ}
use Prim.Native.String
use Prim.Native.String.{String}
use mathlib.Core.Path.{◌≡◌, refl}
use mathlib.Core.Bool.{Bool, ◌&&◌, ◌||◌}
use mathlib.Core.List.{List, [], ◌∷◌}
use bindplane_operator.Prelude.Tests.{leb, nat_eq, if◌then◌else◌}
use bindplane_operator.Prelude.Text.{◌==◌}

-- A character in front of the first text; a list of parts is never empty.
on_first : String → List String → List String
on_first c [] = c ∷ []
on_first c (p ∷ ps) = String.◌++◌ c p ∷ ps

unfoldable pub split_at_commas : String → List String
unfolding on_first
split_at_commas String.[] = "" ∷ []
split_at_commas (String.◌∷◌ c s) =
    let rest = split_at_commas s in
    if nat_eq (code c) 44 then "" ∷ rest else on_first (String.◌∷◌ c String.[]) rest

-- unicode.IsSpace
unfoldable pub is_space : ℕ → Bool
is_space c =
    leb 9 c && leb c 13
    || nat_eq c 32
    || nat_eq c 133
    || nat_eq c 160
    || nat_eq c 5760
    || leb 8192 c && leb c 8202
    || nat_eq c 8232
    || nat_eq c 8233
    || nat_eq c 8239
    || nat_eq c 8287
    || nat_eq c 12288

trim_left : String → String
trim_left String.[] = ""
trim_left (String.◌∷◌ c s) = if is_space (code c) then trim_left s else String.◌∷◌ c s

trim_right : String → String
trim_right String.[] = ""
trim_right (String.◌∷◌ c s) =
    let rest = trim_right s in if rest == "" && is_space (code c) then "" else String.◌∷◌ c rest

unfoldable pub trim_space : String → String
unfolding trim_left trim_right is_space
trim_space s = trim_right (trim_left s)

split_example : split_at_commas "a,,bc" ≡ "a" ∷ "" ∷ "bc" ∷ []
unfolding split_at_commas
split_example = refl

trim_example : trim_space "  a b " ≡ "a b"
unfolding trim_space
trim_example = refl
