-- ===== src/Validation/Patterns/Percentages.antt =====
-- What the pattern of a percentage accepts.
use bindplane_operator.Prelude.{
  ℕ, zero, suc, pos, ◌+◌, ◌-◌, ◌*◌, ◌/◌, ◌%◌, ◌≤◌, ◌<◌, ◌≡◌, refl, sym, ◌∙◌, ◌↔◌, inl, inr, Bool,
  true, false, ◌&&◌, String, List, [], ◌∷◌, codes, ◌^^◌, itoa, nat_eq, ltb, if◌then◌else◌, arith,
  Bool-cases,
}
use bindplane_operator.Regexp.{lit}
use bindplane_operator.Regexp.Language.{Matches, match_string_iff}
use bindplane_operator.Validation.Patterns.{percent_regex, is_percent}

-- The text of n percent, n in decimal.
abbrev pub percent_text : ℕ → List ℕ
percent_text n = codes (itoa (pos n) ^^ "%")

abbrev digits_of : ℕ → List ℕ
digits_of n =
    if ltb n 10
    then (48 + n) ∷ 37 ∷ []
    else if ltb n 100
    then (48 + n / 10) ∷ (48 + n % 10) ∷ 37 ∷ []
    else 49 ∷ 48 ∷ 48 ∷ 37 ∷ []

same : List ℕ → List ℕ → Bool
same [] [] = true
same (x ∷ xs) (y ∷ ys) = nat_eq x y && same xs ys
same _ _ = false

same_sound : (xs ys : List ℕ) → same xs ys ≡ true → xs ≡ ys
unfolding same
same_sound [] [] h = refl
same_sound (x ∷ xs) (y ∷ ys) h = ground (arith, same_sound xs ys)
same_sound [] (y ∷ ys) h = cc
same_sound (x ∷ xs) [] h = cc

table : ℕ → Bool
unfolding same
table zero = true
table (suc n) = same (percent_text n) (digits_of n) && table n

table_sound : (n k : ℕ) → table n ≡ true → k < n → percent_text k ≡ digits_of k
unfolding table
table_sound zero k h p = elim p [ ]
table_sound (suc n) k h p =
    ground (arith, same_sound (percent_text n) (digits_of n), table_sound n k)

table_checked : table 101 ≡ true
unfolding table itoa
table_checked = refl

percent_text_lem : (n : ℕ) → n ≤ 100 → percent_text n ≡ digits_of n
percent_text_lem n h = table_sound 101 n table_checked (omega arith)

percent_sound : (w : List ℕ) → Matches percent_regex w → (n : ℕ) × (n ≤ 100) × (w ≡ digits_of n)
percent_sound w
      (
        xs,
        ys,
        e,
        inl (us, vs, ex, (a, la, ha, ea), (cs, ds, eb, (b, lb, hb, ec), (c, lc, hc, ed))),
        (q, lq, hq, ey),
      ) =
    (100, omega arith, ground arith)
percent_sound w (xs, ys, e, inr (us, vs, ex, inl nil, (d, ld, hd, eb)), (q, lq, hq, ey)) =
    (d - 48, omega arith, ground arith)
percent_sound w
      (xs, ys, e, inr (us, vs, ex, inr (a, la, ha, ea), (d, ld, hd, eb)), (q, lq, hq, ey)) =
    ((a - 48) * 10 + (d - 48), omega arith, ground arith)

abbrev percent_sign : Matches (lit 37) (37 ∷ [])
percent_sign = (37, omega arith, omega arith, refl)

percent_complete : (n : ℕ) → n ≤ 100 → Matches percent_regex (digits_of n)
percent_complete n h = elim (Bool-cases (ltb n 10)) [
  | inl small ↦ rw small (
    (48 + n) ∷ [],
    37 ∷ [],
    refl,
    inr ([], (48 + n) ∷ [], refl, inl refl, (48 + n, omega arith, ground arith, refl)),
    percent_sign,
  )
  | inr large ↦ rw large (elim (Bool-cases (ltb n 100)) [
    | inl two ↦ rw two (
      (48 + n / 10) ∷ (48 + n % 10) ∷ [],
      37 ∷ [],
      refl,
      inr (
        (48 + n / 10) ∷ [],
        (48 + n % 10) ∷ [],
        refl,
        inr (48 + n / 10, ground arith, ground arith, refl),
        (48 + n % 10, omega arith, omega arith, refl),
      ),
      percent_sign,
    )
    | inr three ↦ rw three (
      49 ∷ 48 ∷ 48 ∷ [],
      37 ∷ [],
      refl,
      inl (
        49 ∷ [],
        48 ∷ 48 ∷ [],
        refl,
        (49, omega arith, omega arith, refl),
        (
          48 ∷ [],
          48 ∷ [],
          refl,
          (48, omega arith, omega arith, refl),
          (48, omega arith, omega arith, refl),
        ),
      ),
      percent_sign,
    )
  ])
]

-- A text passes the pattern exactly when it is the decimal of a number up to 100, with a percent
-- sign and no leading zero.
pub is_percent_iff :
    (s : String) → (is_percent s ≡ true) ↔ ((n : ℕ) × (n ≤ 100) × (codes s ≡ percent_text n))
unfolding is_percent
is_percent_iff s =
    let (sound, complete) = match_string_iff percent_regex (codes s) in
    (
      λ h.
          let (n, p, e) = percent_sound (codes s) (sound h) in
          (n, p, e ∙ sym (percent_text_lem n p)),
      λ (n, p, e). complete (rw (e ∙ percent_text_lem n p) (percent_complete n p)),
    )
