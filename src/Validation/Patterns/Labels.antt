-- ===== src/Validation/Patterns/Labels.antt =====
-- What the pattern of a DNS-1123 label accepts.
use bindplane_operator.Prelude.{
  ℕ, ◌≤◌, ◌≡◌, refl, ap, ◌↔◌, ◌⊎◌, inl, inr, true, String, List, [], ◌∷◌, ◌++◌, codes, All,
  All-append, arith,
}
use mathlib.Core.Path.{subst}
use bindplane_operator.Regexp.{Regex, alt, range}
use bindplane_operator.Regexp.Language.{Matches, Pieces, done, piece, match_string_iff}
use bindplane_operator.Validation.Name.{last_of}
use bindplane_operator.Validation.Patterns.{dns1123_label_regexp, alphanumeric, is_dns1123_label}

abbrev pub IsAlphanumeric : ℕ → Type 0
IsAlphanumeric c = ((b'a' ≤ c) × (c ≤ b'z')) ⊎ ((b'0' ≤ c) × (c ≤ b'9'))

abbrev pub IsInner : ℕ → Type 0
IsInner c = IsAlphanumeric c ⊎ (c ≡ b'-')

-- Letters, digits and hyphens, with a letter or digit at both ends.
abbrev pub IsDnsLabel : List ℕ → Type 0
IsDnsLabel [] = ⊥
IsDnsLabel (c ∷ cs) = IsAlphanumeric c × All IsInner cs × IsAlphanumeric (last_of c cs)

alphanumeric_inv : (w : List ℕ) → Matches alphanumeric w → (c : ℕ) × (w ≡ c ∷ []) × IsAlphanumeric c
alphanumeric_inv w (inl (c, p, q, e)) = (c, e, inl (p, q))
alphanumeric_inv w (inr (c, p, q, e)) = (c, e, inr (p, q))

alphanumeric_of : (c : ℕ) → IsAlphanumeric c → Matches alphanumeric (c ∷ [])
alphanumeric_of c (inl (p, q)) = inl (c, p, q, refl)
alphanumeric_of c (inr (p, q)) = inr (c, p, q, refl)

abbrev inner : Regex
inner = alt alphanumeric (range b'-' b'-')

inner_inv : (w : List ℕ) → Matches inner w → (c : ℕ) × (w ≡ c ∷ []) × IsInner c
inner_inv w (inl m) = let (c, e, p) = alphanumeric_inv w m in (c, e, inl p)
inner_inv w (inr (c, p, q, e)) = (c, e, inr (omega arith))

inner_of : (c : ℕ) → IsInner c → Matches inner (c ∷ [])
inner_of c (inl p) = inl (alphanumeric_of c p)
inner_of c (inr e) = inr (c, omega arith, omega arith, refl)

Pieces-inv : (w : List ℕ) → Pieces (Matches inner) w → All IsInner w
Pieces-inv w (done e) = rw e tt
Pieces-inv w (piece xs ys e m more) =
    let (c, single, p) = inner_inv xs m in rw (e, single) (p, Pieces-inv ys more)

Pieces-of : (w : List ℕ) → All IsInner w → Pieces (Matches inner) w
Pieces-of [] h = done refl
Pieces-of (c ∷ w) (p, h) = piece (c ∷ []) w refl (inner_of c p) (Pieces-of w h)

last_of-concat : (c d : ℕ) (xs : List ℕ) → last_of c (xs ++ d ∷ []) ≡ d
unfolding last_of
last_of-concat c d [] = refl
last_of-concat c d (x ∷ xs) = last_of-concat x d xs

-- A list that is not empty ends with its last element.
split_last : (c d : ℕ) (cs : List ℕ) → (xs : List ℕ) × (d ∷ cs ≡ xs ++ last_of c (d ∷ cs) ∷ [])
unfolding last_of
split_last c d [] = ([], refl)
split_last c d (e ∷ cs) = let (xs, p) = split_last d e cs in (d ∷ xs, ap (λ v. d ∷ v) p)

All-front : (xs ys : List ℕ) → All IsInner (xs ++ ys) → All IsInner xs
All-front [] ys h = tt
All-front (x ∷ xs) ys (p, h) = (p, All-front xs ys h)

label_sound : (w : List ℕ) → Matches dns1123_label_regexp w → IsDnsLabel w
unfolding last_of
label_sound w (xs, ys, e, m, inl nil) =
    let (c, single, p) = alphanumeric_inv xs m in rw (e, single, nil) (p, tt, p)
label_sound w (xs, ys, e, m, inr (zs, us, e', stars, end)) =
    let (c, single, p) = alphanumeric_inv xs m in
    let (d, last, q) = alphanumeric_inv us end in
    rw (e, single, e', last)
      (
        p,
        All-append IsInner zs (d ∷ []) (Pieces-inv zs stars) (inl q, tt),
        rw (last_of-concat c d zs) q,
      )

label_complete : (w : List ℕ) → IsDnsLabel w → Matches dns1123_label_regexp w
label_complete [] h = absurd h
label_complete (c ∷ []) (p, h, q) = (c ∷ [], [], refl, alphanumeric_of c p, inl refl)
label_complete (c ∷ d ∷ cs) (p, h, q) =
    let (zs, e) = split_last c d cs in
    (
      c ∷ [],
      d ∷ cs,
      refl,
      alphanumeric_of c p,
      inr (
        zs,
        last_of c (d ∷ cs) ∷ [],
        e,
        Pieces-of zs (All-front zs _ (subst (All IsInner) e h)),
        alphanumeric_of _ q,
      ),
    )

-- A volume name passes the pattern exactly when it consists of lower-case letters, digits and
-- hyphens and begins and ends with a letter or digit.
pub is_dns1123_label_iff : (s : String) → (is_dns1123_label s ≡ true) ↔ IsDnsLabel (codes s)
unfolding is_dns1123_label
is_dns1123_label_iff s =
    let (sound, complete) = match_string_iff dns1123_label_regexp (codes s) in
    (λ h. label_sound (codes s) (sound h), λ h. complete (label_complete (codes s) h))
