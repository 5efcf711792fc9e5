-- ===== src/Validation/Patterns/Uuids.antt =====
-- What the pattern of a UUID accepts.
use bindplane_operator.Prelude.{
  ℕ, zero, suc, ◌≤◌, ◌≡◌, refl, ap, ◌↔◌, ◌⊎◌, inl, inr, true, String, List, [], ◌∷◌, ◌++◌, codes,
  arith,
}
use bindplane_operator.Regexp.{Regex, eps, seq, times, lit}
use bindplane_operator.Regexp.Language.{Matches, match_string_iff}
use bindplane_operator.Validation.Patterns.{uuid_regex, hex_digit, is_uuid}

abbrev pub IsHexDigit : ℕ → Type 0
IsHexDigit c = ((b'0' ≤ c) × (c ≤ b'9')) ⊎ (((b'a' ≤ c) × (c ≤ b'f')) ⊎ ((b'A' ≤ c) × (c ≤ b'F')))

-- A place of the text: a hexadecimal digit, or a hyphen.
pub data Place : Type 0 where
  digit hyphen : Place

abbrev pub Stands : Place → ℕ → Type 0
Stands digit c = IsHexDigit c
Stands hyphen c = c ≡ b'-'

-- The text has a character for each place, and no more.
abbrev pub Fits : List Place → List ℕ → Type 0
Fits [] [] = Unit
Fits (p ∷ ps) (c ∷ cs) = Stands p c × Fits ps cs
Fits ps cs = ⊥

abbrev pub digits : ℕ → List Place
digits zero = []
digits (suc n) = digit ∷ digits n

-- Five groups, of 8, 4, 4, 4 and 12 digits, with hyphens between them.
abbrev pub uuid_places : List Place
uuid_places =
    digits 8
    ++ (hyphen ∷ digits 4)
    ++ (hyphen ∷ digits 4)
    ++ (hyphen ∷ digits 4)
    ++ (hyphen ∷ digits 12)

-- A pattern accepts the texts that fit the places.
abbrev Reads : Regex → List Place → Type 0
Reads r ps = (w : List ℕ) → Matches r w ↔ Fits ps w

Fits-append :
    (ps qs : List Place) (xs ys : List ℕ) → Fits ps xs → Fits qs ys → Fits (ps ++ qs) (xs ++ ys)
Fits-append [] qs [] ys h g = g
Fits-append [] qs (x ∷ xs) ys h g = absurd h
Fits-append (p ∷ ps) qs [] ys h g = absurd h
Fits-append (p ∷ ps) qs (x ∷ xs) ys (s, h) g = (s, Fits-append ps qs xs ys h g)

Fits-split :
    (ps qs : List Place) (w : List ℕ)
    → Fits (ps ++ qs) w
    → (xs : List ℕ) × (ys : List ℕ) × (w ≡ xs ++ ys) × Fits ps xs × Fits qs ys
Fits-split [] qs w h = ([], w, refl, tt, h)
Fits-split (p ∷ ps) qs [] h = absurd h
Fits-split (p ∷ ps) qs (c ∷ w) (s, h) =
    let (xs, ys, e, f, g) = Fits-split ps qs w h in (c ∷ xs, ys, ap (λ v. c ∷ v) e, (s, f), g)

Reads-seq :
    (r s : Regex) (ps qs : List Place) → Reads r ps → Reads s qs → Reads (seq r s) (ps ++ qs)
Reads-seq r s ps qs f g w = (
  λ (xs, ys, e, m, n). rw e (Fits-append ps qs xs ys ((f xs).0 m) ((g ys).0 n)),
  λ h. let (xs, ys, e, a, b) = Fits-split ps qs w h in (xs, ys, e, (f xs).1 a, (g ys).1 b),
)

Reads-eps : Reads eps []
Reads-eps [] = (λ h. tt, λ h. refl)
Reads-eps (c ∷ w) = (λ h. absurd (cc), λ h. absurd h)

Reads-hyphen : Reads (lit b'-') (hyphen ∷ [])
Reads-hyphen [] = (λ (c, l, u, e). absurd (cc), λ h. absurd h)
Reads-hyphen (d ∷ []) =
    (λ (c, l, u, e). (ground arith, tt), λ (e, h). (d, omega arith, omega arith, refl))
Reads-hyphen (d ∷ x ∷ w) = (λ (c, l, u, e). absurd (cc), λ (e, h). absurd h)

Reads-digit : Reads hex_digit (digit ∷ [])
Reads-digit w = (to w, from w)
  where
    to : (w : List ℕ) → Matches hex_digit w → Fits (digit ∷ []) w
    to w (inl (c, l, u, e)) = rw e (inl (l, u), tt)
    to w (inr (inl (c, l, u, e))) = rw e (inr (inl (l, u)), tt)
    to w (inr (inr (c, l, u, e))) = rw e (inr (inr (l, u)), tt)

    from : (w : List ℕ) → Fits (digit ∷ []) w → Matches hex_digit w
    from [] h = absurd h
    from (c ∷ []) (inl (l, u), h) = inl (c, l, u, refl)
    from (c ∷ []) (inr (inl (l, u)), h) = inr (inl (c, l, u, refl))
    from (c ∷ []) (inr (inr (l, u)), h) = inr (inr (c, l, u, refl))
    from (c ∷ d ∷ w) (s, h) = absurd h

Reads-times : (n : ℕ) → Reads (times n hex_digit) (digits n)
Reads-times zero = Reads-eps
Reads-times (suc n) =
    Reads-seq hex_digit (times n hex_digit) (digit ∷ []) (digits n) Reads-digit (Reads-times n)

Reads-group :
    (n : ℕ) (r : Regex) (ps : List Place)
    → Reads r ps
    → Reads (seq (lit b'-') (seq (times n hex_digit) r)) (hyphen ∷ digits n ++ ps)
Reads-group n r ps h =
    Reads-seq (lit b'-') (seq (times n hex_digit) r) (hyphen ∷ []) (digits n ++ ps) Reads-hyphen
      (Reads-seq (times n hex_digit) r (digits n) ps (Reads-times n) h)

-- The four groups that a hyphen starts, from the last.
abbrev groups : List ℕ → Regex
groups [] = seq (lit b'-') (times 12 hex_digit)
groups (n ∷ ns) = seq (lit b'-') (seq (times n hex_digit) (groups ns))

abbrev group_places : List ℕ → List Place
group_places [] = hyphen ∷ digits 12
group_places (n ∷ ns) = hyphen ∷ digits n ++ group_places ns

groups-Reads : (ns : List ℕ) → Reads (groups ns) (group_places ns)
groups-Reads [] =
    Reads-seq (lit b'-') (times 12 hex_digit) (hyphen ∷ []) (digits 12) Reads-hyphen
      (Reads-times 12)
groups-Reads (n ∷ ns) = Reads-group n (groups ns) (group_places ns) (groups-Reads ns)

uuid_regex-Reads : Reads uuid_regex uuid_places
uuid_regex-Reads =
    Reads-seq (times 8 hex_digit) (groups (4 ∷ 4 ∷ 4 ∷ [])) (digits 8)
      (group_places (4 ∷ 4 ∷ 4 ∷ [])) (Reads-times 8) (groups-Reads (4 ∷ 4 ∷ 4 ∷ []))

-- A text passes the pattern of a status key exactly when it has the places of a UUID.
pub is_uuid_iff : (s : String) → (is_uuid s ≡ true) ↔ Fits uuid_places (codes s)
unfolding is_uuid
is_uuid_iff s =
    let (sound, complete) = match_string_iff uuid_regex (codes s) in
    let (to, from) = uuid_regex-Reads (codes s) in (λ h. to (sound h), λ h. complete (from h))
