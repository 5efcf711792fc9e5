-- ===== src/Validation/Name/Dns.antt =====
-- internal/validation/validate.go: the accepted names, beside the labels of DNS-1035.
use bindplane_operator.Prelude.{
  ℕ, ◌+◌, ◌≤◌, ◌<◌, ◌≡◌, refl, sym, ◌↔◌, ◌⊎◌, inl, inr, true, All-append, String, List, [], ◌∷◌,
  ◌++◌, none, All, codes, length, arith,
}
use mathlib.Core.List.{append_assoc}
use bindplane_operator.Validation.Errors.{◌>>◌, >>-eq-none_iff}
use bindplane_operator.Validation.Name.{
  Unicode, utf8, bytes, last_of, check_characters, check_bytes, validate_bindplane_name,
}

abbrev pub IsLower : ℕ → Type 0
IsLower c = (b'a' ≤ c) × (c ≤ b'z')

abbrev pub IsDigit : ℕ → Type 0
IsDigit c = (b'0' ≤ c) × (c ≤ b'9')

abbrev pub IsLabelCharacter : ℕ → Type 0
IsLabelCharacter c = IsLower c ⊎ IsDigit c ⊎ (c ≡ b'-')

-- A DNS-1035 label of at most 47 characters.
abbrev pub IsLabel : List ℕ → Type 0
IsLabel [] = ⊥
IsLabel (c ∷ cs) =
    IsLower c
    × All IsLabelCharacter (c ∷ cs)
    × (IsLower (last_of c cs) ⊎ IsDigit (last_of c cs))
    × (length (c ∷ cs) ≤ 47)

-- What the package unicode documents of ASCII.
pub record IsAscii (u : Unicode) : Type 0 where
  pub letter : (c : ℕ) → c < 128 → IsLower c → u.is_letter c ≡ true
  pub lower : (c : ℕ) → c < 128 → (u.is_lower c ≡ true) ↔ IsLower c
  pub digit : (c : ℕ) → c < 128 → (u.is_digit c ≡ true) ↔ IsDigit c

pub bytes_of_ascii : (cs : List ℕ) → All (λ c. c < 128) cs → bytes cs ≡ cs
unfolding bytes utf8
bytes_of_ascii [] h = refl
bytes_of_ascii (c ∷ cs) (p, h) = ground (arith, bytes_of_ascii cs h)

module _ (u : Unicode) (ascii : IsAscii u) where
  check_characters-eq-none_iff :
      (i : ℕ) (cs : List ℕ)
      → All (λ c. c < 128) cs
      → (check_characters u i cs ≡ none) ↔ All IsLabelCharacter cs
  unfolding check_characters
  check_characters-eq-none_iff i [] h = ground arith
  check_characters-eq-none_iff i (c ∷ cs) (p, h) = ground (
    arith,
    check_characters-eq-none_iff (i + length (utf8 c)) cs h,
    ascii.lower c p,
    ascii.digit c p,
  )

  check_bytes-eq-none_iff :
      (b : ℕ) (bs : List ℕ)
      → b < 128
      → (check_bytes u (b ∷ bs) ≡ none)
        ↔ ((length (b ∷ bs) ≤ 47) × IsLower b × (IsLower (last_of b bs) ⊎ IsDigit (last_of b bs)))
  unfolding check_bytes
  check_bytes-eq-none_iff b bs p = ground (arith, ascii.lower b p, ascii.letter b p)

  -- A name of ASCII characters is accepted exactly when it is a DNS-1035 label of at most 47
  -- characters.
  pub validate_bindplane_name-eq-none_iff :
      (name : String)
      → All (λ c. c < 128) (codes name)
      → (validate_bindplane_name u name ≡ none) ↔ IsLabel (codes name)
  unfolding validate_bindplane_name check_bytes
  validate_bindplane_name-eq-none_iff name h = label (codes name) h
    where
      label :
          (cs : List ℕ)
          → All (λ c. c < 128) cs
          → ((check_bytes u (bytes cs) >> check_characters u 0 cs) ≡ none) ↔ IsLabel cs
      label [] h = rw (bytes_of_ascii [] tt) (ground arith)
      label (c ∷ cs) h = rw (bytes_of_ascii (c ∷ cs) h) (
          ground
            (arith, check_bytes-eq-none_iff c cs h.0, check_characters-eq-none_iff 0 (c ∷ cs) h))

-- What the loop over the runes accepts, in any script.
abbrev Allowed : Unicode → ℕ → Type 0
Allowed u c = (c ≡ b'-') ⊎ (u.is_lower c ≡ true) ⊎ (u.is_digit c ≡ true)

check_characters_of_Allowed :
    (u : Unicode) (i : ℕ) (cs : List ℕ) → All (Allowed u) cs → check_characters u i cs ≡ none
unfolding check_characters
check_characters_of_Allowed u i [] h = refl
check_characters_of_Allowed u i (c ∷ cs) (p, h) =
    ground (arith, check_characters_of_Allowed u (i + length (utf8 c)) cs h)

bytes-append : (xs ys : List ℕ) → bytes (xs ++ ys) ≡ bytes xs ++ bytes ys
unfolding bytes
bytes-append [] ys = refl
bytes-append (x ∷ xs) ys =
    rw (bytes-append xs ys) (sym (append_assoc (utf8 x) (bytes xs) (bytes ys)))

last_of-append : (b y : ℕ) (xs ys : List ℕ) → last_of b (xs ++ y ∷ ys) ≡ last_of y ys
unfolding last_of
last_of-append b y [] ys = refl
last_of-append b y (x ∷ xs) ys = last_of-append x y xs ys

Label-ascii : (cs : List ℕ) → All IsLabelCharacter cs → All (λ c. c < 128) cs
Label-ascii [] h = tt
Label-ascii (c ∷ cs) (p, h) = (omega arith, Label-ascii cs h)

module _ (u : Unicode) (ascii : IsAscii u) where
  Label-Allowed : (cs : List ℕ) → All IsLabelCharacter cs → All (Allowed u) cs
  Label-Allowed [] h = tt
  Label-Allowed (c ∷ cs) (p, h) = (ground (arith, ascii.lower c, ascii.digit c), Label-Allowed cs h)

  not_IsLabel : (pre post : List ℕ) (x : ℕ) → 128 ≤ x → ¬ All IsLabelCharacter (pre ++ x ∷ post)
  not_IsLabel [] post x h (p, k) = omega arith
  not_IsLabel (c ∷ cs) post x h (p, k) = not_IsLabel cs post x h k

  last_byte :
      (c x d : ℕ) (cs ds : List ℕ)
      → All (λ k. k < 128) (d ∷ ds)
      → last_of c (bytes (cs ++ x ∷ d ∷ ds)) ≡ last_of d ds
  last_byte c x d cs ds h = rw (← append_assoc cs (x ∷ []) (d ∷ ds)) (
      rw (bytes-append (cs ++ x ∷ []) (d ∷ ds), bytes_of_ascii (d ∷ ds) h)
        (last_of-append c d (bytes (cs ++ x ∷ [])) ds))

  bytes_accepted :
      (c x d : ℕ) (cs ds : List ℕ)
      → IsLabel (c ∷ cs)
      → IsLabel (d ∷ ds)
      → length (bytes (c ∷ (cs ++ x ∷ d ∷ ds))) ≤ 47
      → check_bytes u (bytes (c ∷ (cs ++ x ∷ d ∷ ds))) ≡ none
  unfolding bytes utf8
  bytes_accepted c x d cs ds p q len = ground (
    arith,
    check_bytes-eq-none_iff u ascii c (bytes (cs ++ x ∷ d ∷ ds)),
    last_byte c x d cs ds (Label-ascii (d ∷ ds) q.1),
  )

  accepted :
      (pre post : List ℕ) (x : ℕ)
      → IsLabel pre
      → IsLabel post
      → u.is_lower x ≡ true
      → length (bytes (pre ++ x ∷ post)) ≤ 47
      → (check_bytes u (bytes (pre ++ x ∷ post)) >> check_characters u 0 (pre ++ x ∷ post)) ≡ none
  accepted (c ∷ cs) (d ∷ ds) x p q lower len = (>>-eq-none_iff _ _).1 (
    bytes_accepted c x d cs ds p q len,
    check_characters_of_Allowed u 0 (c ∷ (cs ++ x ∷ d ∷ ds)) (
        All-append (Allowed u) (c ∷ cs) (x ∷ d ∷ ds) (Label-Allowed (c ∷ cs) p.1)
          (inr (inl lower), Label-Allowed (d ∷ ds) q.1)),
  )
  accepted [] post x p q lower len = absurd p
  accepted (c ∷ cs) [] x p q lower len = absurd q

  not_label : (pre post : List ℕ) (x : ℕ) → 128 ≤ x → IsLabel (pre ++ x ∷ post) → ⊥
  not_label [] post x h l = omega arith
  not_label (c ∷ cs) post x h l = not_IsLabel (c ∷ cs) post x h l.1

  -- The check goes by Unicode's lower case and not by a to z: two labels with a lower-case letter
  -- outside ASCII between them are accepted, within 47 bytes, and are no label.
  pub validate_bindplane_name_non_ascii :
      (name : String) (pre post : List ℕ) (x : ℕ)
      → codes name ≡ pre ++ x ∷ post
      → IsLabel pre
      → IsLabel post
      → 128 ≤ x
      → u.is_lower x ≡ true
      → length (bytes (codes name)) ≤ 47
      → (validate_bindplane_name u name ≡ none) × ¬ IsLabel (codes name)
  unfolding validate_bindplane_name
  validate_bindplane_name_non_ascii name pre post x e p q h lower len =
      (rw e (accepted pre post x p q lower (rw e at len)), rw e (not_label pre post x h))
