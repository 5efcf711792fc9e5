-- ===== src/Regexp/Language.antt =====
-- The language of a pattern, beside the matcher.
use bindplane_operator.Prelude.{
  ℕ, ◌≤◌, ◌≡◌, refl, sym, ap, ◌∙◌, ◌↔◌, ◌⊎◌, inl, inr, true, ◌&&◌, List, [], ◌∷◌, ◌++◌, leb, arith,
  Bool-cases,
}
use bindplane_operator.Regexp.{
  Regex, fail, eps, range, seq, alt, star, nullable, deriv, match_string,
}

-- Any number of pieces, each with the property P.
pub data Pieces (P : List ℕ → Type 0) : List ℕ → Type 0 where
  done : {w : List ℕ} → w ≡ [] → Pieces P w
  piece : {w : List ℕ} (xs ys : List ℕ) → w ≡ xs ++ ys → P xs → Pieces P ys → Pieces P w

abbrev pub Matches : Regex → List ℕ → Type 0
Matches fail w = ⊥
Matches eps w = w ≡ []
Matches (range lo hi) w = (c : ℕ) × (lo ≤ c) × (c ≤ hi) × (w ≡ c ∷ [])
Matches (seq r s) w = (xs : List ℕ) × (ys : List ℕ) × (w ≡ xs ++ ys) × Matches r xs × Matches s ys
Matches (alt r s) w = Matches r w ⊎ Matches s w
Matches (star r) w = Pieces (Matches r) w

nullable_sound : (r : Regex) → nullable r ≡ true → Matches r []
unfolding nullable
nullable_sound fail h = cc
nullable_sound eps h = refl
nullable_sound (range lo hi) h = cc
nullable_sound (seq r s) h =
    ([], [], refl, nullable_sound r (ground arith), nullable_sound s (ground arith))
nullable_sound (alt r s) h = elim (Bool-cases (nullable r)) [
  | inl e ↦ inl (nullable_sound r e)
  | inr e ↦ inr (nullable_sound s (ground arith))
]
nullable_sound (star r) h = done refl

append-eq-nil : (xs ys : List ℕ) → [] ≡ xs ++ ys → (xs ≡ []) × (ys ≡ [])
append-eq-nil [] ys e = (refl, sym e)
append-eq-nil (x ∷ xs) ys e = cc

nullable_complete : (r : Regex) → Matches r [] → nullable r ≡ true
unfolding nullable
nullable_complete fail h = absurd h
nullable_complete eps h = refl
nullable_complete (range lo hi) (c, p, q, e) = cc
nullable_complete (seq r s) (xs, ys, e, m, n) =
    let (ex, ey) = append-eq-nil xs ys e in
    rw (nullable_complete r (rw ex at m), nullable_complete s (rw ey at n))
nullable_complete (alt r s) (inl m) = rw (nullable_complete r m)
nullable_complete (alt r s) (inr m) = ground (arith, nullable_complete s m)
nullable_complete (star r) h = refl

-- The first piece that is not empty.
Pieces-cons :
    {P : List ℕ → Type 0} {v : List ℕ} (c : ℕ) (w : List ℕ)
    → Pieces P v
    → v ≡ c ∷ w
    → (xs : List ℕ) × (ys : List ℕ) × (w ≡ xs ++ ys) × P (c ∷ xs) × Pieces P ys
Pieces-cons c w (done e) h = cc
Pieces-cons c w (piece [] ys e p more) h = Pieces-cons c w more (sym e ∙ h)
Pieces-cons {P} c w (piece (x ∷ xs) ys e p more) h =
    let same : c ≡ x = ground arith in (xs, ys, ground arith, rw same p, more)

deriv_sound : (c : ℕ) (r : Regex) (w : List ℕ) → Matches (deriv c r) w → Matches r (c ∷ w)
unfolding deriv
deriv_sound c fail w h = absurd h
deriv_sound c eps w h = absurd h
deriv_sound c (range lo hi) w h = elim (Bool-cases (leb lo c && leb c hi)) [
  | inl e ↦ (c, ground arith, ground arith, ap (λ v. c ∷ v) (rw e at h))
  | inr e ↦ absurd (rw e at h)
]
deriv_sound c (seq r s) w h = elim (Bool-cases (nullable r)) [
  | inl e ↦ elim (rw e at h) [
    | inl (xs, ys, p, m, n) ↦ (c ∷ xs, ys, ap (λ v. c ∷ v) p, deriv_sound c r xs m, n)
    | inr m ↦ ([], c ∷ w, refl, nullable_sound r e, deriv_sound c s w m)
  ]
  | inr e ↦
      let (xs, ys, p, m, n) = rw e at h in (c ∷ xs, ys, ap (λ v. c ∷ v) p, deriv_sound c r xs m, n)
]
deriv_sound c (alt r s) w (inl m) = inl (deriv_sound c r w m)
deriv_sound c (alt r s) w (inr m) = inr (deriv_sound c s w m)
deriv_sound c (star r) w (xs, ys, e, m, n) =
    piece (c ∷ xs) ys (ap (λ v. c ∷ v) e) (deriv_sound c r xs m) n

deriv_complete : (c : ℕ) (r : Regex) (w : List ℕ) → Matches r (c ∷ w) → Matches (deriv c r) w
unfolding deriv
deriv_complete c fail w h = h
deriv_complete c eps w h = cc
deriv_complete c (range lo hi) w (d, p, q, e) =
    let test : (leb lo c && leb c hi) ≡ true = ground arith in rw test (ground arith)
deriv_complete c (seq r s) w ([], ys, e, m, n) =
    rw (nullable_complete r m) (inr (deriv_complete c s w (rw e n)))
deriv_complete c (seq r s) w (x ∷ xs, ys, e, m, n) =
    let same : c ≡ x = ground arith in
    let first : Matches (seq (deriv c r) s) w =
      (xs, ys, ground arith, deriv_complete c r xs (rw same m), n) in
    elim (Bool-cases (nullable r)) [ inl t ↦ rw t (inl first) | inr t ↦ rw t first ]
deriv_complete c (alt r s) w (inl m) = inl (deriv_complete c r w m)
deriv_complete c (alt r s) w (inr m) = inr (deriv_complete c s w m)
deriv_complete c (star r) w h =
    let (xs, ys, e, m, n) = Pieces-cons c w h refl in (xs, ys, e, deriv_complete c r xs m, n)

-- The matcher accepts exactly the texts of the pattern's language.
pub match_string_iff : (r : Regex) (w : List ℕ) → (match_string r w ≡ true) ↔ Matches r w
unfolding match_string
match_string_iff r [] = (nullable_sound r, nullable_complete r)
match_string_iff r (c ∷ w) = (
  λ h. deriv_sound c r w ((match_string_iff (deriv c r) w).0 h),
  λ h. (match_string_iff (deriv c r) w).1 (deriv_complete c r w h),
)
