-- ===== src/Text/Ends.antt =====
-- The ends of a text that `strip_last` and `first_part` take off.
use saas_foundation.Prelude.{
  ℕ, ◌≡◌, refl, ap, ◌⊎◌, inl, inr, false, Bool-cases, [], ◌∷◌, ◌++◌, ◌==◌, arith,
}
use saas_foundation.Text.{Text, strip_last, first_part, has}

-- Nothing, or one character `c`.
abbrev pub AtMostOne : ℕ → Text → Type 0
AtMostOne c end = (end ≡ []) ⊎ (end ≡ c ∷ [])

-- Nothing, or the character `c` and more.
abbrev pub From : ℕ → Text → Type 0
From c rest = (rest ≡ []) ⊎ ((more : Text) × (rest ≡ c ∷ more))

pub strip_last_parts :
    (c : ℕ) (s : Text) → (end : Text) × (s ≡ strip_last c s ++ end) × AtMostOne c end
unfolding strip_last
strip_last_parts c [] = ([], refl, inl refl)
strip_last_parts c (x ∷ []) = elim (Bool-cases (x == c)) [
  | inl same ↦ let e : x ≡ c = ground arith in (c ∷ [], ground (arith, same, e), inr refl)
  | inr other ↦ ([], rw other refl, inl refl)
]
strip_last_parts c (x ∷ y ∷ s) =
    let (end, whole, form) = strip_last_parts c (y ∷ s) in
    (end, ap (λ (t : Text). x ∷ t) whole, form)

pub strip_last-append :
    (c : ℕ) (t : Text) (x : ℕ) (u : Text) → strip_last c (t ++ x ∷ u) ≡ t ++ strip_last c (x ∷ u)
unfolding strip_last
strip_last-append c [] x u = refl
strip_last-append c (y ∷ []) x u = refl
strip_last-append c (y ∷ z ∷ t) x u = ap (λ (s : Text). y ∷ s) (strip_last-append c (z ∷ t) x u)

pub append_nil : (t : Text) → t ++ [] ≡ t
append_nil [] = refl
append_nil (x ∷ t) = ap (λ (s : Text). x ∷ s) (append_nil t)

strip_one : (c : ℕ) → strip_last c (c ∷ []) ≡ []
unfolding strip_last
strip_one c = ground arith

-- A text that has no such character at its end is what is left of it, with the character or without.
pub strip_last-end :
    (c : ℕ) (t end : Text) → strip_last c t ≡ t → AtMostOne c end → strip_last c (t ++ end) ≡ t
strip_last-end c t end clean (inl none_left) = rw (none_left, append_nil t) clean
strip_last-end c t end clean (inr one_left) =
    rw (one_left, strip_last-append c t c [], strip_one c) (append_nil t)

pub first_part_parts :
    (c : ℕ) (s : Text)
    → (rest : Text) × (s ≡ first_part c s ++ rest) × (has c (first_part c s) ≡ false) × From c rest
unfolding first_part has
first_part_parts c [] = ([], refl, refl, inl refl)
first_part_parts c (x ∷ s) = elim (Bool-cases (x == c)) [
  | inl same ↦
      let e : x ≡ c = ground arith in
      (x ∷ s, rw same refl, rw same refl, inr (s, ap (λ y. y ∷ s) e))
  | inr other ↦
      let (rest, whole, free, form) = first_part_parts c s in
      (rest, rw other (ap (λ (t : Text). x ∷ t) whole), rw (other, free) (ground arith), form)
]
