-- ===== src/Text/Parts.antt =====
-- The parts of a text between separators, and the text that they make together.
use saas_foundation.Prelude.{
  ℕ, ◌≡◌, refl, ap, ◌∙◌, false, List, [], ◌∷◌, ◌++◌, arith, ◌==◌, Bool-cases, inl, inr, All, none,
}
use saas_foundation.Text.{Text, split_parts, has, cut}

-- `parts.join(c)`, for a first part and the others
unfoldable pub join_parts : ℕ → Text → List Text → Text
join_parts c p [] = p
join_parts c p (q ∷ qs) = p ++ (c ∷ join_parts c q qs)

join_parts-cons :
    (c x : ℕ) (p : Text) (qs : List Text) → join_parts c (x ∷ p) qs ≡ x ∷ join_parts c p qs
unfolding join_parts
join_parts-cons c x p [] = refl
join_parts-cons c x p (q ∷ qs) = refl

-- Joined again, the parts of a text are the text.
pub join_parts-split : (c : ℕ) (s : Text) → join_parts c (split_parts c s).0 (split_parts c s).1 ≡ s
unfolding split_parts join_parts
join_parts-split c [] = refl
join_parts-split c (x ∷ s) = elim (Bool-cases (x == c)) [
  | inl here ↦ rw here (ground (arith, join_parts-split c s))
  | inr other ↦ rw other (
      join_parts-cons c x (split_parts c s).0 (split_parts c s).1
      ∙ ap (λ t. x ∷ t) (join_parts-split c s))
]

pub split_parts-alone : (c : ℕ) (p : Text) → has c p ≡ false → split_parts c p ≡ (p, [])
unfolding split_parts has
split_parts-alone c [] h = refl
split_parts-alone c (x ∷ p) h = ground (arith, split_parts-alone c p)

split_parts-append :
    (c : ℕ) (p s : Text)
    → has c p ≡ false
    → split_parts c (p ++ (c ∷ s)) ≡ (p, (split_parts c s).0 ∷ (split_parts c s).1)
unfolding split_parts has
split_parts-append c [] s h = ground arith
split_parts-append c (x ∷ p) s h = ground (arith, split_parts-append c p s)

-- A first part and others, none of which has the separator, are the parts of the text they make.
pub split-join_parts :
    (c : ℕ) (p : Text) (qs : List Text)
    → has c p ≡ false
    → All (λ q. has c q ≡ false) qs
    → split_parts c (join_parts c p qs) ≡ (p, qs)
unfolding join_parts
split-join_parts c p [] h hs = split_parts-alone c p h
split-join_parts c p (q ∷ qs) h (hq, hs) =
    rw (split_parts-append c p (join_parts c q qs) h, split-join_parts c q qs hq hs)

pub cut-without : (c : ℕ) (s : Text) → has c s ≡ false → cut c s ≡ none
unfolding cut has
cut-without c [] h = refl
cut-without c (x ∷ s) h = ground (arith, cut-without c s)
