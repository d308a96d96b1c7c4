-- ===== src/Text.antt =====
-- Texts as lists of their UTF-16 units, with the operations of the language that the edge uses.
pub mod Ends
pub mod Parts
use Prim.Native.Char.{code as code_of}
use saas_foundation.Prelude.{
  ℕ, String, ◌≡◌, refl, ap, inl, inr, Bool, true, false, ◌&&◌, ◌||◌, Option, none, some, List, [],
  ◌∷◌, ◌++◌, arith, leb, ◌==◌, if◌then◌else◌, Bool-cases, Option-cases, length, length-append,
  same_numbers, same_numbers_refl, same_numbers_sound,
}

abbrev pub Text : Type 0
Text = List ℕ

-- The units of a text of the basic plane.
abbrev pub text_of : String → Text
text_of String.[] = []
text_of (String.◌∷◌ c s) = code_of c ∷ text_of s

-- `s.split(c)[0]`
unfoldable pub first_part : ℕ → Text → Text
first_part c [] = []
first_part c (x ∷ s) = let rest = first_part c s in if x == c then [] else x ∷ rest

-- `s.split(c)`: the first part, and the others.
unfoldable pub split_parts : ℕ → Text → Text × List Text
split_parts c [] = ([], [])
split_parts c (x ∷ s) =
    let (part, more) = split_parts c s in if x == c then ([], part ∷ more) else (x ∷ part, more)

unfoldable pub split : ℕ → Text → List Text
unfolding split_parts
split c s = (split_parts c s).0 ∷ (split_parts c s).1

-- What is before and after the first `c`, if there is one.
unfoldable pub cut : ℕ → Text → Option (Text × Text)
cut c [] = none
cut c (x ∷ s) =
    let rest = cut c s in
    if x == c then some ([], s) else elim rest [ none ↦ none | some (a, b) ↦ some (x ∷ a, b) ]

-- `s.endsWith(c) ? s.slice(0, -1) : s`
unfoldable pub strip_last : ℕ → Text → Text
strip_last c [] = []
strip_last c (x ∷ []) = if x == c then [] else x ∷ []
strip_last c (x ∷ y ∷ s) = x ∷ strip_last c (y ∷ s)

-- `s.endsWith(suffix) ? s.slice(0, s.length - suffix.length) : undefined`
unfoldable pub before_suffix : Text → Text → Option Text
unfolding same_numbers
before_suffix suffix [] = if same_numbers [] suffix then some [] else none
before_suffix suffix (x ∷ s) =
    let rest = before_suffix suffix s in
    if same_numbers (x ∷ s) suffix
    then some []
    else elim rest [ none ↦ none | some a ↦ some (x ∷ a) ]

unfoldable pub has : ℕ → Text → Bool
has c [] = false
has c (x ∷ s) = x == c || has c s

-- White space and the line terminators, which `trim` takes off.
unfoldable pub is_space : ℕ → Bool
is_space c =
    leb 9 c && leb c 13
    || c == 32
    || c == 160
    || c == 0x1680
    || leb 0x2000 c && leb c 0x200a
    || c == 0x2028
    || c == 0x2029
    || c == 0x202f
    || c == 0x205f
    || c == 0x3000
    || c == 0xfeff

unfoldable pub trim_start : Text → Text
trim_start [] = []
trim_start (x ∷ s) = let rest = trim_start s in if is_space x then rest else x ∷ s

unfoldable pub trim_end : Text → Text
trim_end [] = []
trim_end (x ∷ s) = elim (trim_end s) [ [] ↦ if is_space x then [] else x ∷ [] | y ∷ t ↦ x ∷ y ∷ t ]

unfoldable pub trim : Text → Text
unfolding trim_start trim_end
trim s = trim_end (trim_start s)

unfoldable pub starts_with : Text → Text → Bool
starts_with [] s = true
starts_with (p ∷ ps) [] = false
starts_with (p ∷ ps) (x ∷ s) = p == x && starts_with ps s

-- `s.includes(pattern)`
unfoldable pub includes : Text → Text → Bool
unfolding starts_with
includes pattern [] = starts_with pattern []
includes pattern (x ∷ s) = starts_with pattern (x ∷ s) || includes pattern s

pub starts_with-append : (p s : Text) → starts_with p (p ++ s) ≡ true
unfolding starts_with
starts_with-append [] s = refl
starts_with-append (x ∷ p) s = ground (arith, starts_with-append p s)

includes_start : (p s : Text) → starts_with p s ≡ true → includes p s ≡ true
unfolding includes
includes_start p [] h = h
includes_start p (x ∷ s) h = ground (arith, h)

pub includes-append : (p a s : Text) → includes p (a ++ p ++ s) ≡ true
unfolding includes
includes-append p [] s = includes_start p (p ++ s) (starts_with-append p s)
includes-append p (x ∷ a) s = ground (arith, includes-append p a s)

pub append_assoc : (a b c : Text) → (a ++ b) ++ c ≡ a ++ (b ++ c)
append_assoc [] b c = refl
append_assoc (x ∷ a) b c = ap (λ t. x ∷ t) (append_assoc a b c)

pub first_part-append : (c : ℕ) (a s : Text) → has c a ≡ false → first_part c (a ++ c ∷ s) ≡ a
unfolding first_part has
first_part-append c [] s h = ground arith
first_part-append c (x ∷ a) s h = ground (arith, first_part-append c a s)

pub first_part-without : (c : ℕ) (a : Text) → has c a ≡ false → first_part c a ≡ a
unfolding first_part has
first_part-without c [] h = refl
first_part-without c (x ∷ a) h = ground (arith, first_part-without c a)

pub has-append : (c : ℕ) (a b : Text) → has c (a ++ b) ≡ has c a || has c b
unfolding has
has-append c [] b = refl
has-append c (x ∷ a) b = ground (arith, has-append c a b)

-- The prefix that is found, and nothing but it.
pub before_suffix_sound : (suffix s a : Text) → before_suffix suffix s ≡ some a → a ++ suffix ≡ s
unfolding before_suffix
before_suffix_sound suffix [] a h = ground (arith, same_numbers_sound [] suffix)
before_suffix_sound suffix (x ∷ s) a h = elim (Option-cases (before_suffix suffix s)) [
  | inl missing ↦ ground (arith, same_numbers_sound (x ∷ s) suffix)
  | inr (b, found) ↦
      ground (arith, same_numbers_sound (x ∷ s) suffix, before_suffix_sound suffix s b found)
]

before_suffix_whole : (s : Text) → before_suffix s s ≡ some []
unfolding before_suffix
before_suffix_whole [] = ground arith
before_suffix_whole (x ∷ s) = ground (arith, same_numbers_refl (x ∷ s))

longer-ne : (x : ℕ) (a suffix : Text) → same_numbers (x ∷ a ++ suffix) suffix ≡ false
longer-ne x a suffix = elim (Bool-cases (same_numbers (x ∷ a ++ suffix) suffix)) [
  | inl same ↦
      let e = ap (λ (t : Text). length t) (same_numbers_sound (x ∷ a ++ suffix) suffix same) in
      absurd (omega (arith, e, length-append a suffix))
  | inr other ↦ other
]

pub before_suffix-append : (suffix a : Text) → before_suffix suffix (a ++ suffix) ≡ some a
unfolding before_suffix
before_suffix-append suffix [] = before_suffix_whole suffix
before_suffix-append suffix (x ∷ a) =
    ground (arith, longer-ne x a suffix, before_suffix-append suffix a)
