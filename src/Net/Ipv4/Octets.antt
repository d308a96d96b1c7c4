-- ===== src/Net/Ipv4/Octets.antt =====
-- What `octet` of packages/foundation/src/net/cidr.ts accepts, and how an octet is spelled.
use saas_foundation.Prelude.{
  ℕ, ◌+◌, ◌-◌, ◌*◌, ◌/◌, ◌%◌, ◌≤◌, ◌<◌, ◌≡◌, refl, none, some, [], ◌∷◌, arith, ltb, if◌then◌else◌,
  is_some, is_digit,
}
use saas_foundation.Text.{Text}
use saas_foundation.Net.Ipv4.{decimal_from, octet, matches_octet}

-- An octet in decimal, with no zero before it.
unfoldable pub show_octet : ℕ → Text
show_octet n =
    if ltb n 10
    then (48 + n) ∷ []
    else if ltb n 100
    then (48 + n / 10) ∷ (48 + n % 10) ∷ []
    else (48 + n / 100) ∷ (48 + n / 10 % 10) ∷ (48 + n % 10) ∷ []

decimal_from_grows : (n : ℕ) (s : Text) → n ≤ decimal_from n s
unfolding decimal_from
decimal_from_grows n [] = omega arith
decimal_from_grows n (c ∷ s) = omega (arith, decimal_from_grows (n * 10 + (c - b'0')) s)

octet_long : (a b c d : ℕ) (s : Text) → octet (a ∷ b ∷ c ∷ d ∷ s) ≡ none
unfolding octet is_digit
octet_long a b c d s = ground (
  arith,
  decimal_from_grows ((((0 * 10 + (a - 48)) * 10 + (b - 48)) * 10 + (c - 48)) * 10 + (d - 48)) s,
)

-- The test of the pattern accepts an octet exactly if the parser does.
pub octet-matches : (s : Text) → matches_octet s ≡ is_some (octet s)
unfolding matches_octet octet is_digit decimal_from
octet-matches [] = refl
octet-matches (a ∷ []) = ground arith
octet-matches (a ∷ b ∷ []) = ground arith
octet-matches (a ∷ b ∷ c ∷ []) = ground arith
octet-matches (a ∷ b ∷ c ∷ d ∷ s) = ground (arith, octet_long a b c d s)

pub octet_spelled : (s : Text) (n : ℕ) → octet s ≡ some n → (n < 256) × (s ≡ show_octet n)
unfolding octet show_octet is_digit decimal_from
octet_spelled [] n h = ground arith
octet_spelled (a ∷ []) n h = ground arith
octet_spelled (a ∷ b ∷ []) n h = ground arith
octet_spelled (a ∷ b ∷ c ∷ []) n h = ground arith
octet_spelled (a ∷ b ∷ c ∷ d ∷ s) n h = ground (arith, octet_long a b c d s)

pub octet-show_octet : (n : ℕ) → n < 256 → octet (show_octet n) ≡ some n
unfolding octet show_octet is_digit decimal_from
octet-show_octet n h = ground arith
