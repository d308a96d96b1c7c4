-- ===== src/Net/Ipv4.antt =====
-- packages/foundation/src/net/cidr.ts, the helpers for IPv4, and `IPV4_RE` of derive.ts.
pub mod Octets
pub mod Spelling
pub mod Prefix
use Prim.Native.Nat.{bit_and}
use saas_foundation.Prelude.{
  ℕ, ◌+◌, ◌-◌, ◌*◌, ◌%◌, ◌^◌, Bool, true, false, not, ◌&&◌, ◌||◌, Option, none, some, List, [], ◌∷◌,
  leb, ◌==◌, if◌then◌else◌, length, all, is_digit,
}
use saas_foundation.Text.{Text, split, cut}

-- The number that a text of digits spells, after `n`.
unfoldable pub decimal_from : ℕ → Text → ℕ
decimal_from n [] = n
decimal_from n (c ∷ s) = decimal_from (n * 10 + (c - b'0')) s

unfoldable pub decimal : Text → ℕ
unfolding decimal_from
decimal s = decimal_from 0 s

-- `part.length > 1 && part[0] === "0"`
unfoldable pub has_leading_zero : Text → Bool
has_leading_zero (c ∷ d ∷ s) = c == b'0'
has_leading_zero _ = false

unfoldable pub is_digits : Text → Bool
unfolding is_digit
is_digits [] = false
is_digits (c ∷ s) = all is_digit (c ∷ s)

unfoldable pub octet : Text → Option ℕ
unfolding is_digits has_leading_zero decimal
octet part =
    if not (is_digits part)
    then none
    else if has_leading_zero part
    then none
    else if leb (decimal part) 255
    then some (decimal part)
    else none

-- `(result << 8) | n` as a pattern of 32 bits, for an `n` below 256: the low byte of the shifted
-- value is zero.
unfoldable pub shift_in : ℕ → ℕ → ℕ
shift_in result n = result * 256 % 2 ^ 32 + n

unfoldable pub read_octets : ℕ → List Text → Option ℕ
read_octets result [] = some result
read_octets result (part ∷ parts) = elim (octet part) [
  | none ↦ none
  | some n ↦ read_octets (shift_in result n) parts
]

unfoldable pub parse_ipv4 : Text → Option ℕ
unfolding read_octets
parse_ipv4 s = if length (split b'.' s) == 4 then read_octets 0 (split b'.' s) else none

-- `(~0 << (32 - prefixLen)) >>> 0`, for a prefix from 1 to 31
unfoldable pub mask_of : ℕ → ℕ
mask_of prefix_len = 2 ^ 32 - 2 ^ (32 - prefix_len)

unfoldable pub ipv4_in_cidr : ℕ → ℕ → ℕ → Bool
ipv4_in_cidr ip network prefix_len =
    if prefix_len == 0
    then true
    else if prefix_len == 32
    then ip == network
    else bit_and ip (mask_of prefix_len) == bit_and network (mask_of prefix_len)

-- `number` is the language's `Number` of a text, where it is a natural number.
module _ (number : Text → Option ℕ) where
  unfoldable pub is_ipv4_in_cidr : Text → Text → Bool
  unfolding parse_ipv4 ipv4_in_cidr
  is_ipv4_in_cidr ip cidr = elim (cut b'/' cidr) [
    | none ↦ false
    | some (network, prefix) ↦ elim (number prefix) [
      | none ↦ false
      | some prefix_len ↦ if not (leb prefix_len 32) then false else elim (parse_ipv4 ip) [
        | none ↦ false
        | some ip_int ↦ elim (parse_ipv4 network) [
          | none ↦ false
          | some network_int ↦ ipv4_in_cidr ip_int network_int prefix_len
        ]
      ]
    ]
  ]

-- One octet of `IPV4_RE`: 25[0-5] | 2[0-4]\d | 1\d\d | [1-9]?\d
unfoldable pub matches_octet : Text → Bool
unfolding is_digit
matches_octet (a ∷ []) = is_digit a
matches_octet (a ∷ b ∷ []) = leb b'1' a && leb a b'9' && is_digit b
matches_octet (a ∷ b ∷ c ∷ []) =
    a == b'2' && b == b'5' && leb b'0' c && leb c b'5'
    || a == b'2' && leb b'0' b && leb b b'4' && is_digit c
    || a == b'1' && is_digit b && is_digit c
matches_octet _ = false

-- `IPV4_RE.test(s)`: four octets with a dot between each two.
unfoldable pub matches_ipv4 : Text → Bool
unfolding matches_octet
matches_ipv4 s = length (split b'.' s) == 4 && all matches_octet (split b'.' s)
