-- ===== src/Net/Ipv6.antt =====
-- packages/foundation/src/net/cidr.ts, the helpers for IPv6.
pub mod Filled
pub mod Prefix
use Prim.Native.Nat.{bit_and}
use saas_foundation.Prelude.{
  ℕ, zero, suc, ◌+◌, ◌-◌, ◌*◌, ◌/◌, ◌%◌, ◌^◌, Bool, true, false, not, ◌&&◌, Option, none, some,
  List, [], ◌∷◌, ◌++◌, ltb, leb, ◌==◌, if◌then◌else◌, length, is_digit,
}
use saas_foundation.Text.{Text, split, cut, has}

-- What is before and after the first `::`, if there is one.
unfoldable pub cut_double : Text → Option (Text × Text)
cut_double [] = none
cut_double (x ∷ []) = none
cut_double (x ∷ y ∷ s) =
    let rest = cut_double (y ∷ s) in
    if x == b':' && y == b':'
    then some ([], s)
    else elim rest [ none ↦ none | some (a, b) ↦ some (x ∷ a, b) ]

-- `filter((x) => x !== "")`
unfoldable pub non_empty : List Text → List Text
non_empty [] = []
non_empty ([] ∷ parts) = non_empty parts
non_empty ((c ∷ s) ∷ parts) = (c ∷ s) ∷ non_empty parts

unfoldable pub last : List Text → Option Text
last [] = none
last (g ∷ []) = some g
last (g ∷ h ∷ groups) = last (h ∷ groups)

-- `slice(0, length - 1)`
unfoldable pub drop_last : List Text → List Text
drop_last [] = []
drop_last (g ∷ []) = []
drop_last (g ∷ h ∷ groups) = g ∷ drop_last (h ∷ groups)

unfoldable pub hex_value : ℕ → Option ℕ
unfolding is_digit
hex_value c =
    if is_digit c
    then some (c - b'0')
    else if leb b'a' c && leb c b'f'
    then some (c - 87)
    else if leb b'A' c && leb c b'F'
    then some (c - 55)
    else none

-- `parseInt(hexStr, 16)` where every character is a hex digit
unfoldable pub hex_from : ℕ → Text → Option ℕ
unfolding hex_value
hex_from n [] = some n
hex_from n (c ∷ s) = elim (hex_value c) [ none ↦ none | some d ↦ hex_from (n * 16 + d) s ]

-- `/^[0-9a-fA-F]{1,4}$/` and the two bytes of the value
unfoldable pub write_group : Text → Option (List ℕ)
unfolding hex_from
write_group g =
    if leb 1 (length g) && leb (length g) 4
    then elim (hex_from 0 g) [ none ↦ none | some val ↦ some (val / 256 % 256 ∷ val % 256 ∷ []) ]
    else none

unfoldable pub write_groups : List Text → Option (List ℕ)
write_groups [] = some []
write_groups (g ∷ groups) = elim (write_group g) [
  | none ↦ none
  | some bytes ↦ elim (write_groups groups) [ none ↦ none | some rest ↦ some (bytes ++ rest) ]
]

unfoldable pub zero_groups : ℕ → List ℕ
zero_groups zero = []
zero_groups (suc n) = 0 ∷ 0 ∷ zero_groups n

-- The groups before and after the `::`, and whether there is one.
pub record SplitAddress : Type 0 where
  pub hi : List Text
  pub lo : List Text
  pub compressed : Bool

unfoldable pub strip_zone : Text → Text
strip_zone s = elim (cut b'%' s) [ none ↦ s | some (addr, zone) ↦ addr ]

unfoldable pub groups_of : Text → SplitAddress
unfolding cut_double non_empty split
groups_of addr = elim (cut_double addr) [
  | none ↦ record { hi = split b':' addr; lo = []; compressed = false }
  | some (a, b) ↦ record {
    hi = non_empty (split b':' a);
    lo = non_empty (split b':' b);
    compressed = true;
  }
]

unfoldable pub ends_dotted : List Text → Bool
unfolding last has
ends_dotted groups = elim (last groups) [ none ↦ false | some g ↦ has b'.' g ]

-- The groups without the last one of them, which is an IPv4 address.
unfoldable pub without_ipv4 : SplitAddress → SplitAddress
unfolding ends_dotted drop_last
without_ipv4 g =
    if ends_dotted g.lo
    then record { hi = g.hi; lo = drop_last g.lo; compressed = g.compressed }
    else if ends_dotted g.hi
    then record { hi = drop_last g.hi; lo = g.lo; compressed = g.compressed }
    else g

-- The bytes that the groups and the IPv4 bytes at the end are written to, before their number is
-- tested.
unfoldable pub fill : SplitAddress → List ℕ → Option (List ℕ)
unfolding write_groups zero_groups
fill g ipv4 =
    let ipv4_groups = length ipv4 / 2 in
    let taken = length g.hi + length g.lo + ipv4_groups in
    if g.compressed && ltb 8 taken
    then none
    else if not g.compressed && not (length g.hi + ipv4_groups == 8)
    then none
    else elim (write_groups g.hi) [
      | none ↦ none
      | some front ↦ elim (write_groups g.lo) [
        | none ↦ none
        | some back ↦
            some (front ++ (zero_groups (if g.compressed then 8 - taken else 0) ++ (back ++ ipv4)))
      ]
    ]

-- `number` is the language's `Number` of a text, where it is a natural number.
module _ (number : Text → Option ℕ) where
  unfoldable pub ipv4_byte : Text → Option ℕ
  ipv4_byte part = elim (number part) [ none ↦ none | some n ↦ if leb n 255 then some n else none ]

  unfoldable pub ipv4_bytes : List Text → Option (List ℕ)
  unfolding ipv4_byte
  ipv4_bytes [] = some []
  ipv4_bytes (p ∷ parts) = elim (ipv4_byte p) [
    | none ↦ none
    | some n ↦ elim (ipv4_bytes parts) [ none ↦ none | some rest ↦ some (n ∷ rest) ]
  ]

  unfoldable pub dotted_bytes : Text → Option (List ℕ)
  unfolding ipv4_bytes split
  dotted_bytes g = if length (split b'.' g) == 4 then ipv4_bytes (split b'.' g) else none

  unfoldable pub parse_groups : SplitAddress → Option (List ℕ)
  unfolding last has dotted_bytes without_ipv4 fill
  parse_groups g = elim (last (g.hi ++ g.lo)) [
    | none ↦ fill g []
    | some group ↦
        if has b'.' group
        then elim (dotted_bytes group) [ none ↦ none | some ipv4 ↦ fill (without_ipv4 g) ipv4 ]
        else fill g []
  ]

  unfoldable pub parse_ipv6 : Text → Option (List ℕ)
  unfolding parse_groups groups_of strip_zone
  parse_ipv6 s = elim (parse_groups (groups_of (strip_zone s))) [
    | none ↦ none
    | some bytes ↦ if length bytes == 16 then some bytes else none
  ]

-- `bytes[i] ?? 0`, and the bytes behind it
unfoldable pub first_byte : List ℕ → ℕ
first_byte [] = 0
first_byte (x ∷ bytes) = x

unfoldable pub rest_bytes : List ℕ → List ℕ
rest_bytes [] = []
rest_bytes (x ∷ bytes) = bytes

-- `0xff & (0xff << (8 - remainingBits))`
unfoldable pub byte_mask : ℕ → ℕ
byte_mask remaining_bits = bit_and 255 (255 * 2 ^ (8 - remaining_bits))

unfoldable pub same_prefix : ℕ → ℕ → List ℕ → List ℕ → Bool
unfolding first_byte rest_bytes
same_prefix zero remaining_bits ip network =
    if ltb 0 remaining_bits
    then bit_and (first_byte ip) (byte_mask remaining_bits)
      == bit_and (first_byte network) (byte_mask remaining_bits)
    else true
same_prefix (suc full_bytes) remaining_bits ip network =
    first_byte ip == first_byte network
    && same_prefix full_bytes remaining_bits (rest_bytes ip) (rest_bytes network)

unfoldable pub ipv6_in_cidr : List ℕ → List ℕ → ℕ → Bool
unfolding same_prefix
ipv6_in_cidr ip network prefix_len =
    if prefix_len == 0 then true else same_prefix (prefix_len / 8) (prefix_len % 8) ip network

module _ (number : Text → Option ℕ) where
  unfoldable pub is_ipv6_in_cidr : Text → Text → Bool
  unfolding parse_ipv6 ipv6_in_cidr
  is_ipv6_in_cidr ip cidr = elim (cut b'/' cidr) [
    | none ↦ false
    | some (network, prefix) ↦ elim (number prefix) [
      | none ↦ false
      | some prefix_len ↦ if not (leb prefix_len 128) then false else elim (parse_ipv6 number ip) [
        | none ↦ false
        | some ip_bytes ↦ elim (parse_ipv6 number network) [
          | none ↦ false
          | some network_bytes ↦ ipv6_in_cidr ip_bytes network_bytes prefix_len
        ]
      ]
    ]
  ]
