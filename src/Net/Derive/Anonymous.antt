-- ===== src/Net/Derive/Anonymous.antt =====
-- What `anonymizeIpPartial` of packages/foundation/src/net/derive.ts takes off an address.
use saas_foundation.Prelude.{
  ℕ, ◌*◌, ◌/◌, ◌%◌, ◌^◌, ◌<◌, ◌≡◌, refl, true, false, ◌||◌, none, [], ◌∷◌, ◌++◌, arith, ltb, ◌==◌,
  length,
}
use saas_foundation.Text.{Text, text_of, has, split, split_parts, has-append}
use saas_foundation.Text.Parts.{join_parts, split_parts-alone, cut-without}
use saas_foundation.Net.Ipv4.{matches_ipv4}
use saas_foundation.Net.Ipv4.Octets.{show_octet}
use saas_foundation.Net.Ipv4.Spelling.{
  print_ipv4, print_ipv4_size, print_ipv4_matches, split-print_ipv4,
}
use saas_foundation.Net.Ipv6.{cut_double, strip_zone}
use saas_foundation.Net.Derive.{anonymize_ip_partial, zero_last_octet}

zeroed :
    (n : ℕ)
    → (n / 256 * 256 / 2 ^ 24 ≡ n / 2 ^ 24)
      × (n / 256 * 256 / 2 ^ 16 % 256 ≡ n / 2 ^ 16 % 256)
      × (n / 256 * 256 / 2 ^ 8 % 256 ≡ n / 2 ^ 8 % 256)
      × (n / 256 * 256 % 256 ≡ 0)
zeroed n = omega arith

first_octets :
    (n : ℕ)
    → zero_last_octet (
        show_octet (n / 2 ^ 24)
        ∷ show_octet (n / 2 ^ 16 % 256)
        ∷ show_octet (n / 2 ^ 8 % 256)
        ∷ show_octet (n % 256)
        ∷ [])
      ≡ print_ipv4 (n / 256 * 256)
unfolding zero_last_octet print_ipv4 show_octet
first_octets n = let (a, b, c, d) = zeroed n in rw (a, b, c, d)

-- The anonymous form of an IPv4 address is the first address of its block of 256.
pub anonymize_ip_partial-print_ipv4 :
    (n : ℕ) → n < 2 ^ 32 → anonymize_ip_partial (print_ipv4 n) ≡ print_ipv4 (n / 256 * 256)
unfolding anonymize_ip_partial
anonymize_ip_partial-print_ipv4 n small =
    let size = print_ipv4_size n in
    let there : (length (print_ipv4 n) == 0) ≡ false = ground arith in
    rw (there, print_ipv4_matches n small, split-print_ipv4 n) (first_octets n)

-- An IPv4 address in the long form of an IPv6 address that maps it.
abbrev pub long_mapped : ℕ → Text
long_mapped n = text_of "0:0:0:0:0:ffff:" ++ print_ipv4 n

show_octet-has_other :
    (c n : ℕ) → n < 256 → (ltb c 46 || ltb 57 c) ≡ true → has c (show_octet n) ≡ false
unfolding show_octet has
show_octet-has_other c n small h = ground arith

-- Digits and dots are all that the form of an IPv4 address has.
print_ipv4-has :
    (c n : ℕ) → n < 2 ^ 32 → (ltb c 46 || ltb 57 c) ≡ true → has c (print_ipv4 n) ≡ false
unfolding print_ipv4 join_parts has
print_ipv4-has c n small h =
    let a = n / 2 ^ 24 in
    let b = n / 2 ^ 16 % 256 in
    let d = n / 2 ^ 8 % 256 in
    let e = n % 256 in
    let no_dot : (b'.' == c) ≡ false = ground arith in
    rw (
      has-append c (show_octet a)
          (b'.' ∷ (show_octet b ++ (b'.' ∷ (show_octet d ++ (b'.' ∷ show_octet e))))),
      has-append c (show_octet b) (b'.' ∷ (show_octet d ++ (b'.' ∷ show_octet e))),
      has-append c (show_octet d) (b'.' ∷ show_octet e),
      show_octet-has_other c a (omega arith) h,
      show_octet-has_other c b (omega arith) h,
      show_octet-has_other c d (omega arith) h,
      show_octet-has_other c e (omega arith) h,
      no_dot,
    )

cut_double-without : (c : ℕ) (s : Text) → has b':' s ≡ false → cut_double (c ∷ s) ≡ none
unfolding cut_double has
cut_double-without c [] h = refl
cut_double-without c (x ∷ s) h = ground (arith, cut_double-without x s)

long_mapped-cut_double : (n : ℕ) → n < 2 ^ 32 → cut_double (long_mapped n) ≡ none
unfolding cut_double
long_mapped-cut_double n small =
    rw (cut_double-without b':' (print_ipv4 n) (print_ipv4-has b':' n small refl))

long_mapped-strip_zone : (n : ℕ) → n < 2 ^ 32 → strip_zone (long_mapped n) ≡ long_mapped n
unfolding has strip_zone
long_mapped-strip_zone n small =
    rw (cut-without b'%' (long_mapped n) (print_ipv4-has b'%' n small refl), strip_zone)

long_mapped-split : (n : ℕ) → n < 2 ^ 32 → length (split b':' (long_mapped n)) ≡ 7
unfolding split split_parts
long_mapped-split n small =
    rw (split_parts-alone b':' (print_ipv4 n) (print_ipv4-has b':' n small refl))

long_mapped-matches : (n : ℕ) → matches_ipv4 (long_mapped n) ≡ false
unfolding matches_ipv4 split split_parts
long_mapped-matches n = ground arith

-- The long form of an address that maps an IPv4 address is left as it is, with the whole IPv4
-- address.
pub anonymize_ip_partial-long_mapped :
    (n : ℕ) → n < 2 ^ 32 → anonymize_ip_partial (long_mapped n) ≡ long_mapped n
unfolding anonymize_ip_partial
anonymize_ip_partial-long_mapped n small =
    rw
      (
        long_mapped-matches n,
        long_mapped-strip_zone n small,
        long_mapped-cut_double n small,
        long_mapped-strip_zone n small,
        long_mapped-split n small,
      )
      (ground arith)
