-- ===== src/Net/Derive/Trust.antt =====
-- What `trustedClientIp` of packages/foundation/src/net/derive.ts can give.
use saas_foundation.Prelude.{
  ℕ, ◌+◌, ◌-◌, ◌*◌, ◌/◌, ◌^◌, ◌≤◌, ◌<◌, ◌≡◌, ◌≢◌, ◌↔◌, refl, ap, ◌∙◌, inl, inr, true, false, ◌&&◌,
  ◌||◌, Option, none, some, List, [], ◌∷◌, any, All, arith, leb, le→leb, ltb, ◌==◌, if◌then◌else◌,
  length, is_digit, Option-cases, Bool-cases,
}
use saas_foundation.Text.{Text, cut, split, split_parts}
use saas_foundation.Net.Ipv4.{
  decimal, decimal_from, is_digits, has_leading_zero, octet, shift_in, read_octets, parse_ipv4,
  ipv4_in_cidr, is_ipv4_in_cidr,
}
use saas_foundation.Net.Ipv4.Spelling.{
  print_ipv4, parse_ipv4_iff, print_ipv4_size, print_ipv4_matches,
}
use saas_foundation.Net.Ipv4.Prefix.{ipv4_in_cidr_iff}
use saas_foundation.Net.Reserved.{rfc6890_ipv4_reserved}
use saas_foundation.Net.Derive.{
  is_ip_shape, is_reserved_ip, trusted_client_ip, candidate_of, TrustedProxyMode, RequestSource,
  unknown,
}

-- A block of addresses by its first address and the length of its prefix, and an address of it.
pub record Block : Type 0 where
  pub network : ℕ
  pub prefix : ℕ

abbrev pub block : ℕ → ℕ → ℕ → ℕ → ℕ → Block
block a b c d p = record { network = a * 2 ^ 24 + b * 2 ^ 16 + c * 2 ^ 8 + d; prefix = p }

abbrev pub Within : ℕ → Block → Type 0
Within ip b = ip / 2 ^ (32 - b.prefix) ≡ b.network / 2 ^ (32 - b.prefix)

-- The special-purpose blocks of RFC 6890, with the documentation and the reserved ones.
abbrev pub special_blocks : List Block
special_blocks =
    block 0 0 0 0 8
    ∷ block 10 0 0 0 8
    ∷ block 100 64 0 0 10
    ∷ block 127 0 0 0 8
    ∷ block 169 254 0 0 16
    ∷ block 172 16 0 0 12
    ∷ block 192 0 0 0 24
    ∷ block 192 0 2 0 24
    ∷ block 192 168 0 0 16
    ∷ block 198 18 0 0 15
    ∷ block 198 51 100 0 24
    ∷ block 203 0 113 0 24
    ∷ block 224 0 0 0 4
    ∷ block 240 0 0 0 4
    ∷ block 255 255 255 255 32
    ∷ []

-- How a block is written, for a text of digits behind the slash.
read_block : Text → Option Block
read_block cidr = elim (cut b'/' cidr) [
  | none ↦ none
  | some (network, prefix) ↦
      if is_digits prefix && leb (decimal prefix) 32
      then elim (parse_ipv4 network) [
        | none ↦ none
        | some n ↦ some (record { network = n; prefix = decimal prefix })
      ]
      else none
]

read_blocks : List Text → Option (List Block)
read_blocks [] = some []
read_blocks (cidr ∷ cidrs) = elim (read_block cidr) [
  | none ↦ none
  | some b ↦ elim (read_blocks cidrs) [ none ↦ none | some more ↦ some (b ∷ more) ]
]

reserved_read : read_blocks rfc6890_ipv4_reserved ≡ some special_blocks
unfolding read_blocks read_block rfc6890_ipv4_reserved cut is_digits is_digit decimal decimal_from
    parse_ipv4 read_octets octet shift_in split split_parts has_leading_zero
reserved_read = refl

-- A block that is read is a network of 32 bits and a prefix of at most 32.
abbrev Proper : Block → Type 0
Proper b = (b.network < 2 ^ 32) × (b.prefix ≤ 32)

read_block-parts :
    (cidr : Text) (b : Block)
    → read_block cidr ≡ some b
    → (network prefix : Text) × (cut b'/' cidr ≡ some (network, prefix))
      × (is_digits prefix ≡ true)
      × (decimal prefix ≡ b.prefix)
      × (parse_ipv4 network ≡ some b.network)
      × Proper b
unfolding read_block
read_block-parts cidr b h = elim (Option-cases (cut b'/' cidr)) [
  | inl missing ↦ absurd (cc (rw (missing, read_block) at h))
  | inr ((network, prefix), found) ↦
      elim (Bool-cases (is_digits prefix && leb (decimal prefix) 32)) [
        | inr bad ↦ absurd (cc (rw (found, read_block, bad) at h))
        | inl good ↦ elim (Option-cases (parse_ipv4 network)) [
          | inl unread ↦ absurd (cc (rw (found, read_block, good, unread) at h))
          | inr (n, parsed) ↦
              let same : record { network = n; prefix = decimal prefix } ≡ b =
                cc (rw (found, read_block, good, parsed) at h) in
              let e = ap (λ (c : Block). c.network) same in
              let at_most : decimal prefix ≤ 32 = ground arith in
              let p = ap (λ (c : Block). c.prefix) same in
              let small = ((parse_ipv4_iff network n).0 parsed).0 in
              (
                network,
                prefix,
                found,
                ground arith,
                p,
                parsed ∙ ap some e,
                (omega (arith, e, small), omega (arith, p, at_most)),
              )
        ]
      ]
]

print_ipv4_shape : (n : ℕ) → n < 2 ^ 32 → is_ip_shape (print_ipv4 n) ≡ true
unfolding is_ip_shape
print_ipv4_shape n small =
    let size = print_ipv4_size n in
    let sized : (length (print_ipv4 n) == 0 || ltb 64 (length (print_ipv4 n))) ≡ false =
      ground arith in
    rw (sized, print_ipv4_matches n small)

-- `number` reads a text of digits as its decimal value, which is what the language documents.
module _ (number : Text → Option ℕ)
    (reads_digits : (s : Text) → is_digits s ≡ true → number s ≡ some (decimal s)) where
  in_block :
      (s cidr : Text) (n : ℕ) (b : Block)
      → parse_ipv4 s ≡ some n
      → read_block cidr ≡ some b
      → is_ipv4_in_cidr number s cidr ≡ ipv4_in_cidr n b.network b.prefix
  in_block s cidr n b parsed h =
      let (network, prefix, found, digits, value, read, proper) = read_block-parts cidr b h in
      unfold is_ipv4_in_cidr in
      rw
        (
          found,
          is_ipv4_in_cidr,
          reads_digits prefix digits,
          le→leb (decimal prefix) 32 (omega (arith, value, proper.1)),
          parsed,
          read,
        )
        (ap (ipv4_in_cidr n b.network) value)

  -- The texts of the blocks and the blocks they read as contain the same addresses.
  in_blocks :
      (s : Text) (n : ℕ) (cidrs : List Text) (blocks : List Block)
      → parse_ipv4 s ≡ some n
      → read_blocks cidrs ≡ some blocks
      → any (is_ipv4_in_cidr number s) cidrs ≡ any (λ b. ipv4_in_cidr n b.network b.prefix) blocks
        × All Proper blocks
  unfolding read_blocks
  in_blocks s n [] blocks parsed h = let e : [] ≡ blocks = cc h in rw (← e) (refl, tt)
  in_blocks s n (cidr ∷ cidrs) blocks parsed h = elim (Option-cases (read_block cidr)) [
    | inl bad ↦ absurd (cc (rw (bad, read_blocks) at h))
    | inr (b, good) ↦ elim (Option-cases (read_blocks cidrs)) [
      | inl worse ↦ absurd (cc (rw (good, read_blocks, worse) at h))
      | inr (more, better) ↦
          let whole : b ∷ more ≡ blocks = cc (rw (good, read_blocks, better) at h) in
          let (network, prefix, found, digits, value, read, proper) =
            read_block-parts cidr b good in
          let (same, all_proper) = in_blocks s n cidrs more parsed better in
          rw (← whole, in_block s cidr n b parsed good, same) (refl, (proper, all_proper))
    ]
  ]

  -- An address is in none of the blocks exactly if it shares the prefix of none.
  outside_iff :
      (n : ℕ) (blocks : List Block)
      → n < 2 ^ 32
      → All Proper blocks
      → (any (λ b. ipv4_in_cidr n b.network b.prefix) blocks ≡ false)
        ↔ All (λ b. ¬ (Within n b)) blocks
  outside_iff n [] small proper = ((λ h. tt), (λ h. refl))
  outside_iff n (b ∷ blocks) small (here, later) =
      let at = ipv4_in_cidr_iff n b.network b.prefix small here.0 here.1 in
      let others = outside_iff n blocks small later in
      elim (Bool-cases (ipv4_in_cidr n b.network b.prefix)) [
        | inl inside ↦ (λ h. absurd (cc (rw inside at h)), λ h. absurd (h.0 (at.0 inside)))
        | inr outside ↦ (
          λ h. ((λ w. absurd (cc (at.1 w, outside))), others.0 (rw outside at h)),
          λ h. rw outside (others.1 h.1),
        )
      ]

  reserved_iff :
      (n : ℕ)
      → n < 2 ^ 32
      → (is_reserved_ip number (print_ipv4 n) ≡ false) ↔ All (λ b. ¬ (Within n b)) special_blocks
  unfolding is_reserved_ip
  reserved_iff n small =
      let read = (parse_ipv4_iff (print_ipv4 n) n).1 (small, refl) in
      let (same, proper) =
        in_blocks (print_ipv4 n) n rfc6890_ipv4_reserved special_blocks read reserved_read in
      let size = print_ipv4_size n in
      let there : (length (print_ipv4 n) == 0) ≡ false = ground arith in
      rw (there, print_ipv4_matches n small, same) (outside_iff n special_blocks small proper)

  -- Where a request's address is an IPv4 address, by whatever header the mode trusts, it is given
  -- exactly if it shares the prefix of no special-purpose block, and else `unknown` is given.
  pub trusted_client_ip_iff :
      (r : RequestSource) (mode : TrustedProxyMode) (n : ℕ)
      → n < 2 ^ 32
      → candidate_of mode r ≡ some (print_ipv4 n)
      → (All (λ b. ¬ (Within n b)) special_blocks → trusted_client_ip number r mode ≡ print_ipv4 n)
        × (trusted_client_ip number r mode ≢ unknown → All (λ b. ¬ (Within n b)) special_blocks)
  unfolding trusted_client_ip
  trusted_client_ip_iff r mode n small found =
      let shape = print_ipv4_shape n small in
      let reserved = reserved_iff n small in
      elim (Bool-cases (is_reserved_ip number (print_ipv4 n))) [
        | inl inside ↦ (
          λ outside. absurd (cc (inside, reserved.1 outside)),
          λ given. absurd (given (rw (found, trusted_client_ip, shape, inside))),
        )
        | inr outside ↦
            (λ _. rw (found, trusted_client_ip, shape, outside), λ _. reserved.0 outside)
      ]
