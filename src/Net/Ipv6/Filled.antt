-- ===== src/Net/Ipv6/Filled.antt =====
-- `parseIPv6` of packages/foundation/src/net/cidr.ts writes all of the 16 bytes, and bytes only.
use saas_foundation.Prelude.{
  ℕ, zero, suc, ◌+◌, ◌-◌, ◌*◌, ◌/◌, ◌%◌, ◌≤◌, ◌<◌, ◌≡◌, ap, inl, inr, true, false, ◌&&◌, Option,
  some, List, [], ◌∷◌, ◌++◌, arith, leb, ◌==◌, if◌then◌else◌, length, length-append, All,
  All-append, Option-cases, Bool-cases,
}
use saas_foundation.Text.{Text, split, has}
use saas_foundation.Net.Ipv6.{
  SplitAddress, write_group, write_groups, zero_groups, fill, ipv4_byte, ipv4_bytes, dotted_bytes,
  last, without_ipv4, ends_dotted, groups_of, strip_zone, cut_double, parse_groups, parse_ipv6,
  hex_from,
}

abbrev Bytes : ℕ → List ℕ → Type 0
Bytes n bytes = (length bytes ≡ n) × All (λ x. x < 256) bytes

Bytes-append : (n m : ℕ) (xs ys : List ℕ) → Bytes n xs → Bytes m ys → Bytes (n + m) (xs ++ ys)
Bytes-append n m xs ys (hx, bx) (hy, by) =
    (omega (arith, length-append xs ys), All-append (λ x. x < 256) xs ys bx by)

write_group-Bytes : (g : Text) (bytes : List ℕ) → write_group g ≡ some bytes → Bytes 2 bytes
unfolding write_group
write_group-Bytes g bytes h = elim (Bool-cases (leb 1 (length g) && leb (length g) 4)) [
  | inl sized ↦ elim (Option-cases (hex_from 0 g)) [
    | inl bad ↦ absurd (cc (rw (sized, bad) at h))
    | inr (val, good) ↦
        let written : val / 256 % 256 ∷ val % 256 ∷ [] ≡ bytes = cc (rw (sized, good) at h) in
        rw (← written) (omega arith, (omega arith, (omega arith, tt)))
  ]
  | inr unsized ↦ absurd (cc (rw unsized at h))
]

write_groups-Bytes :
    (groups : List Text) (bytes : List ℕ)
    → write_groups groups ≡ some bytes
    → Bytes (2 * length groups) bytes
unfolding write_groups
write_groups-Bytes [] bytes h = let e : [] ≡ bytes = cc h in rw (← e) (omega arith, tt)
write_groups-Bytes (g ∷ groups) bytes h = elim (Option-cases (write_group g)) [
  | inl bad ↦ absurd (cc (rw (bad, write_groups) at h))
  | inr (two, good) ↦ elim (Option-cases (write_groups groups)) [
    | inl worse ↦ absurd (cc (rw (good, worse, write_groups) at h))
    | inr (more, better) ↦
        let written : two ++ more ≡ bytes = cc (rw (good, better, write_groups) at h) in
        let size : 2 * length (g ∷ groups) ≡ 2 + 2 * length groups = omega arith in
        rw (← written, size)
          (Bytes-append 2 (2 * length groups) two more (write_group-Bytes g two good)
            (write_groups-Bytes groups more better))
  ]
]

zero_groups-Bytes : (n : ℕ) → Bytes (2 * n) (zero_groups n)
unfolding zero_groups
zero_groups-Bytes zero = (omega arith, tt)
zero_groups-Bytes (suc n) =
    let (size, small) = zero_groups-Bytes n in (omega arith, (omega arith, (omega arith, small)))

-- How many groups of zeros stand for the `::`.
filler : SplitAddress → List ℕ → ℕ
filler g ipv4 = if g.compressed then 8 - (length g.hi + length g.lo + length ipv4 / 2) else 0

fill-parts :
    (g : SplitAddress) (ipv4 bytes : List ℕ)
    → fill g ipv4 ≡ some bytes
    → (front back : List ℕ) × (write_groups g.hi ≡ some front)
      × (write_groups g.lo ≡ some back)
      × (front ++ (zero_groups (filler g ipv4) ++ (back ++ ipv4)) ≡ bytes)
      × (g.compressed ≡ true → length g.hi + length g.lo + length ipv4 / 2 ≤ 8)
      × (g.compressed ≡ false → length g.hi + length ipv4 / 2 ≡ 8)
unfolding fill filler
fill-parts g ipv4 bytes h = elim (Option-cases (write_groups g.hi)) [
  | inl bad ↦ absurd (ground (arith, h, bad))
  | inr (front, good) ↦ elim (Option-cases (write_groups g.lo)) [
    | inl bad ↦ absurd (ground (arith, h, good, bad))
    | inr (back, fine) ↦ (
      front,
      back,
      good,
      fine,
      ground (arith, h, good, fine),
      λ c. ground (arith, h, c),
      λ c. ground (arith, h, c),
    )
  ]
]

total_groups :
    (g : SplitAddress) (ipv4 : List ℕ) (n : ℕ)
    → length ipv4 ≡ 2 * n
    → (g.compressed ≡ false → g.lo ≡ [])
    → (g.compressed ≡ true → length g.hi + length g.lo + length ipv4 / 2 ≤ 8)
    → (g.compressed ≡ false → length g.hi + length ipv4 / 2 ≡ 8)
    → 2 * length g.hi + (2 * filler g ipv4 + (2 * length g.lo + 2 * n)) ≡ 16
unfolding filler
total_groups g ipv4 n size whole fits exact = elim (Bool-cases g.compressed) [
  | inl short ↦ ground (arith, fits short, short, size)
  | inr long ↦
      let none_behind = ap (λ t. length t) (whole long) in
      ground (arith, exact long, long, none_behind, size)
]

-- Filling writes 16 bytes wherever it succeeds, if an address without `::` is one run of groups.
fill-Bytes :
    (g : SplitAddress) (ipv4 bytes : List ℕ) (n : ℕ)
    → Bytes (2 * n) ipv4
    → (g.compressed ≡ false → g.lo ≡ [])
    → fill g ipv4 ≡ some bytes
    → Bytes 16 bytes
unfolding filler
fill-Bytes g ipv4 bytes n (size, small) whole h =
    let (front, back, good, fine, written, fits, exact) = fill-parts g ipv4 bytes h in
    let a = 2 * length g.hi in
    let b = 2 * filler g ipv4 in
    let c = 2 * length g.lo in
    let all_bytes =
      Bytes-append a (b + (c + 2 * n)) front (zero_groups (filler g ipv4) ++ (back ++ ipv4))
        (write_groups-Bytes g.hi front good)
        (Bytes-append b (c + 2 * n) (zero_groups (filler g ipv4)) (back ++ ipv4)
          (zero_groups-Bytes (filler g ipv4))
          (Bytes-append c (2 * n) back ipv4 (write_groups-Bytes g.lo back fine) (size, small))) in
    let total : a + (b + (c + 2 * n)) ≡ 16 = total_groups g ipv4 n size whole fits exact in
    rw (← written, ← total) all_bytes

without_ipv4_whole :
    (g : SplitAddress)
    → (g.compressed ≡ false → g.lo ≡ [])
    → (without_ipv4 g).compressed ≡ false
    → (without_ipv4 g).lo ≡ []
unfolding without_ipv4 last
without_ipv4_whole g whole h = elim (Bool-cases g.compressed) [
  | inl short ↦ absurd (ground (arith, h, short))
  | inr long ↦
      let none_behind = whole long in
      let not_dotted : ends_dotted g.lo ≡ false = ap ends_dotted none_behind in
      elim (Bool-cases (ends_dotted g.hi)) [
        | inl dotted ↦ ground (arith, not_dotted, dotted, none_behind)
        | inr plain ↦ ground (arith, not_dotted, plain, none_behind)
      ]
]

module _ (number : Text → Option ℕ) where
  ipv4_byte_small : (p : Text) (n : ℕ) → ipv4_byte number p ≡ some n → n < 256
  unfolding ipv4_byte
  ipv4_byte_small p n h = elim (Option-cases (number p)) [
    | inl missing ↦ absurd (cc (rw (missing, ipv4_byte) at h))
    | inr (m, found) ↦ ground (arith, rw (found, ipv4_byte) at h)
  ]

  ipv4_bytes-Bytes :
      (parts : List Text) (bytes : List ℕ)
      → ipv4_bytes number parts ≡ some bytes
      → Bytes (length parts) bytes
  unfolding ipv4_bytes
  ipv4_bytes-Bytes [] bytes h = let e : [] ≡ bytes = cc h in rw (← e) (omega arith, tt)
  ipv4_bytes-Bytes (p ∷ parts) bytes h = elim (Option-cases (ipv4_byte number p)) [
    | inl bad ↦ absurd (cc (rw (bad, ipv4_bytes) at h))
    | inr (n, good) ↦ elim (Option-cases (ipv4_bytes number parts)) [
      | inl worse ↦ absurd (cc (rw (good, worse, ipv4_bytes) at h))
      | inr (more, better) ↦
          let written : n ∷ more ≡ bytes = cc (rw (good, better, ipv4_bytes) at h) in
          let (size, small) = ipv4_bytes-Bytes parts more better in
          rw (← written) (omega (arith, size), (ipv4_byte_small p n good, small))
    ]
  ]

  dotted_bytes-Bytes :
      (g : Text) (bytes : List ℕ) → dotted_bytes number g ≡ some bytes → Bytes 4 bytes
  unfolding dotted_bytes
  dotted_bytes-Bytes g bytes h = elim (Bool-cases (length (split b'.' g) == 4)) [
    | inl four ↦
        let e : length (split b'.' g) ≡ 4 = ground arith in
        rw e at (ipv4_bytes-Bytes (split b'.' g) bytes (rw four at h))
    | inr other ↦ absurd (cc (rw other at h))
  ]

  parse_groups-Bytes :
      (g : SplitAddress) (bytes : List ℕ)
      → (g.compressed ≡ false → g.lo ≡ [])
      → parse_groups number g ≡ some bytes
      → Bytes 16 bytes
  unfolding parse_groups
  parse_groups-Bytes g bytes whole h = elim (Option-cases (last (g.hi ++ g.lo))) [
    | inl missing ↦
        fill-Bytes g [] bytes 0 (omega arith, tt) whole (rw (missing, parse_groups) at h)
    | inr (group, found) ↦ elim (Bool-cases (has b'.' group)) [
      | inl dotted ↦ elim (Option-cases (dotted_bytes number group)) [
        | inl bad ↦ absurd (cc (rw (found, parse_groups, dotted, bad) at h))
        | inr (ipv4, good) ↦
            fill-Bytes (without_ipv4 g) ipv4 bytes 2 (dotted_bytes-Bytes group ipv4 good)
              (without_ipv4_whole g whole) (rw (found, parse_groups, dotted, good) at h)
      ]
      | inr plain ↦
          fill-Bytes g [] bytes 0 (omega arith, tt) whole (rw (found, parse_groups, plain) at h)
    ]
  ]

  groups_of_whole : (addr : Text) → (groups_of addr).compressed ≡ false → (groups_of addr).lo ≡ []
  unfolding groups_of
  groups_of_whole addr h = elim (Option-cases (cut_double addr)) [
    | inl missing ↦ rw (missing, groups_of)
    | inr ((a, b), found) ↦ absurd (cc (rw (found, groups_of) at h))
  ]

  -- A text that is read as an IPv6 address gives 16 bytes; the test of their number at the end of
  -- the parser never refuses an address.
  pub parse_ipv6-Bytes :
      (s : Text)
      → ((bytes : List ℕ)
          → parse_ipv6 number s ≡ some bytes
          → (length bytes ≡ 16) × All (λ x. x < 256) bytes)
        × (parse_ipv6 number s ≡ parse_groups number (groups_of (strip_zone s)))
  unfolding parse_ipv6
  parse_ipv6-Bytes s =
      let g = groups_of (strip_zone s) in
      elim (Option-cases (parse_groups number g)) [
        | inl bad ↦ (λ bytes h. absurd (cc (rw (bad, parse_ipv6) at h)), rw (bad, parse_ipv6))
        | inr (found, good) ↦
            let (size, small) = parse_groups-Bytes g found (groups_of_whole (strip_zone s)) good in
            (
              (λ bytes h.
                  let same : found ≡ bytes = cc (rw (good, parse_ipv6, size) at h) in
                  rw (← same) (size, small)),
              rw (good, parse_ipv6, size),
            )
      ]
