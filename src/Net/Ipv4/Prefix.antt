-- ===== src/Net/Ipv4/Prefix.antt =====
-- `ipv4InCidr` of packages/foundation/src/net/cidr.ts and the addresses with a common prefix.
use Prim.Native.Nat.{bit_and}
use saas_foundation.Prelude.{
  ℕ, ◌+◌, ◌-◌, ◌/◌, ◌^◌, ◌≤◌, ◌<◌, ◌≡◌, refl, ap, ◌∙◌, ◌↔◌, true, arith, ◌==◌, Bool-cases, inl, inr,
}
use saas_foundation.Prelude.Bits.{same_masked}
use saas_foundation.Net.Ipv4.{mask_of, ipv4_in_cidr}

masked_lem :
    (p x y : ℕ)
    → p ≤ 32
    → x < 2 ^ 32
    → y < 2 ^ 32
    → (bit_and x (mask_of p) == bit_and y (mask_of p)) ≡ (x / 2 ^ (32 - p) == y / 2 ^ (32 - p))
unfolding mask_of
masked_lem p x y h hx hy =
    let n : 32 ≡ 32 - p + p = omega arith in
    let e = ap (λ (k : ℕ). 2 ^ k) n in
    ap (λ (m : ℕ). bit_and x (m - 2 ^ (32 - p)) == bit_and y (m - 2 ^ (32 - p))) e
    ∙ same_masked (32 - p) p x y (rw e at hx) (rw e at hy)

-- Two addresses agree under a prefix of `p` bits exactly if their first `p` bits are the same number.
pub ipv4_in_cidr_iff :
    (ip network p : ℕ)
    → ip < 2 ^ 32
    → network < 2 ^ 32
    → p ≤ 32
    → (ipv4_in_cidr ip network p ≡ true) ↔ (ip / 2 ^ (32 - p) ≡ network / 2 ^ (32 - p))
unfolding ipv4_in_cidr
ipv4_in_cidr_iff ip network p hi hn hp = elim (Bool-cases (p == 0)) [
  | inl all_of ↦ let none_of : p ≡ 0 = ground arith in rw none_of ((λ _. omega arith), (λ _. refl))
  | inr some_of ↦ elim (Bool-cases (p == 32)) [
    | inl full ↦
        let whole : p ≡ 32 = ground arith in rw whole ((λ h. ground arith), (λ h. ground arith))
    | inr part ↦ rw (some_of, part) (ground (arith, masked_lem p ip network hp hi hn))
  ]
]
