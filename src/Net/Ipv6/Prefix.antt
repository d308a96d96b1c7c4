-- ===== src/Net/Ipv6/Prefix.antt =====
-- `ipv6InCidr` of packages/foundation/src/net/cidr.ts and the bits of the addresses.
use Prim.Native.Nat.{bit_and}
use native.Mathlib.Nat.{div-div-eq-div-mul, pow-succ', div-lt_iff_lt-mul, one-le-pow, div-one}
use mathlib.Core.List.{append-nil}
use saas_foundation.Prelude.{
  ℕ, zero, suc, ◌+◌, ◌-◌, ◌*◌, ◌/◌, ◌%◌, ◌^◌, ◌≤◌, ◌<◌, ◌≡◌, refl, sym, ap, ◌∙◌, ◌&&◌, List, [],
  ◌∷◌, ◌++◌, arith, ◌==◌, length, length-append, All, same_numbers, Bool-cases, inl, inr,
}
use saas_foundation.Prelude.Bits.{same_masked, pow_add}
use saas_foundation.Net.Ipv6.{byte_mask, same_prefix, ipv6_in_cidr}

-- The lowest `n` bits of a number, the highest of them first.
unfoldable pub low_bits : ℕ → ℕ → List ℕ
low_bits zero x = []
low_bits (suc n) x = low_bits n (x / 2) ++ (x % 2 ∷ [])

-- The bits of an address, byte by byte.
unfoldable pub bits : List ℕ → List ℕ
bits [] = []
bits (x ∷ bytes) = low_bits 8 x ++ bits bytes

abbrev pub take {ℓ} : {A : Type ℓ} → ℕ → List A → List A
take zero xs = []
take (suc n) [] = []
take (suc n) (x ∷ xs) = x ∷ take n xs

length-low_bits : (n x : ℕ) → length (low_bits n x) ≡ n
unfolding low_bits
length-low_bits zero x = refl
length-low_bits (suc n) x =
    omega (arith, length-append (low_bits n (x / 2)) (x % 2 ∷ []), length-low_bits n (x / 2))

take-append {ℓ} :
    {A : Type ℓ} (n m : ℕ) (xs ys : List A)
    → length xs ≡ n
    → take (n + m) (xs ++ ys) ≡ xs ++ take m ys
take-append n m [] ys h = let e : n + m ≡ m = omega arith in rw e
take-append n m (x ∷ xs) ys h =
    let e : n + m ≡ suc (length xs + m) = omega arith in
    rw e (ap (λ t. x ∷ t) (take-append (length xs) m xs ys refl))

same_numbers-append :
    (xs ys us vs : List ℕ)
    → length xs ≡ length ys
    → same_numbers (xs ++ us) (ys ++ vs) ≡ same_numbers xs ys && same_numbers us vs
unfolding same_numbers
same_numbers-append [] [] us vs h = refl
same_numbers-append [] (y ∷ ys) us vs h = absurd (omega arith)
same_numbers-append (x ∷ xs) [] us vs h = absurd (omega arith)
same_numbers-append (x ∷ xs) (y ∷ ys) us vs h = ground (arith, same_numbers-append xs ys us vs)

halves : (x y : ℕ) → (x / 2 == y / 2) && (x % 2 == y % 2) ≡ (x == y)
halves x y = ground arith

-- Numbers of `n` bits are the same if their bits are.
same-low_bits :
    (n x y : ℕ) → x < 2 ^ n → y < 2 ^ n → same_numbers (low_bits n x) (low_bits n y) ≡ (x == y)
unfolding same_numbers low_bits
same-low_bits zero x y hx hy = ground arith
same-low_bits (suc n) x y hx hy =
    same_numbers-append (low_bits n (x / 2)) (low_bits n (y / 2)) (x % 2 ∷ []) (y % 2 ∷ [])
      (length-low_bits n (x / 2) ∙ sym (length-low_bits n (y / 2)))
    ∙ ground (
      arith,
      halves x y,
      same-low_bits n (x / 2) (y / 2) (omega (arith, pow-succ' 2 n)) (omega (arith, pow-succ' 2 n)),
    )

append_assoc : (xs ys zs : List ℕ) → (xs ++ ys) ++ zs ≡ xs ++ (ys ++ zs)
append_assoc [] ys zs = refl
append_assoc (x ∷ xs) ys zs = ap (λ t. x ∷ t) (append_assoc xs ys zs)

-- The first `r` bits of a number of `r + k` bits are those of its quotient.
take-low_bits :
    (r k x : ℕ) (more : List ℕ) → take r (low_bits (k + r) x ++ more) ≡ low_bits r (x / 2 ^ k)
unfolding low_bits
take-low_bits r zero x more =
    let none_of : 0 + r ≡ r = omega arith in
    let all_of : r ≡ r + 0 = omega arith in
    rw none_of (
      ap (λ n. take n (low_bits r x ++ more)) all_of
      ∙ take-append r 0 (low_bits r x) more (length-low_bits r x)
      ∙ rw (append-nil (low_bits r x), div-one x))
take-low_bits r (suc k) x more =
    let e : suc k + r ≡ suc (k + r) = omega arith in
    rw
      (
        e,
        append_assoc (low_bits (k + r) (x / 2)) (x % 2 ∷ []) more,
        take-low_bits r k (x / 2) (x % 2 ∷ more),
      )
      (ap (low_bits r) (div-div-eq-div-mul x 2 (2 ^ k) ∙ ap (λ d. x / d) (sym (pow-succ' 2 k))))

byte_mask_lem : (r : ℕ) → r < 8 → byte_mask r ≡ 2 ^ 8 - 2 ^ (8 - r)
unfolding byte_mask
byte_mask_lem zero h = refl
byte_mask_lem (suc zero) h = refl
byte_mask_lem (suc (suc zero)) h = refl
byte_mask_lem (suc (suc (suc zero))) h = refl
byte_mask_lem (suc (suc (suc (suc zero)))) h = refl
byte_mask_lem (suc (suc (suc (suc (suc zero))))) h = refl
byte_mask_lem (suc (suc (suc (suc (suc (suc zero)))))) h = refl
byte_mask_lem (suc (suc (suc (suc (suc (suc (suc zero))))))) h = refl
byte_mask_lem (suc (suc (suc (suc (suc (suc (suc (suc r)))))))) h = absurd (omega arith)

quotient_small : (k n x : ℕ) → x < 2 ^ (k + n) → x / 2 ^ k < 2 ^ n
quotient_small k n x h =
    (div-lt_iff_lt-mul (one-le-pow k 2 (omega arith))).1 (grind (arith, pow_add k n))

masked_bits :
    (r x y : ℕ) (xs ys : List ℕ)
    → r < 8
    → x < 256
    → y < 256
    → (bit_and x (byte_mask r) == bit_and y (byte_mask r))
      ≡ same_numbers (take r (low_bits 8 x ++ xs)) (take r (low_bits 8 y ++ ys))
masked_bits r x y xs ys h hx hy =
    let e : 8 ≡ 8 - r + r = omega arith in
    let prefix : (z : ℕ) (zs : List ℕ)
        → take r (low_bits 8 z ++ zs) ≡ low_bits r (z / 2 ^ (8 - r)) =
      λ z zs. ap (λ n. take r (low_bits n z ++ zs)) e ∙ take-low_bits r (8 - r) z zs in
    let mask = byte_mask_lem r h ∙ ap (λ n. 2 ^ n - 2 ^ (8 - r)) e in
    let small : (z : ℕ) → z < 256 → z < 2 ^ (8 - r + r) = λ z hz. rw (← e) hz in
    rw (prefix x xs, prefix y ys, mask, same_masked (8 - r) r x y (small x hx) (small y hy))
      (sym (
        same-low_bits r (x / 2 ^ (8 - r)) (y / 2 ^ (8 - r))
          (quotient_small (8 - r) r x (small x hx)) (quotient_small (8 - r) r y (small y hy))))

base_bits :
    (r : ℕ) (xs ys : List ℕ)
    → r < 8
    → length xs ≡ length ys
    → r ≤ 8 * length xs
    → All (λ x. x < 256) xs
    → All (λ y. y < 256) ys
    → same_prefix 0 r xs ys ≡ same_numbers (take r (bits xs)) (take r (bits ys))
unfolding same_prefix bits
base_bits zero xs ys h e bound hx hy = unfold same_numbers in refl
base_bits (suc r) [] ys h e bound hx hy = absurd (omega arith)
base_bits (suc r) (x ∷ xs) [] h e bound hx hy = absurd (omega arith)
base_bits (suc r) (x ∷ xs) (y ∷ ys) h e bound hx hy =
    ground (arith, masked_bits (suc r) x y (bits xs) (bits ys) h hx.0 hy.0)

-- Under a prefix, two addresses are compared by their bits up to there.
same_prefix-bits :
    (full r : ℕ) (xs ys : List ℕ)
    → r < 8
    → length xs ≡ length ys
    → 8 * full + r ≤ 8 * length xs
    → All (λ x. x < 256) xs
    → All (λ y. y < 256) ys
    → same_prefix full r xs ys
      ≡ same_numbers (take (8 * full + r) (bits xs)) (take (8 * full + r) (bits ys))
unfolding same_prefix bits
same_prefix-bits zero r xs ys h e bound hx hy =
    let none_of : 8 * 0 + r ≡ r = omega arith in
    rw none_of (base_bits r xs ys h e (omega arith) hx hy)
same_prefix-bits (suc full) r [] ys h e bound hx hy = absurd (omega arith)
same_prefix-bits (suc full) r (x ∷ xs) [] h e bound hx hy = absurd (omega arith)
same_prefix-bits (suc full) r (x ∷ xs) (y ∷ ys) h e bound hx hy =
    let next : 8 * suc full + r ≡ 8 + (8 * full + r) = omega arith in
    let n = 8 * full + r in
    rw (
      next,
      take-append 8 n (low_bits 8 x) (bits xs) (length-low_bits 8 x),
      take-append 8 n (low_bits 8 y) (bits ys) (length-low_bits 8 y),
      same_numbers-append (low_bits 8 x) (low_bits 8 y) (take n (bits xs)) (take n (bits ys))
          (length-low_bits 8 x ∙ sym (length-low_bits 8 y)),
      same-low_bits 8 x y hx.0 hy.0,
      same_prefix-bits full r xs ys h (omega arith) (omega arith) hx.1 hy.1,
    )

-- Two addresses agree under a prefix exactly if their bits up to there are the same.
pub ipv6_in_cidr-bits :
    (ip network : List ℕ) (p : ℕ)
    → length ip ≡ 16
    → length network ≡ 16
    → All (λ x. x < 256) ip
    → All (λ y. y < 256) network
    → p ≤ 128
    → ipv6_in_cidr ip network p ≡ same_numbers (take p (bits ip)) (take p (bits network))
unfolding ipv6_in_cidr
ipv6_in_cidr-bits ip network p hi hn bi bn hp = elim (Bool-cases (p == 0)) [
  | inl all_of ↦ let none_of : p ≡ 0 = ground arith in rw none_of (unfold same_numbers in refl)
  | inr some_of ↦
      let whole : 8 * (p / 8) + p % 8 ≡ p = omega arith in
      rw some_of (
        same_prefix-bits (p / 8) (p % 8) ip network (omega arith) (omega arith) (omega arith) bi bn
        ∙ rw whole)
]
