-- ===== src/Prelude/Bits.antt =====
-- Masks on binary numbers: `bit_and` digit by digit, and with a run of ones above zeros.
use Prim.Native.Nat.{
  ℕ, zero, suc, ◌+◌, ◌-◌, ◌*◌, ◌/◌, ◌%◌, ◌^◌, ◌≤◌, ◌<◌, min, bit_and, digits, bit_and-bitwise,
}
use mathlib.Core.Path.{◌≡◌, refl, ap, sym, ◌∙◌}
use native.Mathlib.Omega.{arith}
use saas_foundation.Prelude.Tests.{◌==◌}
use native.Mathlib.Nat.{
  div-div-eq-div-mul, pow-succ', two-pow-succ, one-mul, div-one, zero-add, one-le-pow, mul-suc,
  mul-div_cancel_left, div-lt_iff_lt-mul,
}

-- The recursion that the native operation stands for: `digits` with any fuel that is enough.
enough_digits :
    (f g x y : ℕ) → x ≤ f → x ≤ g → digits (λ y. zero) min f x y ≡ digits (λ y. zero) min g x y
enough_digits zero zero x y p q = refl
enough_digits (suc f) zero (suc x) y p q = absurd (omega arith)
enough_digits zero (suc g) (suc x) y p q = absurd (omega arith)
enough_digits (suc f) zero zero y p q = refl
enough_digits zero (suc g) zero y p q = refl
enough_digits (suc f) (suc g) zero y p q = refl
enough_digits (suc f) (suc g) (suc x) y p q =
    omega (arith, enough_digits f g (suc x / 2) (y / 2) (omega arith) (omega arith))

bit_and-zero_left : (y : ℕ) → bit_and 0 y ≡ 0
bit_and-zero_left y = bit_and-bitwise 0 y

pub bit_and-digit : (x y : ℕ) → bit_and x y ≡ 2 * bit_and (x / 2) (y / 2) + min (x % 2) (y % 2)
bit_and-digit zero y = omega (arith, bit_and-zero_left y, bit_and-zero_left (y / 2))
bit_and-digit (suc x) y = omega (
  arith,
  bit_and-bitwise (suc x) y,
  bit_and-bitwise (suc x / 2) (y / 2),
  enough_digits x (suc x / 2) (suc x / 2) (y / 2) (omega arith) (omega arith),
)

-- A mask of `n` ones keeps a number of `n` bits.
pub bit_and-ones : (n x m : ℕ) → x < 2 ^ n → m + 1 ≡ 2 ^ n → bit_and x m ≡ x
bit_and-ones zero x m small ones = let e : x ≡ 0 = omega arith in rw e (bit_and-zero_left m)
bit_and-ones (suc n) x m small ones = omega (
  arith,
  bit_and-digit x m,
  two-pow-succ n,
  bit_and-ones n (x / 2) (m / 2) (omega (arith, two-pow-succ n)) (omega (arith, two-pow-succ n)),
)

pow_double : (k z : ℕ) → 2 ^ suc k * z ≡ 2 * (2 ^ k * z)
pow_double k z = grind (arith, pow-succ' 2 k)

-- Zeros below a mask take the low digits off.
pub bit_and-shifted : (k x m : ℕ) → bit_and x (2 ^ k * m) ≡ 2 ^ k * bit_and (x / 2 ^ k) m
bit_and-shifted zero x m = rw (one-mul m, div-one x) (sym (one-mul (bit_and x m)))
bit_and-shifted (suc k) x m =
    let quarter : x / 2 / 2 ^ k ≡ x / 2 ^ suc k =
      div-div-eq-div-mul x 2 (2 ^ k) ∙ ap (λ d. x / d) (sym (pow-succ' 2 k)) in
    let even : (2 ^ suc k * m / 2 ≡ 2 ^ k * m) × (2 ^ suc k * m % 2 ≡ 0) =
      omega (arith, pow_double k m) in
    bit_and-digit x (2 ^ suc k * m)
    ∙ rw (even.0, even.1, bit_and-shifted k (x / 2) m, quarter)
        (omega (arith, pow_double k (bit_and (x / 2 ^ suc k) m)))

pub pow_add : (k n : ℕ) → 2 ^ (k + n) ≡ 2 ^ k * 2 ^ n
pow_add zero n = simp (zero-add, one-mul)
pow_add (suc k) n =
    let e : suc k + n ≡ suc (k + n) = omega arith in
    rw e (grind (arith, pow_add k n, pow-succ' 2 k, pow-succ' 2 (k + n)))

mul_pred : (a b : ℕ) → a * suc b - a ≡ a * b
mul_pred a b = omega (arith, mul-suc a b)

-- A mask of `n` ones over `k` zeros takes the low `k` digits off a number of `k + n` digits.
pub bit_and-mask :
    (k n x : ℕ) → x < 2 ^ (k + n) → bit_and x (2 ^ (k + n) - 2 ^ k) ≡ 2 ^ k * (x / 2 ^ k)
bit_and-mask k n x small =
    let whole : 2 ^ (k + n) - 2 ^ k ≡ 2 ^ k * (2 ^ n - 1) =
      let one_more : 2 ^ n ≡ suc (2 ^ n - 1) = omega (arith, one-le-pow n 2 (omega arith)) in
      ap (λ t. t - 2 ^ k) (pow_add k n ∙ ap (λ t. 2 ^ k * t) one_more)
      ∙ mul_pred (2 ^ k) (2 ^ n - 1) in
    let high : x / 2 ^ k < 2 ^ n =
      (div-lt_iff_lt-mul (one-le-pow k 2 (omega arith))).1 (grind (arith, pow_add k n)) in
    rw (whole, bit_and-shifted k x (2 ^ n - 1))
      (ap (λ t. 2 ^ k * t)
        (bit_and-ones n (x / 2 ^ k) (2 ^ n - 1) high (omega (arith, one-le-pow n 2 (omega arith)))))

scale_cancel : (k a b : ℕ) → 0 < k → k * a ≡ k * b → a ≡ b
scale_cancel k a b pos e =
    sym (mul-div_cancel_left a pos) ∙ ap (λ t. t / k) e ∙ mul-div_cancel_left b pos

-- Under such a mask two numbers are the same if their quotients are.
pub same_masked :
    (k n x y : ℕ)
    → x < 2 ^ (k + n)
    → y < 2 ^ (k + n)
    → (bit_and x (2 ^ (k + n) - 2 ^ k) == bit_and y (2 ^ (k + n) - 2 ^ k))
      ≡ (x / 2 ^ k == y / 2 ^ k)
same_masked k n x y hx hy =
    let ex = bit_and-mask k n x hx in
    let ey = bit_and-mask k n y hy in
    ground (
      arith,
      ex,
      ey,
      scale_cancel (2 ^ k) (x / 2 ^ k) (y / 2 ^ k) (one-le-pow k 2 (omega arith)),
      λ (e : x / 2 ^ k ≡ y / 2 ^ k). ap (λ t. 2 ^ k * t) e,
    )
