-- ===== src/Audit/Ulid/Order.antt =====
-- The identifiers of packages/foundation/src/audit/ulid.ts are ordered as their times are.
use native.Mathlib.Nat.{pow-succ'}
use saas_foundation.Prelude.{
  ℕ, zero, suc, ◌-◌, ◌/◌, ◌%◌, ◌^◌, ◌<◌, ◌≡◌, refl, sym, ap, ◌∙◌, Bool, true, false, ◌&&◌, ◌||◌,
  some, List, [], ◌∷◌, ◌++◌, arith, ltb, ◌==◌, length, length-append, same_numbers, Bool-cases, inl,
  inr, Option-cases,
}
use saas_foundation.Text.{Text}
use saas_foundation.Audit.Ulid.{encoding, char_at, encode_rounds, encode_time, encode_random, ulid}

-- `a < b`, as the language compares texts by their units
unfoldable pub text_lt : Text → Text → Bool
text_lt [] [] = false
text_lt [] (y ∷ t) = true
text_lt (x ∷ s) [] = false
text_lt (x ∷ s) (y ∷ t) = ltb x y || x == y && text_lt s t

-- The digits in base 32, the highest first.
digits : ℕ → ℕ → Text
unfolding char_at
digits zero time = []
digits (suc n) time = digits n (time / 32) ++ char_at (time % 32)

append_assoc : (a b c : Text) → (a ++ b) ++ c ≡ a ++ (b ++ c)
append_assoc [] b c = refl
append_assoc (x ∷ a) b c = ap (λ t. x ∷ t) (append_assoc a b c)

append_nil : (a : Text) → a ++ [] ≡ a
append_nil [] = refl
append_nil (x ∷ a) = ap (λ t. x ∷ t) (append_nil a)

ltb_of : (t u : ℕ) → t < u → ltb t u ≡ true
ltb_of t u h = ground arith

rounds-digits : (n time : ℕ) (str : Text) → encode_rounds n time str ≡ digits n time ++ str
unfolding encode_rounds digits
rounds-digits zero time str = refl
rounds-digits (suc n) time str =
    let e : (time - time % 32) / 32 ≡ time / 32 = omega arith in
    rw e (
      rounds-digits n (time / 32) (char_at (time % 32) ++ str)
      ∙ sym (append_assoc (digits n (time / 32)) (char_at (time % 32)) str))

all_below : ℕ → (ℕ → Bool) → Bool
all_below zero p = true
all_below (suc n) p = p n && all_below n p

all_below_sound : (n x : ℕ) (p : ℕ → Bool) → all_below n p ≡ true → x < n → p x ≡ true
unfolding all_below
all_below_sound zero x p h lt = absurd (omega arith)
all_below_sound (suc n) x p h lt = ground (arith, all_below_sound n x p)

bool_eq : Bool → Bool → Bool
bool_eq true b = b
bool_eq false true = false
bool_eq false false = true

-- The alphabet is in the order of its places, checked at each pair.
ordered_at : ℕ → ℕ → Bool
unfolding char_at text_lt bool_eq same_numbers
ordered_at i j =
    bool_eq (text_lt (char_at i) (char_at j)) (ltb i j)
    && bool_eq (same_numbers (char_at i) (char_at j)) (i == j)
    && length (char_at i) == 1

alphabet_ordered : all_below 32 (λ i. all_below 32 (ordered_at i)) ≡ true
unfolding all_below ordered_at encoding
alphabet_ordered = refl

bool_eq_sound : (a b : Bool) → bool_eq a b ≡ true → a ≡ b
unfolding bool_eq
bool_eq_sound true true h = refl
bool_eq_sound true false h = absurd (cc h)
bool_eq_sound false true h = absurd (cc h)
bool_eq_sound false false h = refl

and_parts : (a b c : Bool) → a && b && c ≡ true → (a ≡ true) × (b ≡ true) × (c ≡ true)
and_parts true true c h = (refl, refl, h)
and_parts true false c h = absurd (cc h)
and_parts false b c h = absurd (cc h)

ordered_at_sound :
    (i j : ℕ)
    → ordered_at i j ≡ true
    → (text_lt (char_at i) (char_at j) ≡ ltb i j)
      × (same_numbers (char_at i) (char_at j) ≡ (i == j))
      × (length (char_at i) ≡ 1)
unfolding ordered_at
ordered_at_sound i j h =
    let parts =
      and_parts (bool_eq (text_lt (char_at i) (char_at j)) (ltb i j))
        (bool_eq (same_numbers (char_at i) (char_at j)) (i == j)) (length (char_at i) == 1) h in
    (
      bool_eq_sound (text_lt (char_at i) (char_at j)) (ltb i j) parts.0,
      bool_eq_sound (same_numbers (char_at i) (char_at j)) (i == j) parts.1,
      ground (arith, parts.2),
    )

chars :
    (i j : ℕ)
    → i < 32
    → j < 32
    → (text_lt (char_at i) (char_at j) ≡ ltb i j)
      × (same_numbers (char_at i) (char_at j) ≡ (i == j))
      × (length (char_at i) ≡ 1)
chars i j hi hj =
    let row = all_below_sound 32 i (λ i. all_below 32 (ordered_at i)) alphabet_ordered hi in
    ordered_at_sound i j (all_below_sound 32 j (ordered_at i) row hj)

text_lt-append :
    (a b u v : Text)
    → length a ≡ length b
    → text_lt (a ++ u) (b ++ v) ≡ (text_lt a b || same_numbers a b && text_lt u v)
unfolding text_lt same_numbers
text_lt-append [] [] u v h = refl
text_lt-append [] (y ∷ b) u v h = absurd (omega arith)
text_lt-append (x ∷ a) [] u v h = absurd (omega arith)
text_lt-append (x ∷ a) (y ∷ b) u v h = ground (arith, text_lt-append a b u v)

same_numbers-append :
    (a b u v : Text)
    → length a ≡ length b
    → same_numbers (a ++ u) (b ++ v) ≡ same_numbers a b && same_numbers u v
unfolding same_numbers
same_numbers-append [] [] u v h = refl
same_numbers-append [] (y ∷ b) u v h = absurd (omega arith)
same_numbers-append (x ∷ a) [] u v h = absurd (omega arith)
same_numbers-append (x ∷ a) (y ∷ b) u v h = ground (arith, same_numbers-append a b u v)

length-digits : (n x : ℕ) → length (digits n x) ≡ n
unfolding digits
length-digits zero x = refl
length-digits (suc n) x =
    let one = (chars (x % 32) (x % 32) (omega arith) (omega arith)).2 in
    omega
      (arith, length-append (digits n (x / 32)) (char_at (x % 32)), length-digits n (x / 32), one)

split_lt :
    (x y : ℕ) → (ltb (x / 32) (y / 32) || x / 32 == y / 32 && ltb (x % 32) (y % 32)) ≡ ltb x y
split_lt x y = ground arith

split_eq : (x y : ℕ) → x / 32 == y / 32 && x % 32 == y % 32 ≡ (x == y)
split_eq x y = ground arith

-- Numbers of `n` digits are ordered as their digits are.
digits_ordered :
    (n x y : ℕ)
    → x < 32 ^ n
    → y < 32 ^ n
    → (text_lt (digits n x) (digits n y) ≡ ltb x y)
      × (same_numbers (digits n x) (digits n y) ≡ (x == y))
unfolding digits text_lt same_numbers
digits_ordered zero x y hx hy = (ground arith, ground arith)
digits_ordered (suc n) x y hx hy =
    let ih =
      digits_ordered n (x / 32) (y / 32) (omega (arith, pow-succ' 32 n))
        (omega (arith, pow-succ' 32 n)) in
    let low = chars (x % 32) (y % 32) (omega arith) (omega arith) in
    let size = length-digits n (x / 32) ∙ sym (length-digits n (y / 32)) in
    (
      text_lt-append (digits n (x / 32)) (digits n (y / 32)) (char_at (x % 32)) (char_at (y % 32))
            size
          ∙ rw (ih.0, ih.1, low.0) (split_lt x y),
      same_numbers-append (digits n (x / 32)) (digits n (y / 32)) (char_at (x % 32))
            (char_at (y % 32)) size
          ∙ rw (ih.1, low.1) (split_eq x y),
    )

text_lt_prefix :
    (a b u v : Text) → length a ≡ length b → text_lt a b ≡ true → text_lt (a ++ u) (b ++ v) ≡ true
text_lt_prefix a b u v size h = rw (text_lt-append a b u v size, h) refl

time_fits : (t : ℕ) → ltb 0xffff_ffff_ffff t ≡ false → t < 32 ^ 10
time_fits t h = ground arith

encode_time_result :
    (t : ℕ) (time : Text) → encode_time t ≡ some time → (t < 32 ^ 10) × (time ≡ digits 10 t)
unfolding encode_time
encode_time_result t time h = elim (Bool-cases (ltb 0xffff_ffff_ffff t)) [
  | inl over ↦ absurd (cc (rw over at h))
  | inr fits ↦
      let same : some (encode_rounds 10 t []) ≡ some time = rw fits at h in
      (time_fits t fits, cc (same, rounds-digits 10 t [], append_nil (digits 10 t)))
]

ulid_result :
    (t : ℕ) (bytes : List ℕ) (a : Text)
    → ulid t bytes ≡ some a
    → (t < 32 ^ 10) × (a ≡ digits 10 t ++ encode_random bytes)
unfolding ulid
ulid_result t bytes a h = elim (Option-cases (encode_time t)) [
  | inl e ↦ absurd (cc (rw (e, ulid) at h))
  | inr (time, e) ↦
      let parts = encode_time_result t time e in
      let same : some (time ++ encode_random bytes) ≡ some a = rw (e, ulid) at h in
      (parts.0, cc (same, parts.1))
]

-- Of two identifiers, the one with the earlier time is the smaller text, whatever their random parts.
pub ulid_ordered :
    (t u : ℕ) (bytes others : List ℕ) (a b : Text)
    → ulid t bytes ≡ some a
    → ulid u others ≡ some b
    → t < u
    → text_lt a b ≡ true
ulid_ordered t u bytes others a b ha hb before =
    let first = ulid_result t bytes a ha in
    let second = ulid_result u others b hb in
    let smaller : text_lt (digits 10 t) (digits 10 u) ≡ true =
      (digits_ordered 10 t u first.0 second.0).0 ∙ ltb_of t u before in
    rw (first.1, second.1)
      (text_lt_prefix (digits 10 t) (digits 10 u) (encode_random bytes) (encode_random others)
        (length-digits 10 t ∙ sym (length-digits 10 u)) smaller)
