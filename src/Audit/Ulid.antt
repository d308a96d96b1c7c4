-- ===== src/Audit/Ulid.antt =====
-- packages/foundation/src/audit/ulid.ts: identifiers that start with their time.
pub mod Order
use saas_foundation.Prelude.{
  ℕ, zero, suc, ◌-◌, ◌/◌, ◌%◌, Option, none, some, List, [], ◌∷◌, ◌++◌, ltb, if◌then◌else◌,
  get_elem?,
}
use saas_foundation.Text.{Text, text_of}

-- Crockford's alphabet.
unfoldable pub encoding : Text
encoding = text_of "0123456789ABCDEFGHJKMNPQRSTVWXYZ"

-- `ENCODING.charAt(mod)`
unfoldable pub char_at : ℕ → Text
unfolding encoding
char_at i = elim (get_elem? encoding i) [ none ↦ [] | some c ↦ c ∷ [] ]

abbrev pub time_len : ℕ
time_len = 10

abbrev pub random_len : ℕ
random_len = 16

-- `n` rounds of the loop, which puts the digit of each round before the text so far
unfoldable pub encode_rounds : ℕ → ℕ → Text → Text
unfolding char_at
encode_rounds zero time str = str
encode_rounds (suc n) time str =
    let digit = time % 32 in encode_rounds n ((time - digit) / 32) (char_at digit ++ str)

-- For a time in milliseconds, `none` where the source throws.
unfoldable pub encode_time : ℕ → Option Text
unfolding encode_rounds
encode_time time_ms =
    if ltb 0xffff_ffff_ffff time_ms then none else some (encode_rounds time_len time_ms [])

unfoldable pub encode_random : List ℕ → Text
unfolding char_at
encode_random [] = []
encode_random (b ∷ bytes) = char_at (b % 32) ++ encode_random bytes

-- `bytes` are the 16 random bytes.
unfoldable pub ulid : ℕ → List ℕ → Option Text
unfolding encode_time encode_random
ulid time_ms bytes = elim (encode_time time_ms) [
  | none ↦ none
  | some time ↦ some (time ++ encode_random bytes)
]
