-- ===== src/SignIn/Email.antt =====
-- packages/vestibulum/src/lambda/shared/normalize-email.ts.
use Prim.Native.Char.{code}
use saas_foundation.Prelude.{
  ℕ, ◌+◌, ◌≤◌, String, ◌≡◌, ap, Bool, true, false, not, ◌&&◌, ◌||◌, Option, none, some, arith, leb,
  ◌==◌, if◌then◌else◌, all_chars, utf8_size,
}

abbrev pub max_email_length : ℕ
max_email_length = 254

-- /[\s\p{Cc}]/u: white space or a control character
unfoldable pub is_forbidden : ℕ → Bool
is_forbidden c =
    leb c 32
    || leb 127 c && leb c 160
    || c == 0x1680
    || leb 0x2000 c && leb c 0x200a
    || c == 0x2028
    || c == 0x2029
    || c == 0x202f
    || c == 0x205f
    || c == 0x3000
    || c == 0xfeff

-- The number of `@` in a text, and whether it has one at its first or last place.
unfoldable pub ats : String → ℕ
ats String.[] = 0
ats (String.◌∷◌ c s) = (if code c == b'@' then 1 else 0) + ats s

unfoldable pub starts_with_at : String → Bool
starts_with_at String.[] = false
starts_with_at (String.◌∷◌ c s) = code c == b'@'

unfoldable pub ends_with_at : String → Bool
ends_with_at String.[] = false
ends_with_at (String.◌∷◌ c String.[]) = code c == b'@'
ends_with_at (String.◌∷◌ c s) = ends_with_at s

-- `split("@")` has two parts and neither is empty.
unfoldable pub has_two_parts : String → Bool
unfolding ats starts_with_at ends_with_at
has_two_parts s = ats s == 1 && not (starts_with_at s) && not (ends_with_at s)

unfoldable pub accepts : String → Bool
unfolding is_forbidden has_two_parts
accepts value =
    leb (utf8_size value) max_email_length
    && all_chars (λ c. not (is_forbidden c)) value
    && has_two_parts value

accepts_parts :
    (value : String)
    → accepts value ≡ true
    → (utf8_size value ≤ max_email_length)
      × (all_chars (λ c. not (is_forbidden c)) value ≡ true)
      × (ats value ≡ 1)
unfolding accepts has_two_parts
accepts_parts value h = ground arith

-- `canonical` is the language's `raw.trim().normalize("NFC").toLowerCase().normalize("NFC")`, and
-- the argument is `none` where the caller's value is no text.
module _ (canonical : String → String) where
  unfoldable pub normalize_email : Option String → Option String
  normalize_email none = none
  normalize_email (some raw) =
      let value = canonical raw in if accepts value then some value else none

  -- What it returns is a fixed point of it, if the text mapping is idempotent, and meets the three
  -- conditions: at most 254 bytes, no space or control character, and one `@` within.
  pub normalize_email_idempotent :
      ((s : String) → canonical (canonical s) ≡ canonical s)
      → (raw : Option String) (value : String) → normalize_email raw ≡ some value
      → (normalize_email (some value) ≡ some value)
        × (utf8_size value ≤ max_email_length)
        × (all_chars (λ c. not (is_forbidden c)) value ≡ true)
        × (ats value ≡ 1)
  unfolding normalize_email
  normalize_email_idempotent idem none value h = cc
  normalize_email_idempotent idem (some raw) value h =
      let accepted : accepts value ≡ true = ground arith in
      let same : canonical raw ≡ value = ground arith in
      let (short, clean, one) = accepts_parts value accepted in
      let fixed : canonical value ≡ value = cc (idem raw, same, ap canonical same) in
      ((rw fixed (rw accepted)), short, clean, one)
