-- ===== src/SignIn/Values.antt =====
-- packages/vestibulum/src/lambda/shared/signin.ts: the bounds and the parsers of the flow.
use saas_foundation.Prelude.{
  ℕ, ◌+◌, ◌-◌, ◌*◌, ◌≤◌, String, ◌≡◌, Bool, ◌&&◌, ◌||◌, Option, none, some, arith, str_eq, ltb, leb,
  ◌==◌, if◌then◌else◌, or_else, is_letter, is_digit, all_chars, units, parse_digits,
}

abbrev pub min_token_ttl_minutes : ℕ
min_token_ttl_minutes = 3

abbrev pub max_token_ttl_minutes : ℕ
max_token_ttl_minutes = 15

abbrev pub default_token_ttl_minutes : ℕ
default_token_ttl_minutes = 10

abbrev pub max_answer_length : ℕ
max_answer_length = 64

abbrev pub default_refresh_token_validity_seconds : ℕ
default_refresh_token_validity_seconds = 30 * 24 * 60 * 60

pub data Enrollment : Type 0 where
  admin_only self_signup : Enrollment

-- The value of an environment variable, none if it is unset.
unfoldable pub parse_enrollment : Option String → Option Enrollment
parse_enrollment none = some admin_only
parse_enrollment (some raw) =
    if str_eq raw ""
    then some admin_only
    else if str_eq raw "admin-only"
    then some admin_only
    else if str_eq raw "self-signup"
    then some self_signup
    else none

unfoldable pub parse_refresh_token_validity_seconds : Option String → Option ℕ
unfolding parse_digits
parse_refresh_token_validity_seconds none = some default_refresh_token_validity_seconds
parse_refresh_token_validity_seconds (some raw) =
    if str_eq raw ""
    then some default_refresh_token_validity_seconds
    else elim (parse_digits raw) [ none ↦ none | some n ↦ if ltb 0 n then some n else none ]

pub data AnswerForm : Type 0 where
  token code : AnswerForm

-- [A-Za-z0-9_-]
unfoldable pub is_base64url : ℕ → Bool
unfolding is_letter is_digit
is_base64url c = is_letter c || is_digit c || c == b'_' || c == b'-'

unfoldable pub is_token_answer : String → Bool
unfolding is_base64url
is_token_answer s = all_chars is_base64url s && units s == 43

unfoldable pub is_code_answer : String → Bool
unfolding is_digit
is_code_answer s = all_chars is_digit s && units s == 8

-- `none` is an answer that is not a text.
unfoldable pub classify_answer : Option String → Option AnswerForm
unfolding is_token_answer is_code_answer
classify_answer none = none
classify_answer (some s) =
    if is_token_answer s then some token else if is_code_answer s then some code else none

unfoldable pub parse_token_ttl_minutes : Option String → Option ℕ
unfolding parse_digits
parse_token_ttl_minutes none = some default_token_ttl_minutes
parse_token_ttl_minutes (some raw) =
    if str_eq raw "" then some default_token_ttl_minutes else elim (parse_digits raw) [
      | none ↦ none
      | some n ↦ if leb min_token_ttl_minutes n && leb n max_token_ttl_minutes then some n else none
    ]

unfoldable pub parse_ms : Option String → ℕ → ℕ
unfolding parse_digits
parse_ms none fallback = fallback
parse_ms (some raw) fallback = or_else (parse_digits raw) fallback

-- The clock when `withFloor` is done: `fn` returned at `end`, and what is left of the floor is
-- slept, for a sleep that takes as long as it is asked to.
unfoldable pub with_floor : ℕ → ℕ → ℕ → ℕ
with_floor floor_ms start end =
    let spent = end - start in if ltb spent floor_ms then end + (floor_ms - spent) else end

-- A lifetime that was accepted lies within its bounds, whatever the deployment has set.
parse_token_ttl_minutes_bounds :
    (raw : Option String) (n : ℕ)
    → parse_token_ttl_minutes raw ≡ some n
    → (min_token_ttl_minutes ≤ n) × (n ≤ max_token_ttl_minutes)
unfolding parse_token_ttl_minutes
parse_token_ttl_minutes_bounds none n h = ground arith
parse_token_ttl_minutes_bounds (some raw) n h = ground arith

-- Whatever ran, and however long it took, the caller is answered no earlier than the floor; the
-- answer comes exactly at the floor whenever the work took no longer than that.
with_floor_flat :
    (floor_ms start end : ℕ)
    → start ≤ end
    → (start + floor_ms ≤ with_floor floor_ms start end)
      × (end ≤ start + floor_ms → with_floor floor_ms start end ≡ start + floor_ms)
unfolding with_floor
with_floor_flat floor_ms start end h = (ground arith, λ e. ground arith)
