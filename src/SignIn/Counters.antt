-- ===== src/SignIn/Counters.antt =====
-- The conditional counters of the rate-limit table: handlers/create-auth-challenge/rate-limit.ts and
-- daily-cap.ts, handlers/auth-login/ip-rate-limit.ts, and `checkAndIncrementRateLimit` of
-- handlers/pre-signup/index.ts. A call that the
-- service fails is left to the callers, who see it as an error.
pub mod Bounds
use saas_foundation.Prelude.{
  ℕ, ◌+◌, ◌*◌, ◌/◌, String, Bool, true, false, ◌&&◌, Option, none, some, ltb, ◌==◌,
}
use saas_foundation.Table.{Table}

-- A row of the rate-limit table; only the rows of `rate-limit.ts` and `ip-rate-limit.ts` have a window.
pub record CounterRow : Type 0 where
  pub count : ℕ
  pub window_start : Option ℕ
  pub expires_at : ℕ

-- What the bucket's key is made of, before it is put in lower case and hashed, or joined: the
-- address with the start of the window, or with the UTC date as its number of days since the epoch,
-- or a client's IP address with the start of the window, behind the prefix `login-ip:`.
pub data Bucket : Type 0 where
  window day : String → ℕ → Bucket
  signup : String → ℕ → Bucket
  login_ip : String → ℕ → Bucket

abbrev pub rate_limit_window_ms : ℕ
rate_limit_window_ms = 15 * 60 * 1000

abbrev pub default_sends_per_window : ℕ
default_sends_per_window = 3

abbrev pub ip_rate_limit_window_ms : ℕ
ip_rate_limit_window_ms = 15 * 60 * 1000

abbrev pub default_logins_per_window : ℕ
default_logins_per_window = 10

abbrev pub day_ms : ℕ
day_ms = 24 * 60 * 60 * 1000

abbrev pub default_sends_per_day : ℕ
default_sends_per_day = 20

-- `attribute_not_exists(#c) OR (#c < :limit AND …)`
unfoldable pub under_limit : ℕ → (CounterRow → Bool) → Option CounterRow → Bool
under_limit limit also none = true
under_limit limit also (some r) = ltb r.count limit && also r

unfoldable pub used : Option CounterRow → ℕ
used none = 0
used (some r) = r.count

-- `SET #c = if_not_exists(#c, :zero) + :one, …`
unfoldable pub counted : Option ℕ → ℕ → Option CounterRow → Option CounterRow
unfolding used
counted start at r = some (record { count = used r + 1; window_start = start; expires_at = at })

-- The window that a row is in, an update that names none keeps it.
unfoldable pub window_of : Option CounterRow → Option ℕ
window_of none = none
window_of (some r) = r.window_start

-- `#ws = :ws`
unfoldable pub in_window : ℕ → CounterRow → Bool
in_window start r = elim r.window_start [ none ↦ false | some w ↦ w == start ]

-- `key_of` is how a bucket becomes a key: the text of it, in lower case and under HMAC-SHA-256 with
-- a secret for the mails, as it is for the sign-ups, and under SHA-256 for the logins.
module _ (T : Table CounterRow) (key_of : Bucket → String) where
  open T use {State, write}

  -- The window size is a test override with the default.
  unfoldable pub try_consume_rate_limit : String → ℕ → ℕ → ℕ → State → State × Bool
  try_consume_rate_limit email limit now window_ms s =
      let start = now / window_ms * window_ms in
      let at = (start + window_ms) / 1000 + 60 in
      write (key_of (window email start)) (under_limit limit (in_window start))
        (counted (some start) at) s

  unfoldable pub try_consume_daily_cap : String → ℕ → ℕ → State → State × Bool
  try_consume_daily_cap address limit now s =
      let start = now / day_ms * day_ms in
      let at = (start + day_ms) / 1000 + 3600 in
      write (key_of (day address (now / day_ms))) (under_limit limit (λ r. true))
        (λ r. counted (window_of r) at r) s

  unfoldable pub check_and_increment_rate_limit : String → ℕ → ℕ → ℕ → State → State × Bool
  check_and_increment_rate_limit email limit now window_ms s =
      let start = now / window_ms * window_ms in
      let at = (start + window_ms * 2) / 1000 in
      write (key_of (signup email start)) (under_limit limit (λ r. true))
        (λ r. counted (window_of r) at r) s

  -- The same update as for the mails, for the logins of a client.
  unfoldable pub try_consume_ip_rate_limit : String → ℕ → ℕ → ℕ → State → State × Bool
  try_consume_ip_rate_limit ip limit now window_ms s =
      let start = now / window_ms * window_ms in
      let at = (start + window_ms) / 1000 + 60 in
      write (key_of (login_ip ip start)) (under_limit limit (in_window start))
        (counted (some start) at) s
