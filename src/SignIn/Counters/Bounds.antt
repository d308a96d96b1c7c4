-- ===== src/SignIn/Counters/Bounds.antt =====
-- However the attempts of all callers interleave, a bucket lets through no more than its limit.
use saas_foundation.Prelude.{
  ℕ, ◌+◌, ◌*◌, ◌/◌, ◌≤◌, ◌<◌, String, ◌≡◌, ap, ◌≢◌, ◌⊎◌, inl, inr, Bool, true, ◌&&◌, Option, none,
  some, List, [], ◌∷◌, arith, str_eq, eq_iff, leb, if◌then◌else◌, Bool-cases, All,
}
use saas_foundation.Table.{Table}
use saas_foundation.SignIn.Counters.{
  CounterRow, Bucket, window, day, signup, login_ip, day_ms, under_limit, used, counted, window_of,
  in_window, try_consume_rate_limit, try_consume_daily_cap, check_and_increment_rate_limit,
  try_consume_ip_rate_limit,
}

-- A call of one of the four counters: the address, the limit, the clock, and the window.
pub data Attempt : Type 0 where
  send signing_up login : String → ℕ → ℕ → ℕ → Attempt
  challenge : String → ℕ → ℕ → Attempt

abbrev pub bucket : Attempt → Bucket
bucket (send email limit now w) = window email (now / w * w)
bucket (challenge address limit now) = day address (now / day_ms)
bucket (signing_up email limit now w) = signup email (now / w * w)
bucket (login ip limit now w) = login_ip ip (now / w * w)

abbrev pub limit_of : Attempt → ℕ
limit_of (send email limit now w) = limit
limit_of (challenge address limit now) = limit
limit_of (signing_up email limit now w) = limit
limit_of (login ip limit now w) = limit

module _ (T : Table CounterRow) (key_of : Bucket → String) where
  open T use {State, item, write, write_result, write_item, write_other}

  unfoldable pub attempt : Attempt → State → State × Bool
  attempt (send email limit now w) = try_consume_rate_limit T key_of email limit now w
  attempt (challenge address limit now) = try_consume_daily_cap T key_of address limit now
  attempt (signing_up email limit now w) = check_and_increment_rate_limit T key_of email limit now w
  attempt (login ip limit now w) = try_consume_ip_rate_limit T key_of ip limit now w

  -- The table after the attempts, and how many at the key `b` were let through.
  unfoldable pub attempts : String → List Attempt → State → State × ℕ
  attempts b [] s = (s, 0)
  attempts b (a ∷ more) s =
      let (s', passed) = attempt a s in
      let (end, n) = attempts b more s' in
      (end, (if passed && str_eq (key_of (bucket a)) b then 1 else 0) + n)

  -- Every attempt at the key `b` has the limit `n`.
  abbrev pub SameLimit : String → ℕ → List Attempt → Type 0
  SameLimit b n = All (λ a. key_of (bucket a) ≡ b → limit_of a ≡ n)

  module _ (limit : ℕ) (also : CounterRow → Bool) (start : Option CounterRow → Option ℕ)
      (at : ℕ) where
    consume : String → State → State × Bool
    consume k = write k (under_limit limit also) (λ o. counted (start o) at o)

    consume_same :
        (k : String) (s : State)
        → (used (item (consume k s).0 k) ≡ used (item s k) + (if (consume k s).1 then 1 else 0))
          × ((consume k s).1 ≡ true → (used (item s k) < limit) ⊎ (used (item s k) ≡ 0))
    unfolding consume under_limit counted used
    consume_same k s =
        let c = write_result k (under_limit limit also) (λ o. counted (start o) at o) s in
        let w = write_item k (under_limit limit also) (λ o. counted (start o) at o) s in
        (ground (arith, c, w), λ h. ground (arith, c, w))

    consume_other : (k b : String) (s : State) → k ≢ b → item (consume k s).0 b ≡ item s b
    unfolding consume
    consume_other k b s ne =
        write_other k b (under_limit limit also) (λ o. counted (start o) at o) s ne

    -- One conditional write at the key `k`, as the counter at `b` sees it.
    consume_step :
        (k b : String) (n : ℕ) (s : State)
        → (k ≡ b → limit ≡ n)
        → (used (item (consume k s).0 b)
            ≡ used (item s b) + (if (consume k s).1 && str_eq k b then 1 else 0))
          × ((consume k s).1 && str_eq k b ≡ true → (used (item s b) < n) ⊎ (used (item s b) ≡ 0))
    consume_step k b n s same = elim (Bool-cases (str_eq k b)) [
      | inl here ↦
          let e = (eq_iff k b).0 here in
          let limit_is = same e in
          ground (arith, consume_same k s, ap (λ x. item (consume k s).0 x) e, ap (item s) e)
      | inr other ↦
          let e = consume_other k b s (λ p. grind (arith, (eq_iff k b).1 p)) in
          ground (arith, ap used e)
    ]

  -- One attempt, as the counter at the key `b` sees it.
  attempt_step :
      (b : String) (n : ℕ) (a : Attempt) (s : State)
      → (key_of (bucket a) ≡ b → limit_of a ≡ n)
      → (used (item (attempt a s).0 b)
          ≡ used (item s b) + (if (attempt a s).1 && str_eq (key_of (bucket a)) b then 1 else 0))
        × ((attempt a s).1 && str_eq (key_of (bucket a)) b ≡ true
            → (used (item s b) < n) ⊎ (used (item s b) ≡ 0))
  unfolding attempt try_consume_rate_limit try_consume_daily_cap check_and_increment_rate_limit
      try_consume_ip_rate_limit consume
  attempt_step b n (send email limit now w) s same =
      consume_step limit (in_window (now / w * w)) (λ o. some (now / w * w))
        ((now / w * w + w) / 1000 + 60) (key_of (window email (now / w * w))) b n s same
  attempt_step b n (challenge address limit now) s same =
      consume_step limit (λ r. true) window_of ((now / day_ms * day_ms + day_ms) / 1000 + 3600)
        (key_of (day address (now / day_ms))) b n s same
  attempt_step b n (signing_up email limit now w) s same =
      consume_step limit (λ r. true) window_of ((now / w * w + w * 2) / 1000)
        (key_of (signup email (now / w * w))) b n s same
  attempt_step b n (login ip limit now w) s same =
      consume_step limit (in_window (now / w * w)) (λ o. some (now / w * w))
        ((now / w * w + w) / 1000 + 60) (key_of (login_ip ip (now / w * w))) b n s same

  -- A counter counts what it lets through, and what it lets through ends within its cap.
  attempts_step :
      (b : String) (n : ℕ) (calls : List Attempt) (s : State)
      → SameLimit b n calls
      → (used (item (attempts b calls s).0 b) ≡ used (item s b) + (attempts b calls s).1)
        × (((attempts b calls s).1 ≡ 0)
            ⊎ (used (item (attempts b calls s).0 b) ≤ (if leb 1 n then n else 1)))
  unfolding attempts
  attempts_step b n [] s h = ground arith
  attempts_step b n (a ∷ more) s (here, later) =
      ground (arith, attempt_step b n a s here, attempts_step b n more (attempt a s).0 later)

  -- From a table with no row at the key `b`, of all attempts by all callers, in whatever order and
  -- at whatever times, at most as many at that key are let through as its limit says, and one if
  -- the limit is 0.
  pub attempts_bounded :
      (b : String) (n : ℕ) (calls : List Attempt) (s : State)
      → SameLimit b n calls
      → item s b ≡ none
      → (attempts b calls s).1 ≤ (if leb 1 n then n else 1)
  unfolding used
  attempts_bounded b n calls s same fresh = ground (arith, attempts_step b n calls s same)
