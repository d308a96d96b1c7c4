-- ===== src/RateLimit/Dynamo/Laws.antt =====
-- What the condition on the refill time protects, and what it does not.
use saas_foundation.Prelude.{
  ℕ, ◌-◌, ◌≤◌, ◌<◌, String, ◌≡◌, refl, sym, ap, ◌∙◌, ◌⊎◌, inl, inr, true, false, Option, none, some,
  arith, ◌==◌, if◌then◌else◌,
}
use saas_foundation.Table.{Table}
use saas_foundation.RateLimit.Bucket.{
  TokenBucketConfig, BucketState, RateLimitResult, take_from, effective, refilled,
  compute_consume_result,
}
use saas_foundation.RateLimit.Dynamo.{
  Row, Turn, state_of, refilled_at, unchanged, new_row, read_state, write_state, attempt,
}

module _ (T : Table Row) (pk : String → String) where
  open T use {State, item, write, write_result, write_item, write_other}

  -- A write leaves the new bucket in the row, and says so, if the row is as it was read; or it
  -- leaves the row.
  attempt_row :
      (key : String) (cost : ℕ) (c : TokenBucketConfig) (turn : Turn State) (s : State)
      → let prev = read_state T pk key turn.seen in
        let out = compute_consume_result prev turn.now cost c in
        let a = attempt T pk key cost c turn s in
        (a.1 ≡ unchanged prev (item s (pk key)))
        × (item a.0 (pk key) ≡ (
            if unchanged prev (item s (pk key))
            then some (new_row turn.wrote out.0 c)
            else item s (pk key)))
        × (a.2 ≡ out.1)
  unfolding attempt write_state
  attempt_row key cost c turn s =
      let prev = read_state T pk key turn.seen in
      let new = (compute_consume_result prev turn.now cost c).0 in
      (
        write_result (pk key) (unchanged prev) (λ r. some (new_row turn.wrote new c)) s,
        write_item (pk key) (unchanged prev) (λ r. some (new_row turn.wrote new c)) s,
        refl,
      )

  refilled_still :
      (c : TokenBucketConfig) (b : BucketState) (now : ℕ)
      → b.last_refill_ms ≡ now
      → b.tokens ≤ c.capacity
      → refilled b now c ≡ b.tokens
  unfolding refilled
  refilled_still c b now at_now within =
      let still : now - b.last_refill_ms ≡ 0 = omega (arith, at_now) in rw still (ground arith)

  new_state : (key : String) (cost : ℕ) (c : TokenBucketConfig) (turn : Turn State) → BucketState
  new_state key cost c turn =
      (compute_consume_result (read_state T pk key turn.seen) turn.now cost c).0

  computed_at :
      (o : Option BucketState) (now cost : ℕ) (c : TokenBucketConfig)
      → (compute_consume_result o now cost c).0.last_refill_ms ≡ now
  unfolding compute_consume_result take_from
  computed_at o now cost c = ground arith

  moved_on :
      (key : String) (cost : ℕ) (c : TokenBucketConfig) (first : Turn State)
      → (read_state T pk key first.seen ≡ none)
        ⊎ ((b : BucketState) × (read_state T pk key first.seen ≡ some b)
            × (b.last_refill_ms < first.now))
      → unchanged
          (read_state T pk key first.seen)
          (some (new_row first.wrote (new_state key cost c first) c))
        ≡ false
  unfolding unchanged new_state state_of refilled_at new_row
  moved_on key cost c first (inl fresh) = rw fresh
  moved_on key cost c first (inr (b, found, past)) =
      rw found (ground (arith, computed_at (some b) first.now cost c, past))

  -- Of two requests that read the same bucket, the second is refused its write, if the first one's
  -- write moved the refill time: its clock was past the time that both had read, or both found no
  -- row. The row stays as the first one left it, and the second reads again.
  pub stale_attempt_refused :
      (key : String) (cost cost2 : ℕ) (c : TokenBucketConfig) (first second : Turn State)
      (s : State)
      → read_state T pk key second.seen ≡ read_state T pk key first.seen
      → (read_state T pk key first.seen ≡ none)
        ⊎ ((b : BucketState) × (read_state T pk key first.seen ≡ some b)
            × (b.last_refill_ms < first.now))
      → (attempt T pk key cost c first s).1 ≡ true
      → let s1 = (attempt T pk key cost c first s).0 in
        ((attempt T pk key cost2 c second s1).1 ≡ false)
        × (item (attempt T pk key cost2 c second s1).0 (pk key) ≡ item s1 (pk key))
  unfolding new_state
  stale_attempt_refused key cost cost2 c first second s same moved won =
      let (accepted, left, told) = attempt_row key cost c first s in
      let new : Row = new_row first.wrote (new_state key cost c first) c in
      let row : item (attempt T pk key cost c first s).0 (pk key) ≡ some new =
        ground (arith, accepted, left, won) in
      let (again, kept, told2) =
        attempt_row key cost2 c second (attempt T pk key cost c first s).0 in
      let refused : unchanged (read_state T pk key second.seen)
            (item (attempt T pk key cost c first s).0 (pk key))
          ≡ false =
        rw (same, row) (moved_on key cost c first moved) in
      (again ∙ refused, ground (arith, kept, refused))

  -- A request at the time of the last refill takes its cost from the tokens that are there.
  taken_now :
      (c : TokenBucketConfig) (b : BucketState) (now cost : ℕ)
      → b.last_refill_ms ≡ now
      → b.tokens ≤ c.capacity
      → cost ≤ b.tokens
      → ((compute_consume_result (some b) now cost c).0
          ≡ record { tokens = b.tokens - cost; last_refill_ms = now })
        × ((compute_consume_result (some b) now cost c).1.allowed ≡ true)
  unfolding compute_consume_result take_from effective
  taken_now c b now cost at_now within fits =
      let have : refilled b now c ≡ b.tokens = refilled_still c b now at_now within in
      rw have (ground arith)

  refilled_at-read :
      (key : String) (s : State) (b : BucketState) (ms : ℕ)
      → read_state T pk key s ≡ some b
      → b.last_refill_ms ≡ ms
      → refilled_at ms (item s (pk key)) ≡ true
  unfolding refilled_at read_state
  refilled_at-read key s b ms there same =
      let same_ms : b.last_refill_ms == ms ≡ true = ground (arith, same) in
      ap (λ (o : Option BucketState). elim o [ none ↦ false | some x ↦ x.last_refill_ms == ms ])
        there
      ∙ same_ms

  -- Its write goes through as long as the row's refill time is the one that it read.
  attempt_now :
      (key : String) (cost : ℕ) (c : TokenBucketConfig) (turn : Turn State) (s : State)
      (b : BucketState)
      → read_state T pk key turn.seen ≡ some b
      → b.last_refill_ms ≡ turn.now
      → b.tokens ≤ c.capacity
      → cost ≤ b.tokens
      → refilled_at b.last_refill_ms (item s (pk key)) ≡ true
      → let a = attempt T pk key cost c turn s in
        (a.1 ≡ true)
        × (a.2.allowed ≡ true)
        × (read_state T pk key a.0
            ≡ some (record { tokens = b.tokens - cost; last_refill_ms = turn.now }))
  unfolding unchanged read_state new_row state_of
  attempt_now key cost c turn s b seen at_now within fits open_row =
      let (accepted, left, told) = attempt_row key cost c turn s in
      let (state, granted) = taken_now c b turn.now cost at_now within fits in
      let free : unchanged (read_state T pk key turn.seen) (item s (pk key)) ≡ true =
        rw seen open_row in
      let row : item (attempt T pk key cost c turn s).0 (pk key)
          ≡ some (new_row turn.wrote (compute_consume_result (some b) turn.now cost c).0 c) =
        (rw free at left)
        ∙ ap (λ o. some (new_row turn.wrote (compute_consume_result o turn.now cost c).0 c)) seen in
      (
        accepted ∙ free,
        ap (λ (r : RateLimitResult). r.allowed) told
            ∙ ap (λ o. (compute_consume_result o turn.now cost c).1.allowed) seen
            ∙ granted,
        ap state_of row ∙ ap some state,
      )

  -- The refill time does not tell two requests of one millisecond apart: if both read a bucket of
  -- that very millisecond, both are written, both are allowed, and the row lacks only what the
  -- second one took.
  pub same_millisecond_loses_update :
      (key : String) (cost cost2 : ℕ) (c : TokenBucketConfig) (first second : Turn State)
      (s : State) (b : BucketState)
      → read_state T pk key first.seen ≡ some b
      → read_state T pk key second.seen ≡ some b
      → read_state T pk key s ≡ some b
      → b.last_refill_ms ≡ first.now
      → b.last_refill_ms ≡ second.now
      → b.tokens ≤ c.capacity
      → cost ≤ b.tokens
      → cost2 ≤ b.tokens
      → let one = attempt T pk key cost c first s in
        let two = attempt T pk key cost2 c second one.0 in
        (one.1 ≡ true)
        × (two.1 ≡ true)
        × (one.2.allowed ≡ true)
        × (two.2.allowed ≡ true)
        × (read_state T pk key two.0
            ≡ some (record { tokens = b.tokens - cost2; last_refill_ms = second.now }))
  same_millisecond_loses_update key cost cost2 c first second s b seen1 seen2 there at1 at2 within
        fits fits2 =
      let (won, granted, row) =
        attempt_now key cost c first s b seen1 at1 within fits
          (refilled_at-read key s b b.last_refill_ms there refl) in
      let s1 : State = (attempt T pk key cost c first s).0 in
      let left : BucketState = record { tokens = b.tokens - cost; last_refill_ms = first.now } in
      let (won2, granted2, row2) =
        attempt_now key cost2 c second s1 b seen2 at2 within fits2
          (refilled_at-read key s1 left b.last_refill_ms row (sym at1)) in
      (won, won2, granted, granted2, row2)
