-- ===== src/SignIn/Flow/SingleUse.antt =====
-- Every mailed link is redeemed at most once, however requests interleave.
use saas_foundation.Prelude.{
  ℕ, ◌+◌, ◌≤◌, String, ◌≡◌, refl, sym, ap, ◌∙◌, ◌≢◌, inl, inr, Bool, true, false, not, ◌&&◌, Option,
  none, some, List, [], ◌∷◌, arith, str_eq, eq_iff, if◌then◌else◌, Bool-cases, is_some,
}
use saas_foundation.Table.{Table}
use saas_foundation.SignIn.Verify.{
  TokenRow, VerifyEvent, VerifyDeps, Verdict, rejected, correct, consume, verify,
}
use saas_foundation.SignIn.Verify.Laws.{verify_correct, verify_table, consume_law}

module _ (sha256_hex : String → String) (hmac_email : String → String → String)
    (T : Table TokenRow) where
  open T use {State, item, write, write_result, write_item, write_other}

  -- One effect on the token table: a redemption, whose read may have seen the table at any earlier
  -- moment, or the row that a new challenge stores if its key is free.
  pub data Act : Type 0 where
    redemption : VerifyDeps → VerifyEvent → State → Act
    issuing : String → TokenRow → Act

  abbrev pub present : String → State → ℕ
  present b s = if is_some (item s b) then 1 else 0

  is_correct : Verdict → Bool
  is_correct correct = true
  is_correct (rejected v) = false

  names : Option String → String → Bool
  names none b = false
  names (some k) b = str_eq k b

  -- The table after an act, the redemptions of the link `b` that were answered as correct (0 or
  -- 1), and the rows that were stored for it.
  unfoldable pub act : String → Act → State → State × ℕ × ℕ
  unfolding is_correct names
  act b (redemption d e seen) s =
      let r = verify sha256_hex hmac_email T d e seen s in
      (r.1, (if is_correct r.0 && names e.params.token_hash b then 1 else 0), 0)
  act b (issuing k row) s =
      let r = write k (λ o. not (is_some o)) (λ o. some row) s in
      (r.0, 0, (if r.1 && str_eq k b then 1 else 0))

  is_correct_sound : (v : Verdict) → is_correct v ≡ true → v ≡ correct
  unfolding is_correct
  is_correct_sound correct h = refl
  is_correct_sound (rejected v) h = cc

  names_sound : (o : Option String) (b : String) → names o b ≡ true → o ≡ some b
  unfolding names
  names_sound none b h = cc
  names_sound (some k) b h = ap some ((eq_iff k b).0 h)

  consume_at :
      (k b : String) (s : State)
      → item (consume sha256_hex hmac_email T k s).0 b ≡ (if str_eq k b then none else item s b)
  consume_at k b s = elim (Bool-cases (str_eq k b)) [
    | inl same ↦
        let e = (eq_iff k b).0 same in
        rw same (
          ap (item (consume sha256_hex hmac_email T k s).0) (sym e)
          ∙ (consume_law sha256_hex hmac_email T k s).1)
    | inr other ↦
        rw other
          ((consume_law sha256_hex hmac_email T k s).2 b (λ e. grind (arith, (eq_iff k b).1 e)))
  ]

  redemption_lost :
      (b : String) (d : VerifyDeps) (e : VerifyEvent) (seen s : State)
      → present b (verify sha256_hex hmac_email T d e seen s).1 ≤ present b s
  redemption_lost b d e seen s = elim (verify_table sha256_hex hmac_email T d e seen s) [
    | inl kept ↦ rw kept (omega arith)
    | inr (k, taken) ↦ rw (taken, consume_at k b s) (ground arith)
  ]

  redemption_won :
      (b : String) (d : VerifyDeps) (e : VerifyEvent) (seen s : State)
      → (verify sha256_hex hmac_email T d e seen s).0 ≡ correct
      → e.params.token_hash ≡ some b
      → (present b s ≡ 1) × (present b (verify sha256_hex hmac_email T d e seen s).1 ≡ 0)
  redemption_won b d e seen s right named =
      let found = verify_correct sha256_hex hmac_email T d e seen s right in
      let same : found.0 ≡ b = ground (arith, found.1.keyed, named) in
      (
        ground (arith, ap (item s) same, found.2),
        ground (arith, ap (item (verify sha256_hex hmac_email T d e seen s).1) same, found.3),
      )

  redemption_step :
      (b : String) (d : VerifyDeps) (e : VerifyEvent) (seen s : State)
      → (if is_correct (verify sha256_hex hmac_email T d e seen s).0 && names e.params.token_hash b
            then 1
            else 0)
          + present b (verify sha256_hex hmac_email T d e seen s).1
        ≤ present b s
  redemption_step b d e seen s = grind (
    arith,
    redemption_lost b d e seen s,
    redemption_won b d e seen s,
    is_correct_sound (verify sha256_hex hmac_email T d e seen s).0,
    names_sound e.params.token_hash b,
  )

  issuing_step :
      (b k : String) (row : TokenRow) (s : State)
      → present b (write k (λ o. not (is_some o)) (λ o. some row) s).0
        ≤ present b s
          + (if (write k (λ o. not (is_some o)) (λ o. some row) s).1 && str_eq k b then 1 else 0)
  issuing_step b k row s = elim (Bool-cases (str_eq k b)) [
    | inl same ↦
        let e = (eq_iff k b).0 same in
        let absent : Option TokenRow → Bool = λ o. not (is_some o) in
        let new : Option TokenRow → Option TokenRow = λ o. some row in
        ground (
          arith,
          write_result k absent new s,
          write_item k absent new s,
          ap (item s) e,
          ap (item (write k absent new s).0) e,
        )
    | inr other ↦
        let ne : k ≢ b = λ e. grind (arith, (eq_iff k b).1 e) in
        rw (write_other k b (λ o. not (is_some o)) (λ o. some row) s ne) (omega arith)
  ]

  act_step :
      (b : String) (a : Act) (s : State)
      → (act b a s).1 + present b (act b a s).0 ≤ present b s + (act b a s).2
  unfolding act
  act_step b (redemption d e seen) s = omega (arith, redemption_step b d e seen s)
  act_step b (issuing k row) s = omega (arith, issuing_step b k row s)

  -- The acts of all requests in the order in which they reach the table: the table after them, and
  -- the two counts for the link `b`.
  unfoldable pub acts : String → List Act → State → State × ℕ × ℕ
  acts b [] s = (s, 0, 0)
  acts b (a ∷ more) s =
      let (s1, won, stored) = act b a s in
      let (s2, wins, rows) = acts b more s1 in (s2, won + wins, stored + rows)

  -- However the requests interleave, and however old the table was that each of them read, the
  -- redemptions of a link that are answered as correct, and the row that is left for it, are no
  -- more than the row that was there and the rows that were stored for it since.
  pub redeemed_at_most_once :
      (b : String) (order : List Act) (s : State)
      → (acts b order s).1 + present b (acts b order s).0 ≤ present b s + (acts b order s).2
  unfolding acts
  redeemed_at_most_once b [] s = omega arith
  redeemed_at_most_once b (a ∷ more) s =
      omega (arith, act_step b a s, redeemed_at_most_once b more (act b a s).0)
