-- ===== src/SignIn/Verify/Laws.antt =====
-- When a redemption succeeds, and what it does to the token table.
use saas_foundation.Prelude.{
  String, ◌≡◌, refl, sym, ap, ◌∙◌, ◌≢◌, ◌⊎◌, inl, inr, true, false, Option, none, some, arith,
  Bool-cases, Option-cases, or_else, is_some,
}
use saas_foundation.SignIn.Values.{AnswerForm, token, code}
use saas_foundation.Table.{Table}
use saas_foundation.SignIn.Verify.{
  TokenRow, VerifyEvent, VerifyDeps, Stop, rejected, correct, Stage, stop, next,
  constant_time_hash_equal, has_failed, is_quarantined, is_code, expected_hash, read_answer,
  is_late, check_email, compare_first, check_row, check, consume, recheck, redeem, verify,
}

module _ (sha256_hex : String → String) (hmac_email : String → String → String) where
  read_answer_sound :
      (answer : Option String) (a : String × AnswerForm)
      → read_answer answer ≡ next a
      → answer ≡ some a.0
  unfolding read_answer
  read_answer_sound none a h = cc
  read_answer_sound (some s) a h = ground arith

  pub compared :
      (d : VerifyDeps) (e : VerifyEvent) (row_key : String) (form : AnswerForm) (hash key : String)
      → compare_first sha256_hex hmac_email d e ≡ next (row_key, form, hash, key)
      → (d.hmac_key ≡ some key)
        × (is_quarantined e.params ≡ false)
        × (has_failed e.session ≡ false)
        × (e.params.token_hash ≡ some row_key)
        × (constant_time_hash_equal (expected_hash form e.params) (some hash) ≡ true)
        × (e.answer ≡ some (or_else e.answer ""))
        × (hash ≡ sha256_hex (or_else e.answer ""))
  unfolding compare_first
  compared d e row_key form hash key h = grind (arith, read_answer_sound)

  -- The hash of what was submitted.
  abbrev pub submitted_hash : VerifyEvent → String
  submitted_hash e = sha256_hex (or_else e.answer "")

  module _ (T : Table TokenRow) where
    open T use {State, item, write, write_result, write_item, write_other}

    -- All that a redemption rests on: the session's own hash is that of the answer, no round has
    -- failed, and the row that the session's token names is there, in time, and of that address.
    pub record Redeemable (d : VerifyDeps) (e : VerifyEvent) (seen : State) (row_key : String)
        : Type 0 where
      pub form : AnswerForm
      pub row : TokenRow
      pub keyed : e.params.token_hash ≡ some row_key
      pub stored : item seen row_key ≡ some row
      pub matches :
          constant_time_hash_equal (expected_hash form e.params) (some (submitted_hash e)) ≡ true
      pub code_matches :
          is_code form ≡ true
          → constant_time_hash_equal row.code_hash (some (submitted_hash e)) ≡ true
      pub unquarantined : is_quarantined e.params ≡ false
      pub unfailed : has_failed e.session ≡ false
      pub in_time : is_late d.now_ms row.expires_at ≡ false
      pub address :
          check_email sha256_hex hmac_email (or_else d.hmac_key "") e.params.email row.email_hmac
          ≡ next tt

    check_row_sound :
        (d : VerifyDeps) (e : VerifyEvent) (form : AnswerForm) (hash key : String) (row : TokenRow)
        → check_row sha256_hex hmac_email d e form hash key row ≡ next tt
        → (is_code form ≡ true → constant_time_hash_equal row.code_hash (some hash) ≡ true)
          × (check_email sha256_hex hmac_email key e.params.email row.email_hmac ≡ next tt)
          × (is_late d.now_ms row.expires_at ≡ false)
    unfolding check_row
    check_row_sound d e form hash key row h = ((λ c. ground arith), ground arith, ground arith)

    redeemable :
        (d : VerifyDeps) (e : VerifyEvent) (seen : State) (k : String) (form : AnswerForm)
        (hash key : String) (row : TokenRow)
        → compare_first sha256_hex hmac_email d e ≡ next (k, form, hash, key)
        → item seen k ≡ some row
        → check_row sha256_hex hmac_email d e form hash key row ≡ next tt
        → Redeemable d e seen k
    redeemable d e seen k form hash key row first stored checked =
        let (secret, free, fresh, keyed, equal, answered, hashed) =
          compared d e k form hash key first in
        let (by_code, address, in_time) = check_row_sound d e form hash key row checked in
        record {
          form = form;
          row = row;
          keyed = keyed;
          stored = stored;
          matches = rw (← hashed) equal;
          code_matches = rw (← hashed) by_code;
          unquarantined = free;
          unfailed = fresh;
          in_time = in_time;
          address = rw (secret) address;
        }

    pub Stage-cases :
        {A : Type 0} (m : Stage A) → ((v : Stop) × (m ≡ stop v)) ⊎ ((a : A) × (m ≡ next a))
    Stage-cases (stop v) = inl (v, refl)
    Stage-cases (next a) = inr (a, refl)

    module _ (d : VerifyDeps) (e : VerifyEvent) (seen : State) (k : String) where
      check_parts :
          (j : String) (form : AnswerForm) (hash key : String) (row : TokenRow)
          → check sha256_hex hmac_email T d e seen ≡ next k
          → compare_first sha256_hex hmac_email d e ≡ next (j, form, hash, key)
          → item seen j ≡ some row
          → (j ≡ k) × (check_row sha256_hex hmac_email d e form hash key row ≡ next tt)
      unfolding check
      check_parts j form hash key row h first stored = ground arith

      check_present :
          (j : String) (form : AnswerForm) (hash key : String)
          → check sha256_hex hmac_email T d e seen ≡ next k
          → compare_first sha256_hex hmac_email d e ≡ next (j, form, hash, key)
          → item seen j ≢ none
      unfolding check
      check_present j form hash key h first missing = ground arith

      check_compared :
          (v : Stop)
          → check sha256_hex hmac_email T d e seen ≡ next k
          → compare_first sha256_hex hmac_email d e ≢ stop v
      unfolding check
      check_compared v h stopped = ground arith

      pub check_sound : check sha256_hex hmac_email T d e seen ≡ next k → Redeemable d e seen k
      check_sound h = elim (Stage-cases (compare_first sha256_hex hmac_email d e)) [
        | inl (v, stopped) ↦ absurd (check_compared v h stopped)
        | inr ((j, form, hash, key), first) ↦ elim (Option-cases (item seen j)) [
          | inl missing ↦ absurd (check_present j form hash key h first missing)
          | inr (row, stored) ↦
              let (same, checked) = check_parts j form hash key row h first stored in
              rw (← same) (redeemable d e seen j form hash key row first stored checked)
        ]
      ]

    -- The delete: it takes the row away if it is there, and touches no other row.
    pub consume_law :
        (k : String) (s : State)
        → ((consume sha256_hex hmac_email T k s).1 ≡ is_some (item s k))
          × (item (consume sha256_hex hmac_email T k s).0 k ≡ none)
          × ((j : String) → k ≢ j → item (consume sha256_hex hmac_email T k s).0 j ≡ item s j)
    unfolding consume
    consume_law k s =
        let f : Option TokenRow → Option TokenRow = λ r. none in
        (
          write_result k is_some f s,
          ground (arith, write_item k is_some f s),
          λ j ne. write_other k j is_some f s ne,
        )

    redeem_correct :
        (d : VerifyDeps) (k : String) (s : State)
        → (redeem sha256_hex hmac_email T d k s).0 ≡ correct
        → ((redeem sha256_hex hmac_email T d k s).1 ≡ (consume sha256_hex hmac_email T k s).0)
          × ((consume sha256_hex hmac_email T k s).1 ≡ true)
          × (recheck sha256_hex hmac_email T d ≡ correct)
    unfolding redeem
    redeem_correct d k s h = ground arith

    verify_next :
        (d : VerifyDeps) (e : VerifyEvent) (seen s : State)
        → (verify sha256_hex hmac_email T d e seen s).0 ≡ correct
        → (k : String) × (check sha256_hex hmac_email T d e seen ≡ next k)
          × (verify sha256_hex hmac_email T d e seen s ≡ redeem sha256_hex hmac_email T d k s)
    unfolding verify
    verify_next d e seen s h = elim (Stage-cases (check sha256_hex hmac_email T d e seen)) [
      | inl (v, stopped) ↦ absurd (ground (arith, stopped))
      | inr (k, passed) ↦ (k, passed, rw (passed, verify))
    ]

    -- A redemption that succeeds took away the row that its read found and no other, and passed the
    -- eligibility check.
    pub verify_correct :
        (d : VerifyDeps) (e : VerifyEvent) (seen s : State)
        → (verify sha256_hex hmac_email T d e seen s).0 ≡ correct
        → let after = (verify sha256_hex hmac_email T d e seen s).1 in
          (k : String) × Redeemable d e seen k
          × (is_some (item s k) ≡ true)
          × (item after k ≡ none)
          × ((j : String) → k ≢ j → item after j ≡ item s j)
          × (recheck sha256_hex hmac_email T d ≡ correct)
    verify_correct d e seen s h =
        let (k, passed, same) = verify_next d e seen s h in
        let (left, won, eligible_now) = redeem_correct d k s (ap (λ r. r.0) (sym same) ∙ h) in
        let (result, gone, others) = consume_law k s in
        let after = ap (λ r. r.1) same ∙ left in
        (
          k,
          check_sound d e seen k passed,
          sym result ∙ won,
          ap (λ t. item t k) after ∙ gone,
          (λ j ne. ap (λ t. item t j) after ∙ others j ne),
          eligible_now,
        )

    compare_foreign :
        (d : VerifyDeps) (e : VerifyEvent) (a : String × AnswerForm × String × String)
        → constant_time_hash_equal e.params.token_hash (some (submitted_hash e)) ≡ false
        → constant_time_hash_equal e.params.code_hash (some (submitted_hash e)) ≡ false
        → compare_first sha256_hex hmac_email d e ≢ next a
    unfolding expected_hash
    compare_foreign d e (k, token, hash, key) a b h =
        let c = compared d e k token hash key h in cc (c.4, c.6, a)
    compare_foreign d e (k, code, hash, key) a b h =
        let c = compared d e k code hash key h in cc (c.4, c.6, b)

    verify_stopped :
        (d : VerifyDeps) (e : VerifyEvent) (seen s : State) (v : Stop)
        → compare_first sha256_hex hmac_email d e ≡ stop v
        → verify sha256_hex hmac_email T d e seen s ≡ (rejected v, s)
    unfolding verify check
    verify_stopped d e seen s v h = rw (h, check, verify)

    -- An answer that fits neither hash of its session is never correct and burns nothing: the table
    -- is left as it was, so that the owner of the link can still redeem it.
    pub verify_foreign_answer :
        (d : VerifyDeps) (e : VerifyEvent) (seen s : State)
        → constant_time_hash_equal e.params.token_hash (some (submitted_hash e)) ≡ false
        → constant_time_hash_equal e.params.code_hash (some (submitted_hash e)) ≡ false
        → ((verify sha256_hex hmac_email T d e seen s).0 ≢ correct)
          × ((verify sha256_hex hmac_email T d e seen s).1 ≡ s)
    verify_foreign_answer d e seen s a b =
        elim (Stage-cases (compare_first sha256_hex hmac_email d e)) [
          | inl (v, stopped) ↦
              let same = verify_stopped d e seen s v stopped in
              ((λ h. cc (ap (λ r. r.0) same)), ap (λ r. r.1) same)
          | inr (found, passed) ↦ absurd (compare_foreign d e found a b passed)
        ]

    -- What a request may do to the table: nothing, or take one row away.
    pub verify_table :
        (d : VerifyDeps) (e : VerifyEvent) (seen s : State)
        → ((verify sha256_hex hmac_email T d e seen s).1 ≡ s)
          ⊎ ((k : String) × ((verify sha256_hex hmac_email T d e seen s).1
                ≡ (consume sha256_hex hmac_email T k s).0))
    unfolding verify redeem
    verify_table d e seen s = elim (Stage-cases (check sha256_hex hmac_email T d e seen)) [
      | inl (v, stopped) ↦ inl (rw (stopped, verify))
      | inr (k, passed) ↦ elim (Bool-cases d.delete_ok) [
        | inl reached ↦ inr (k, rw (passed, verify) (ground arith))
        | inr lost ↦ inl (rw (passed, verify) (ground arith))
      ]
    ]
