-- ===== src/SignIn/Flow/Redeems.antt =====
-- A mailed link, and its code, can be redeemed: the two triggers agree on hashes, times and rows.
use saas_foundation.Prelude.{
  ◌+◌, ◌*◌, ◌/◌, ◌<◌, String, ◌≡◌, refl, sym, ap, ◌∙◌, ◌≢◌, inl, inr, true, false, not, ◌&&◌,
  Option, some, arith, eq_iff, leb, Option-cases, is_some, length, units, hex_bytes,
  same_numbers_refl,
}
use saas_foundation.Table.{Table}
use saas_foundation.SignIn.Values.{
  parse_enrollment, AnswerForm, token, code, classify_answer, is_token_answer, is_code_answer,
}
use saas_foundation.SignIn.Counters.{CounterRow, Bucket}
use saas_foundation.SignIn.Verify.{
  TokenRow, VerifyEvent, VerifyDeps, correct, next, constant_time_hash_equal, has_failed,
  is_quarantined, required_env, is_code, expected_hash, read_answer, is_late, expected_hmac,
  check_email, compare_first, check_row, check, recheck, redeem, verify,
}
use saas_foundation.SignIn.Verify.Laws.{consume_law}
use saas_foundation.SignIn.Decision.{CreateDeps, CreateResponse, Config}
use saas_foundation.SignIn.Create.{World, answerable, token_row}
use saas_foundation.SignIn.Create.Laws.{Mailed}

-- What was mailed: the link's token, of 43 base64url characters, or the code, of 8 digits.
abbrev pub IsMailed : CreateDeps → AnswerForm → String → Type 0
IsMailed d token answer = (answer ≡ d.token) × (is_token_answer answer ≡ true)
IsMailed d code answer = (answer ≡ d.code) × (is_code_answer answer ≡ true)

token_units : (s : String) → is_token_answer s ≡ true → units s ≡ 43
unfolding is_token_answer
token_units s h = ground arith

code_units : (s : String) → is_code_answer s ≡ true → (units s ≡ 8) × (is_token_answer s ≡ false)
unfolding is_code_answer is_token_answer
code_units s h = (ground arith, ground arith)

read_mailed :
    (d : CreateDeps) (form : AnswerForm) (answer : String)
    → IsMailed d form answer
    → read_answer (some answer) ≡ next (answer, form)
unfolding read_answer classify_answer
read_mailed d token answer (same, shape) = ground (arith, shape, token_units answer shape)
read_mailed d code answer (same, shape) = ground (arith, shape, code_units answer shape)

hash_equal_self :
    (h : String) → length (hex_bytes h) ≡ 32 → constant_time_hash_equal (some h) (some h) ≡ true
unfolding constant_time_hash_equal
hash_equal_self h size = ground (arith, same_numbers_refl (hex_bytes h))

module _ (normalize : String → Option String) (sha256_hex : String → String)
    (hmac_email : String → String → String) (bucket_key : String → Bucket → String)
    (C : Table CounterRow) (T : Table TokenRow) where
  open T use {State, item}

  -- A redemption of what the challenge `d` mailed to `a`: an answer of the same session, in time, in
  -- a sound environment with the same key, by a subject that is still eligible.
  pub record Ready (d : CreateDeps) (c : Config) (a key : String) (form : AnswerForm)
      (answer : String) (dv : VerifyDeps) (ev : VerifyEvent) : Type 0 where
    pub mailed : IsMailed d form answer
    pub answered : ev.answer ≡ some answer
    pub session_params :
        ev.params ≡ (answerable normalize sha256_hex hmac_email bucket_key d a).params
    pub first_try : has_failed ev.session ≡ false
    pub enrolled : is_some (parse_enrollment dv.enrollment) ≡ true
    pub same_key : dv.hmac_key ≡ some key
    pub table : required_env dv.token_table ≡ true
    pub get_up : dv.get_ok ≡ true
    pub delete_up : dv.delete_ok ≡ true
    pub in_time : dv.now_ms < (d.now_ms / 1000 + c.ttl * 60) * 1000
    pub eligible_now : recheck sha256_hex hmac_email T dv ≡ correct

  expected_mailed :
      (form : AnswerForm) (d : CreateDeps) (a answer : String)
      → IsMailed d form answer
      → expected_hash form (answerable normalize sha256_hex hmac_email bucket_key d a).params
        ≡ some (sha256_hex answer)
  unfolding expected_hash answerable
  expected_mailed token d a answer (same, shape) = ap (λ x. some (sha256_hex x)) (sym same)
  expected_mailed code d a answer (same, shape) = ap (λ x. some (sha256_hex x)) (sym same)

  code_mailed :
      (form : AnswerForm) (d : CreateDeps) (answer : String)
      → ((s : String) → length (hex_bytes (sha256_hex s)) ≡ 32)
      → IsMailed d form answer
      → is_code form
          && not (constant_time_hash_equal (some (sha256_hex d.code)) (some (sha256_hex answer)))
        ≡ false
  unfolding is_code
  code_mailed token d answer size mailed = refl
  code_mailed code d answer size (same, shape) =
      let equal = hash_equal_self (sha256_hex answer) (size answer) in rw (← same, equal)

  module _ (d : CreateDeps) (c : Config) (a key : String) (form : AnswerForm) (answer : String)
      (dv : VerifyDeps) (ev : VerifyEvent)
      (hash_size : (s : String) → length (hex_bytes (sha256_hex s)) ≡ 32)
      (ready : Ready d c a key form answer dv ev) where
    hash_matches :
        constant_time_hash_equal
          (expected_hash form (answerable normalize sha256_hex hmac_email bucket_key d a).params)
          (some (sha256_hex answer))
        ≡ true
    hash_matches =
        rw (expected_mailed form d a answer ready.mailed)
          (hash_equal_self (sha256_hex answer) (hash_size answer))

    compared :
        compare_first sha256_hex hmac_email dv ev
        ≡ next (sha256_hex d.token, form, sha256_hex answer, key)
    unfolding compare_first is_quarantined answerable
    compared = elim (Option-cases (parse_enrollment dv.enrollment)) [
      | inl missing ↦ absurd (ground (arith, missing, ready.enrolled))
      | inr (mode, enrolled) ↦ rw (
        enrolled,
        ready.same_key,
        ready.session_params,
        ready.first_try,
        ready.answered,
        read_mailed d form answer ready.mailed,
        hash_matches,
        compare_first,
      )
    ]

    email_matches :
        (units (hmac_email a key) ≡ 64)
        → key ≢ ""
        → a ≢ ""
        → check_email sha256_hex hmac_email key (some a) (some (hmac_email a key)) ≡ next tt
    unfolding check_email expected_hmac
    email_matches size keyed addressed = ground (
      arith,
      size,
      keyed,
      addressed,
      eq_iff key "",
      eq_iff a "",
      same_numbers_refl (hex_bytes (hmac_email a key)),
    )

    row_checked :
        (units (hmac_email a key) ≡ 64)
        → key ≢ ""
        → a ≢ ""
        → check_row sha256_hex hmac_email dv ev form
            (sha256_hex answer)
            key
            (token_row normalize sha256_hex hmac_email bucket_key d c a key)
          ≡ next tt
    unfolding check_row token_row answerable is_late
    row_checked size keyed addressed =
        let fresh : leb ((d.now_ms / 1000 + c.ttl * 60) * 1000) dv.now_ms ≡ false =
          ground (arith, ready.in_time) in
        rw (
          code_mailed form d answer hash_size ready.mailed,
          ready.session_params,
          email_matches size keyed addressed,
          fresh,
          check_row,
        )

    checked :
        (seen : State)
        → (units (hmac_email a key) ≡ 64)
        → key ≢ ""
        → a ≢ ""
        → item seen (sha256_hex d.token)
          ≡ some (token_row normalize sha256_hex hmac_email bucket_key d c a key)
        → check sha256_hex hmac_email T dv ev seen ≡ next (sha256_hex d.token)
    unfolding check check_row
    checked seen size keyed addressed stored =
        rw (compared, ready.table, ready.get_up, stored, row_checked size keyed addressed, check)

    redeemed :
        (s : State)
        → is_some (item s (sha256_hex d.token)) ≡ true
        → (redeem sha256_hex hmac_email T dv (sha256_hex d.token) s).0 ≡ correct
    unfolding redeem
    redeemed s there =
        let won = (consume_law sha256_hex hmac_email T (sha256_hex d.token) s).0 ∙ there in
        ground (arith, ready.delete_up, won, ready.eligible_now)

  -- A link or code that was mailed is redeemed: an answer of its session, typed in full, in time and
  -- at the first try, by a subject that is still eligible, with the services up and the key the
  -- same, is correct, if the row is there when the handler reads it and when it deletes it. The
  -- hashes are texts of 32 bytes in hex.
  pub link_redeems :
      (d : CreateDeps) (c : Config) (a key : String) (form : AnswerForm) (answer : String)
      (w w' : World C T) (r : CreateResponse) (dv : VerifyDeps) (ev : VerifyEvent) (seen s : State)
      → ((t : String) → length (hex_bytes (sha256_hex t)) ≡ 32)
      → (units (hmac_email a key) ≡ 64)
      → key ≢ ""
      → a ≢ ""
      → Mailed normalize sha256_hex hmac_email bucket_key C T c d a key w w' r
      → Ready d c a key form answer dv ev
      → item seen (sha256_hex d.token) ≡ item w'.tokens (sha256_hex d.token)
      → is_some (item s (sha256_hex d.token)) ≡ true
      → (verify sha256_hex hmac_email T dv ev seen s).0 ≡ correct
  unfolding verify
  link_redeems d c a key form answer w w' r dv ev seen s hash_size size keyed addressed mailed ready
        kept there =
      let passed =
        checked d c a key form answer dv ev hash_size ready seen size keyed addressed
          (kept ∙ mailed.stored) in
      rw (passed, verify) (redeemed d c a key form answer dv ev hash_size ready s there)
