-- ===== src/SignIn/Verify.antt =====
-- packages/vestibulum/src/lambda/handlers/verify-auth-challenge/index.ts: the redemption of a mailed
-- link or code. The handler reads the token row, then deletes it under a condition; what other
-- requests do to the table between the two is an argument.
pub mod Laws
pub mod Decides
use saas_foundation.Prelude.{
  ℕ, ◌*◌, String, ◌≡◌, refl, Bool, true, false, not, ◌&&◌, ◌||◌, Option, none, some, List, [], ◌∷◌,
  arith, str_eq, ltb, leb, ◌==◌, if◌then◌else◌, or_else, is_some, length, units, hex_bytes,
  same_numbers,
}
use saas_foundation.SignIn.Values.{
  admin_only, parse_enrollment, AnswerForm, token, code, classify_answer, max_answer_length,
}
use saas_foundation.SignIn.AllowList.{Answer, value, unavailable, eligible}
use saas_foundation.Table.{Table}

-- `privateChallengeParameters`
pub record Params : Type 0 where
  pub email : Option String
  pub token_hash : Option String
  pub code_hash : Option String
  pub quarantined : Option String

-- A row of the token table, an attribute is `none` where it is missing or no number.
pub record TokenRow : Type 0 where
  pub code_hash : Option String
  pub email_hmac : Option String
  pub expires_at : Option ℕ  -- epoch seconds

-- The answer is `none` where it is no text; the session holds each round's result.
pub record VerifyEvent : Type 0 where
  pub params : Params
  pub answer : Option String
  pub session : List (Option Bool)

pub data FailReason : Type 0 where
  quarantined_challenge prior_failure empty_answer bad_answer hash_mismatch no_such_token :
      FailReason
  code_mismatch email_mismatch expired already_consumed delete_error ineligible : FailReason
  allow_list_down dependency_error : FailReason

-- `thrown` is an error that leaves the handler; it answers `false` in all other cases but one.
pub data Stop : Type 0 where
  thrown : Stop
  failed : FailReason → Stop

pub data Verdict : Type 0 where
  rejected : Stop → Verdict
  correct : Verdict

-- The environment and what the dependencies answer to this request: the key is `none` where its
-- resolution fails, a read or a delete may fail, and the allow-list may throw (`none`).
pub record VerifyDeps : Type 0 where
  pub enrollment : Option String
  pub token_table : Option String
  pub hmac_key : Option String
  pub get_ok : Bool
  pub delete_ok : Bool
  pub allow_list : Option Answer
  pub now_ms : ℕ

unfoldable pub constant_time_hash_equal : Option String → Option String → Bool
constant_time_hash_equal a b =
    let x = hex_bytes (or_else a "") in
    let y = hex_bytes (or_else b "") in
    if not (length x == 32) || not (length y == 32) then false else same_numbers x y

-- `entry?.challengeResult === false` for some round
unfoldable pub has_failed : List (Option Bool) → Bool
has_failed [] = false
has_failed (none ∷ rest) = has_failed rest
has_failed (some result ∷ rest) = not result || has_failed rest

-- `params.quarantined === "true"`
unfoldable pub is_quarantined : Params → Bool
is_quarantined p = elim p.quarantined [ none ↦ false | some s ↦ str_eq s "true" ]

-- `requiredEnv`
unfoldable pub required_env : Option String → Bool
required_env none = false
required_env (some s) = not (str_eq s "")

unfoldable pub is_code : AnswerForm → Bool
is_code token = false
is_code code = true

unfoldable pub expected_hash : AnswerForm → Params → Option String
expected_hash token p = p.token_hash
expected_hash code p = p.code_hash

-- What a stage of the handler ends in: why it stopped, or the value that the next stage needs.
pub data Stage (A : Type 0) : Type 0 where
  stop : Stop → Stage A
  next : A → Stage A

infixl 5 ◌>>=◌ ◌>>◌
abbrev pub ◌>>=◌ : {A B : Type 0} → Stage A → (A → Stage B) → Stage B
stop v >>= f = stop v
next a >>= f = f a

abbrev pub ◌>>◌ : {B : Type 0} → Stage (Unit {0}) → Stage B → Stage B
m >> k = m >>= λ _. k

abbrev pub or_stop : {A : Type 0} → Stop → Option A → Stage A
or_stop v none = stop v
or_stop v (some a) = next a

abbrev pub ensure : Bool → Stop → Stage (Unit {0})
ensure true v = next tt
ensure false v = stop v

pub >>=-eq-next :
    {A B : Type 0} (m : Stage A) (f : A → Stage B) {b : B}
    → (m >>= f) ≡ next b
    → (a : A) × (m ≡ next a) × (f a ≡ next b)
>>=-eq-next (stop v) f h = cc
>>=-eq-next (next a) f h = (a, refl, h)

pub or_stop-eq-next :
    {A : Type 0} (v : Stop) (o : Option A) {a : A} → or_stop v o ≡ next a → o ≡ some a
or_stop-eq-next v none h = cc
or_stop-eq-next v (some x) h = ground arith

pub ensure-eq-next : (b : Bool) (v : Stop) {u : Unit {0}} → ensure b v ≡ next u → b ≡ true
ensure-eq-next true v h = refl
ensure-eq-next false v h = cc

-- The answer that was submitted, or why it is none: empty, too long, or neither of the two forms.
unfoldable pub read_answer : Option String → Stage (String × AnswerForm)
read_answer none = stop (failed empty_answer)
read_answer (some submitted) =
    if units submitted == 0
    then stop (failed empty_answer)
    else if ltb max_answer_length (units submitted)
    then stop (failed bad_answer)
    else elim (classify_answer (some submitted)) [
      | none ↦ stop (failed bad_answer)
      | some form ↦ next (submitted, form)
    ]

-- The expiry check: `nowMs >= expiresAtSeconds * 1000`, and no number fails too.
unfoldable pub is_late : ℕ → Option ℕ → Bool
is_late now none = true
is_late now (some at) = leb (at * 1000) now

-- `sha256_hex` and `hmac_email` are the hashes of the crypto library, over the text and over the
-- lower-case address under a key.
module _ (sha256_hex : String → String) (hmac_email : String → String → String) where
  unfoldable pub expected_hmac : String → Option String → String
  expected_hmac key none = ""
  expected_hmac key (some email) =
      if str_eq key "" || str_eq email "" then "" else hmac_email email key

  -- The email check; `timingSafeEqual` throws on byte strings of two lengths.
  unfoldable pub check_email : String → Option String → Option String → Stage (Unit {0})
  unfolding expected_hmac
  check_email key email stored =
      let have = or_else stored "" in
      let want = expected_hmac key email in
      let a = hex_bytes have in
      let b = hex_bytes want in
      if units have == 0 || units want == 0 || not (units have == units want)
      then stop (failed email_mismatch)
      else if not (length a == length b)
      then stop thrown
      else if same_numbers a b
      then next tt
      else stop (failed email_mismatch)

  -- Up to the comparison with the session's own hashes, before any table is touched: the row's
  -- key, the form and hash of the answer, and the key of the address hash.
  unfoldable pub compare_first :
      VerifyDeps → VerifyEvent → Stage (String × AnswerForm × String × String)
  compare_first d e = do
    mode ← or_stop thrown (parse_enrollment d.enrollment)
    key ← or_stop (failed dependency_error) d.hmac_key
    ensure (not (is_quarantined e.params)) (failed quarantined_challenge)
    ensure (not (has_failed e.session)) (failed prior_failure)
    answer ← read_answer e.answer
    let hash = sha256_hex answer.0
    ensure (constant_time_hash_equal (expected_hash answer.1 e.params) (some hash))
        (failed hash_mismatch)
    row_key ← or_stop (failed hash_mismatch) e.params.token_hash
    next (row_key, answer.1, hash, key)

  -- The row's own checks: the code's hash, the address, and the expiry.
  unfoldable pub check_row :
      VerifyDeps → VerifyEvent → AnswerForm → String → String → TokenRow → Stage (Unit {0})
  check_row d e form hash key row = do
    ensure (not (is_code form && not (constant_time_hash_equal row.code_hash (some hash))))
        (failed code_mismatch)
    check_email key e.params.email row.email_hmac
    ensure (not (is_late d.now_ms row.expires_at)) (failed expired)

  module _ (T : Table TokenRow) where
    open T use {State, item, write}

    -- Everything before the delete: the key of the row that is to be consumed.
    unfoldable pub check : VerifyDeps → VerifyEvent → State → Stage String
    check d e s = do
      found ← compare_first d e
      ensure (required_env d.token_table) thrown
      ensure d.get_ok (failed dependency_error)
      row ← or_stop (failed no_such_token) (item s found.0)
      check_row d e found.1 found.2 found.3 row
      next found.0

    -- The delete, on the condition that the row is there.
    unfoldable pub consume : String → State → State × Bool
    consume row_key = write row_key is_some (λ r. none)

    -- The eligibility at redemption, in the mode that has an allow-list.
    unfoldable pub recheck : VerifyDeps → Verdict
    recheck d = elim (parse_enrollment d.enrollment) [
      | some admin_only ↦ elim d.allow_list [
        | none ↦ rejected (failed allow_list_down)
        | some unavailable ↦ rejected (failed allow_list_down)
        | some (value who) ↦ if eligible who then correct else rejected (failed ineligible)
      ]
      | _ ↦ correct
    ]

    unfoldable pub redeem : VerifyDeps → String → State → Verdict × State
    redeem d row_key s =
        if not d.delete_ok
        then (rejected (failed delete_error), s)
        else (let (s', done) = consume row_key s in
            if done then (recheck d, s') else (rejected (failed already_consumed), s'))

    -- The handler: the table as its read finds it, and as its delete finds it.
    unfoldable pub verify : VerifyDeps → VerifyEvent → State → State → Verdict × State
    verify d e seen s = elim (check d e seen) [
      | stop v ↦ (rejected v, s)
      | next row_key ↦ redeem d row_key s
    ]
