-- ===== src/SignIn/Flow/Tests.antt =====
-- Verification at concrete inputs: a link is redeemed once, and a foreign answer is refused.
mod Issued
use saas_foundation.Prelude.{
  ◌+◌, ◌≤◌, String, ◌≡◌, refl, ap, ◌≢◌, ◌↔◌, ◌⊎◌, inl, inr, true, false, none, some, List, [], ◌∷◌,
  arith, str_eq, if◌then◌else◌, Bool-cases, is_some, length, JsMap, get as map_get, set as map_set,
  delete as map_delete, hex_bytes, same_numbers,
}
use saas_foundation.SignIn.Values.{
  admin_only, parse_enrollment, parse_token_ttl_minutes, classify_answer, is_token_answer,
  is_base64url,
}
use saas_foundation.SignIn.AllowList.{Answer, value, eligible}
use saas_foundation.Table.{Table, map_table, write_map}
use saas_foundation.SignIn.Counters.{
  CounterRow, Bucket, under_limit, counted, window_of, in_window, used, try_consume_rate_limit,
  try_consume_daily_cap,
}
use saas_foundation.SignIn.Verify.{
  TokenRow, next, VerifyEvent, VerifyDeps, Verdict, correct, constant_time_hash_equal, has_failed,
  is_quarantined, required_env, is_code, expected_hash, read_answer, is_late, expected_hmac,
  check_email, compare_first, check_row, check, consume, recheck, redeem, verify,
}
use saas_foundation.SignIn.Verify.Laws.{Redeemable, verify_foreign_answer}
use saas_foundation.SignIn.Verify.Decides.{verify_decides}
use saas_foundation.SignIn.Decision.{
  CreateEvent, CreateEnv, CreateDeps, CreateResponse, Config, configure, decide, decide_rest, ask,
  usable_key, parse_per_day,
}
use saas_foundation.SignIn.Create.{
  World, answerable, unanswerable, token_row, issue, issue_with, issue_at, finish, store_and_send,
  settle_cap, count_window, count_day, cap_up, is_denylisted, address_of,
}
use saas_foundation.SignIn.Create.Laws.{Silent, Mailed, Permitted, issue_guarded}
use saas_foundation.SignIn.Flow.{unmailed_never_redeems}
use saas_foundation.SignIn.Flow.Redeems.{Ready, link_redeems}
use saas_foundation.SignIn.Values.{token as link_form}
use saas_foundation.SignIn.Flow.SingleUse.{
  Act, redemption, issuing, acts, present, redeemed_at_most_once,
}

abbrev pub link : String
link = "AAAAAAAAAABBBBBBBBBBCCCCCCCCCCDDDDDDDDDD-_9"

abbrev pub link_hash : String
link_hash = "00000000000000000000000000000000000000000000000000000000000000aa"

abbrev pub other_hash : String
other_hash = "00000000000000000000000000000000000000000000000000000000000000bb"

-- A hash of two values, which tells the link from all else.
abbrev pub sha : String → String
sha s = if str_eq s link then link_hash else other_hash

abbrev pub hmac : String → String → String
hmac email key = "0000000000000000000000000000000000000000000000000000000000c0ffee"

abbrev pub bucket_text : String → Bucket → String
bucket_text key b = "bucket"

abbrev pub counters : Table CounterRow
counters = map_table CounterRow

abbrev pub tokens : Table TokenRow
tokens = map_table TokenRow

abbrev pub ann : Answer
ann = value (some (record { subject = "ann"; active = true }))

abbrev pub deps : VerifyDeps
deps = record {
  enrollment = none;
  token_table = some "tokens";
  hmac_key = some "key";
  get_ok = true;
  delete_ok = true;
  allow_list = some ann;
  now_ms = 60000;
}

abbrev row : TokenRow
row = record {
  code_hash = some other_hash;
  email_hmac = some "0000000000000000000000000000000000000000000000000000000000c0ffee";
  expires_at = some 600;
}

abbrev pub stored : JsMap TokenRow
stored = (link_hash, row) ∷ []

abbrev pub answered : String → VerifyEvent
answered text = record {
  params = record {
    email = some "a@b.c";
    token_hash = some link_hash;
    code_hash = some other_hash;
    quarantined = some "false";
  };
  answer = some text;
  session = [];
}

redeems : verify sha hmac tokens deps (answered link) stored stored ≡ (correct, [])
unfolding verify check compare_first check_row check_email expected_hmac read_answer classify_answer
    is_token_answer is_base64url is_late expected_hash is_code constant_time_hash_equal has_failed
    is_quarantined required_env redeem consume recheck parse_enrollment map_get write_map eligible
    hex_bytes same_numbers map_delete
redeems = refl

verify_decides_example :
    let out = verify sha hmac tokens deps (answered link) stored stored in
    (((deps.delete_ok ≡ false)
        ⊎ ((k : String) → check sha hmac tokens deps (answered link) stored ≢ next k))
      × (out.0 ≢ correct)
      × (out.1 ≡ stored))
    ⊎ ((k : String) × Redeemable sha hmac tokens deps (answered link) stored k
        × (map_get out.1 k ≡ none)
        × ((j : String) → k ≢ j → map_get out.1 j ≡ map_get stored j)
        × ((out.0 ≡ correct)
            ↔ ((is_some (map_get stored k) ≡ true) × (recheck sha hmac tokens deps ≡ correct))))
verify_decides_example = verify_decides sha hmac tokens deps (answered link) stored stored

abbrev guess : String
guess = "12345678"

-- A session whose code hash is that of nothing that anyone can submit.
abbrev guessed : VerifyEvent
guessed = record {
  params = record {
    email = some "a@b.c";
    token_hash = some link_hash;
    code_hash = none;
    quarantined = some "false";
  };
  answer = some guess;
  session = [];
}

verify_foreign_answer_example :
    ((verify sha hmac tokens deps guessed stored stored).0 ≢ correct)
    × ((verify sha hmac tokens deps guessed stored stored).1 ≡ stored)
unfolding constant_time_hash_equal hex_bytes same_numbers
verify_foreign_answer_example =
    verify_foreign_answer sha hmac tokens deps guessed stored stored refl refl

-- Two redemptions of one link, both of which read the table before either wrote it.
abbrev race : List (Act sha hmac tokens)
race =
    issuing link_hash row
    ∷ redemption deps (answered link) stored
    ∷ redemption deps (answered link) stored
    ∷ []

redeemed_at_most_once_example :
    (acts sha hmac tokens link_hash race []).1
      + present sha hmac tokens link_hash (acts sha hmac tokens link_hash race []).0
    ≤ present sha hmac tokens link_hash [] + (acts sha hmac tokens link_hash race []).2
redeemed_at_most_once_example = redeemed_at_most_once sha hmac tokens link_hash race []
