-- ===== src/SignIn/Flow/Tests/Issued.antt =====
-- The flow of one mailed link at concrete inputs: it is issued and redeemed, and the challenge of an
-- unknown user never is.
use saas_foundation.Prelude.{
  String, ◌≡◌, refl, ◌≢◌, ◌⊎◌, inl, inr, true, false, none, some, List, [], ◌∷◌, arith, str_eq,
  Bool-cases, length, get as map_get, set as map_set, delete as map_delete, hex_bytes,
}
use saas_foundation.SignIn.Values.{
  admin_only, parse_enrollment, parse_token_ttl_minutes, is_token_answer, is_base64url,
}
use saas_foundation.SignIn.AllowList.{eligible}
use saas_foundation.Table.{write_map}
use saas_foundation.SignIn.Counters.{
  CounterRow, under_limit, counted, window_of, in_window, used, try_consume_rate_limit,
  try_consume_daily_cap,
}
use saas_foundation.SignIn.Verify.{correct, has_failed, required_env, recheck, verify}
use saas_foundation.SignIn.Decision.{
  CreateEvent, CreateEnv, CreateDeps, CreateResponse, Config, configure, decide, decide_rest, ask,
  usable_key, parse_per_day,
}
use saas_foundation.SignIn.Create.{
  World, answerable, unanswerable, token_row, issue, issue_with, issue_at, finish, store_and_send,
  settle_cap, count_window, count_day, cap_up, is_denylisted, address_of,
}
use saas_foundation.SignIn.Create.Laws.{Silent, Mailed, Permitted, issue_guarded}
use saas_foundation.SignIn.Flow.{unmailed_never_redeems}
use saas_foundation.SignIn.Flow.Redeems.{Ready, link_redeems}
use saas_foundation.SignIn.Values.{token as link_form}
use saas_foundation.SignIn.Flow.Tests.{
  link, link_hash, other_hash, sha, hmac, bucket_text, counters, tokens, ann, deps, stored,
  answered,
}

abbrev env : CreateEnv
env = record {
  token_table = some "tokens";
  rate_limit_table = some "limits";
  denylist_table = some "denied";
  from_address = some "from@b.c";
  domain = some "b.c";
  ttl_minutes = none;
  enrollment = none;
  sends_per_window = none;
  sends_per_day = none;
}

abbrev config : Config
config = record { domain = "b.c"; ttl = 10; mode = admin_only; per_window = some 3; per_day = 20 }

abbrev create_deps : CreateDeps
create_deps = record {
  now_ms = 0;
  token = link;
  code = "12345678";
  decoy = "decoy";
  hmac_key = some "key";
  denylist_item = λ address. some false;
  cap_ok = true;
  day_ok = true;
  allow_list = some ann;
  store_ok = true;
  send_ok = true;
}

abbrev known : CreateEvent
known = record { user_name = "ann"; email = some "a@b.c"; email_quarantined = none }

abbrev unknown : CreateEvent
unknown = record { user_name = "who"; email = none; email_quarantined = none }

abbrev world : World counters tokens
world = record { counters = []; tokens = []; mails = [] }

abbrev spent : List (String × CounterRow)
spent = ("bucket", record { count = 2; window_start = some 0; expires_at = 90000 }) ∷ []

abbrev mailed_world : World counters tokens
mailed_world = record {
  counters = ("bucket", record { count = 2; window_start = some 0; expires_at = 90000 }) ∷ [];
  tokens =
      (
        link_hash,
        record {
          code_hash = some other_hash;
          email_hmac = some "0000000000000000000000000000000000000000000000000000000000c0ffee";
          expires_at = some 600;
        },
      )
      ∷ [];
  mails =
      record { to = "a@b.c"; token = link; code = "12345678"; domain = "b.c"; ttl_minutes = 10 }
      ∷ [];
}

issue_guarded_example :
    Silent some sha hmac bucket_text counters tokens config create_deps world mailed_world
      (answerable some sha hmac bucket_text create_deps "a@b.c")
    ⊎ ((a : String) × (k : String) × Mailed some sha hmac bucket_text counters tokens config
          create_deps a k world mailed_world
          (answerable some sha hmac bucket_text create_deps "a@b.c")
        × Permitted some sha hmac bucket_text counters tokens config create_deps env known world a
            k)
unfolding issue issue_with issue_at configure required_env parse_token_ttl_minutes parse_enrollment
    answerable unanswerable finish address_of usable_key decide decide_rest ask eligible
    is_denylisted settle_cap cap_up count_window count_day try_consume_rate_limit
    try_consume_daily_cap write_map map_get map_set map_delete under_limit counted in_window used
    window_of parse_per_day store_and_send token_row
issue_guarded_example =
    issue_guarded some sha hmac bucket_text counters tokens config env create_deps known world
      mailed_world (answerable some sha hmac bucket_text create_deps "a@b.c") refl refl

abbrev silent_response : CreateResponse
silent_response = unanswerable some sha hmac bucket_text create_deps "who"

unmailed_never_redeems_example :
    (verify sha hmac tokens deps
      (record { params = silent_response.params; answer = some "decoy"; session = [] })
      stored
      stored).0
    ≢ correct
unfolding issue issue_with issue_at configure required_env parse_token_ttl_minutes parse_enrollment
    answerable unanswerable finish address_of usable_key decide decide_rest ask eligible
    is_denylisted settle_cap cap_up count_window count_day try_consume_rate_limit
    try_consume_daily_cap write_map map_get map_set map_delete under_limit counted in_window used
    window_of parse_per_day store_and_send token_row
unmailed_never_redeems_example =
    unmailed_never_redeems some sha hmac bucket_text counters tokens config env create_deps unknown
      world (record world { counters = mailed_world.counters }) silent_response deps
      (record { params = silent_response.params; answer = some "decoy"; session = [] }) stored
      stored refl refl refl refl

sha_size : (t : String) → length (hex_bytes (sha t)) ≡ 32
unfolding hex_bytes
sha_size t = elim (Bool-cases (str_eq t link)) [
  | inl here ↦ rw here refl
  | inr other ↦ rw other refl
]

mailed :
    Mailed some sha hmac bucket_text counters tokens config create_deps "a@b.c" "key" world
      mailed_world
      (answerable some sha hmac bucket_text create_deps "a@b.c")
unfolding token_row map_get
mailed = record { one_mail = refl; answer = refl; stored = refl; fresh = refl }

ready :
    Ready some sha hmac bucket_text counters tokens create_deps config "a@b.c" "key" link_form link
      deps
      (answered link)
unfolding answerable has_failed parse_enrollment required_env recheck eligible is_token_answer
    is_base64url
ready = record {
  mailed = (refl, refl);
  answered = refl;
  session_params = refl;
  first_try = refl;
  enrolled = refl;
  same_key = refl;
  table = refl;
  get_up = refl;
  delete_up = refl;
  in_time = omega arith;
  eligible_now = refl;
}

link_redeems_example :
    (verify sha hmac tokens deps (answered link) mailed_world.tokens stored).0 ≡ correct
unfolding map_get
link_redeems_example =
    link_redeems some sha hmac bucket_text counters tokens create_deps config "a@b.c" "key"
      link_form link world mailed_world (answerable some sha hmac bucket_text create_deps "a@b.c")
      deps (answered link) mailed_world.tokens stored sha_size refl (λ e. cc) (λ e. cc) mailed ready
      refl refl
