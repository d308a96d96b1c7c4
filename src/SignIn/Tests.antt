-- ===== src/SignIn/Tests.antt =====
-- The theorems on the values, the counters, the allow-list and the addresses at concrete inputs.
use saas_foundation.Prelude.{
  ℕ, Option, ◌==◌, if◌then◌else◌, arith, JsMap, ◌<◌, ◌&&◌, false, ◌+◌, ◌≤◌, String, ◌≡◌, refl, ◌↔◌,
  ◌⊎◌, true, false, none, some, List, [], ◌∷◌, ◌++◌, eq_iff, get as map_get,
}
use saas_foundation.SignIn.Define.{
  rounds, define_auth_challenge, define_auth_challenge_decides, winning, DefineResponse,
}
use saas_foundation.Table.{map_table}
use saas_foundation.SignIn.Counters.{CounterRow, Bucket, window, day, signup, login_ip, used}
use saas_foundation.SignIn.Counters.Bounds.{send, challenge, attempts, attempts_bounded}
use saas_foundation.Text.{Text, text_of}
use saas_foundation.SignIn.PreSignup.{
  SignupEvent, listed, self_sign_up, SignupResponse, SignupResult, welcome, signup_not_allowed,
  Rejection, limit_per_window, is_closed, is_domain_allowed, handle_signup, handle_signup_guarded,
}
use saas_foundation.SignIn.AllowList.{
  filter_of, LiteralReader, filter_reads_back, PoolUser, ok, user_not_found, Reply, Eligibility,
}

no_response : DefineResponse
no_response = record { challenge_name = none; issue_tokens = none; fail_authentication = none }

define_auth_challenge_decides_example :
    (((define_auth_challenge winning no_response).issue_tokens ≡ some true) ↔ (winning ≡ winning))
    × (((define_auth_challenge winning no_response).fail_authentication ≡ some false)
        ↔ ((winning ≡ winning) ⊎ (winning ≡ rounds [])))
    × ((define_auth_challenge winning no_response).challenge_name ≡ none)
unfolding no_response
define_auth_challenge_decides_example = define_auth_challenge_decides winning no_response

-- A key that tells buckets of two kinds apart.
abbrev bucket_text : Bucket → String
bucket_text (window email start) = "window"
bucket_text (day email date) = "day"
bucket_text (signup email start) = "signup"
bucket_text (login_ip ip start) = "login"

attempts_bounded_example :
    (attempts
      (map_table CounterRow)
      bucket_text
      "window"
      (send "a@b.c" 1 1000 900000 ∷ challenge "a@b.c" 20 1000 ∷ send "a@b.c" 1 2000 900000 ∷ [])
      []).1
    ≤ 1
unfolding map_get
attempts_bounded_example =
    attempts_bounded (map_table CounterRow) bucket_text "window" 1
      (send "a@b.c" 1 1000 900000 ∷ challenge "a@b.c" 20 1000 ∷ send "a@b.c" 1 2000 900000 ∷ []) []
      ((λ h. refl), ((λ h. cc ((eq_iff "day" "window").1 h)), ((λ h. refl), tt))) refl

abbrev ann : PoolUser
ann = record {
  username = some "ann";
  enabled = some true;
  attributes = some (("email_verified", some "true") ∷ []);
}

abbrev pool : Text → Reply (List PoolUser)
pool filter = ok (ann ∷ [])

abbrev nobody : String → Reply PoolUser
nobody subject = user_not_found

abbrev ann_eligible : Eligibility
ann_eligible = record { subject = "ann"; active = true }

-- A reader of literals.
abbrev read_literal : Text → Option (Text × Text)
read_literal [] = none
read_literal (x ∷ []) = if x == 34 then some ([], []) else none
read_literal (x ∷ y ∷ s) =
    let next = read_literal (y ∷ s) in
    let escaped = read_literal s in
    if x == 34
    then some ([], y ∷ s)
    else if x == 92
    then elim escaped [ none ↦ none | some (t, rest) ↦ some (y ∷ t, rest) ]
    else elim next [ none ↦ none | some (t, rest) ↦ some (x ∷ t, rest) ]

read_literal_ends : (rest : Text) → read_literal (34 ∷ rest) ≡ some ([], rest)
read_literal_ends [] = refl
read_literal_ends (y ∷ rest) = refl

read_literal_plain :
    (x : ℕ) (s t rest : Text)
    → (x == 34) ≡ false
    → (x == 92) ≡ false
    → read_literal s ≡ some (t, rest)
    → read_literal (x ∷ s) ≡ some (x ∷ t, rest)
read_literal_plain x [] t rest no_quote no_slash h = ground arith
read_literal_plain x (y ∷ s) t rest no_quote no_slash h = rw (no_quote, no_slash, h)

abbrev service : LiteralReader
service = record {
  read = read_literal;
  ends = read_literal_ends;
  escaped = λ y s t rest special h. rw h;
  plain = read_literal_plain;
}

filter_reads_back_example :
    (literal : Text) × (filter_of (97 ∷ 34 ∷ 92 ∷ 98 ∷ []) ≡ text_of "email = " ++ 34 ∷ literal)
    × (read_literal literal ≡ some (97 ∷ 34 ∷ 92 ∷ 98 ∷ [], []))
filter_reads_back_example = filter_reads_back service (97 ∷ 34 ∷ 92 ∷ 98 ∷ [])

abbrev as_is : String → String
as_is s = s

abbrev newcomer : SignupEvent
newcomer = record {
  admin_invite_only = false;
  allowed_email_domains = listed (text_of "b.c" ∷ []);
  has_rate_limit_table = true;
  sign_ups_per_window = some (some 3);
  trigger_source = self_sign_up;
  email = some "a@b.c";
  now_ms = 1000;
}

abbrev same_text : Text → Text
same_text t = t

abbrev no_rows : JsMap CounterRow
no_rows = []

abbrev signed_up : JsMap CounterRow × SignupResult
signed_up = handle_signup (map_table CounterRow) bucket_text same_text newcomer no_rows

handle_signup_guarded_example :
    ((response : SignupResponse)
      → signed_up.1 ≡ welcome response
      → (response.auto_confirm_user && response.auto_verify_email ≡ true)
        × (is_closed newcomer ≡ false)
        × (is_domain_allowed (map_table CounterRow) bucket_text same_text newcomer ≡ true)
        × (true ≡ true
            → ((used (map_get no_rows "signup") < 3) ⊎ (map_get no_rows "signup" ≡ none))
              × (used (map_get signed_up.0 "signup") ≡ used (map_get no_rows "signup") + 1)))
    × ((why : Rejection) (k : String)
        → signed_up.1 ≡ signup_not_allowed why
        → map_get signed_up.0 k ≡ map_get no_rows k)
unfolding limit_per_window
handle_signup_guarded_example =
    handle_signup_guarded (map_table CounterRow) bucket_text same_text newcomer no_rows
