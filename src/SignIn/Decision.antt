-- ===== src/SignIn/Decision.antt =====
-- packages/vestibulum/src/lambda/handlers/create-auth-challenge/index.ts, up to its writes: the
-- checked environment, and the decision whether to mail.
use saas_foundation.Prelude.{
  ℕ, String, Bool, true, false, ◌&&◌, Option, none, some, str_eq, ltb, if◌then◌else◌, or_else,
  parse_digits,
}
use saas_foundation.SignIn.Values.{
  Enrollment, admin_only, self_signup, parse_enrollment, parse_token_ttl_minutes,
}
use saas_foundation.SignIn.AllowList.{Answer, value, unavailable, eligible, Eligibility}
use saas_foundation.SignIn.Counters.{default_sends_per_day, default_sends_per_window}
use saas_foundation.SignIn.Verify.{Params, required_env}

-- The user's attributes `email` and `custom:email_quarantined` are `none` where they are absent.
pub record CreateEvent : Type 0 where
  pub user_name : String
  pub email : Option String
  pub email_quarantined : Option String

-- The environment. `sends_per_window` is what `parseInt` makes of its variable: `none` within is
-- no number, which the table service refuses.
pub record CreateEnv : Type 0 where
  pub token_table : Option String
  pub rate_limit_table : Option String
  pub denylist_table : Option String
  pub from_address : Option String
  pub domain : Option String
  pub ttl_minutes : Option String
  pub enrollment : Option String
  pub sends_per_window : Option (Option ℕ)
  pub sends_per_day : Option String

-- The values drawn for this request, the clock, and what the dependencies answer: `none` and
-- `false` are failures. `denylist_item` reads the denylist at a hashed address.
pub record CreateDeps : Type 0 where
  pub now_ms : ℕ
  pub token : String
  pub code : String
  pub decoy : String
  pub hmac_key : Option String
  pub denylist_item : String → Option Bool
  pub cap_ok : Bool
  pub day_ok : Bool
  pub allow_list : Option Answer
  pub store_ok : Bool
  pub send_ok : Bool

pub data SuppressionReason : Type 0 where
  unknown_user ineligible allow_list_down quarantined denylisted denylist_down : SuppressionReason
  rate_limited daily_cap dependency_error : SuppressionReason

pub record Mail : Type 0 where
  pub to : String
  pub token : String
  pub code : String
  pub domain : String
  pub ttl_minutes : ℕ

pub record CreateResponse : Type 0 where
  pub public_challenge : String
  pub params : Params
  pub metadata : String

-- The checked environment.
pub record Config : Type 0 where
  pub domain : String
  pub ttl : ℕ
  pub mode : Enrollment
  pub per_window : Option ℕ
  pub per_day : ℕ

abbrev pub bind : {A B : Type 0} → Option A → (A → Option B) → Option B
bind none f = none
bind (some a) f = f a

-- `rawPerDay` unset or empty is the default, no run of digits is 0, and 0 is refused.
unfoldable pub parse_per_day : Option String → Option ℕ
parse_per_day none = some default_sends_per_day
parse_per_day (some raw) =
    if str_eq raw ""
    then some default_sends_per_day
    else elim (parse_digits raw) [ none ↦ none | some n ↦ if ltb n 1 then none else some n ]

-- `none` is the thrown generic error, the same for every caller.
unfoldable pub configure : CreateEnv → Option Config
unfolding parse_per_day
configure env =
    if required_env env.token_table
      && required_env env.rate_limit_table
      && required_env env.from_address
      && required_env env.domain
    then bind (parse_token_ttl_minutes env.ttl_minutes) (λ ttl.
      bind (parse_enrollment env.enrollment) (λ mode.
        bind (parse_per_day env.sends_per_day) (λ per_day. some (record {
          domain = or_else env.domain "";
          ttl = ttl;
          mode = mode;
          per_window = or_else env.sends_per_window (some default_sends_per_window);
          per_day = per_day;
        }))))
    else none

-- What is known of the subject: nothing is asked in self-signup mode.
pub data Asked : Type 0 where
  unasked down : Asked
  told : Option Eligibility → Asked

unfoldable pub ask : Enrollment → Option Answer → Asked
ask self_signup answer = unasked
ask admin_only none = down
ask admin_only (some unavailable) = down
ask admin_only (some (value who)) = told who

-- The order of the tests when the allow-list has nothing against the subject; the values of the
-- settled reads are `none` where the read failed.
unfoldable pub decide_rest :
    Option String
    → Option String
    → Option Bool
    → Option Bool
    → Option Bool
    → Option SuppressionReason
decide_rest mark key listed cap day =
    if elim mark [ none ↦ false | some m ↦ str_eq m "true" ] then some quarantined else elim key [
      | none ↦ some dependency_error
      | some _ ↦ elim listed [
        | none ↦ some denylist_down
        | some true ↦ some denylisted
        | some false ↦ elim cap [
          | none ↦ some dependency_error
          | some false ↦ some rate_limited
          | some true ↦ elim day [
            | none ↦ some dependency_error
            | some false ↦ some daily_cap
            | some true ↦ none
          ]
        ]
      ]
    ]

unfoldable pub decide :
    Option String
    → Asked
    → Option String
    → Option String
    → Option Bool
    → Option Bool
    → Option Bool
    → Option SuppressionReason
unfolding decide_rest
decide none asked mark key listed cap day = some unknown_user
decide (some email) down mark key listed cap day = some allow_list_down
decide (some email) (told none) mark key listed cap day = some unknown_user
decide (some email) (told (some who)) mark key listed cap day =
    if eligible (some who) then decide_rest mark key listed cap day else some ineligible
decide (some email) unasked mark key listed cap day = decide_rest mark key listed cap day

-- An empty key is no key.
unfoldable pub usable_key : Option String → Option String
usable_key none = none
usable_key (some key) = if str_eq key "" then none else some key
