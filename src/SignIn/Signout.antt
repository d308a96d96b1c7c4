-- ===== src/SignIn/Signout.antt =====
-- packages/vestibulum/src/lambda/handlers/auth-signout/index.ts, with `readCookie` of shared/signin.ts. The
-- verifier of a token and the failures of the user pool are arguments; the pool's state is the list of
-- the users that were signed out, the latest first. A cookie that is set is its name, value and
-- attributes, always `HttpOnly` and `Secure`. Metrics and log lines are left out.
pub mod Revokes
mod Tests
use saas_foundation.Prelude.{
  ℕ, String, Bool, true, false, not, ◌||◌, Option, none, some, List, [], ◌∷◌, ◌++◌, ◌==◌, length,
  same_numbers, if◌then◌else◌, or_else,
}
use saas_foundation.Text.{Text, text_of, split, cut, trim, starts_with}
use saas_foundation.SignIn.Values.{parse_refresh_token_validity_seconds}

unfoldable pub find_cookie : Text → List Text → Option Text
unfolding cut trim
find_cookie name [] = none
find_cookie name (pair ∷ pairs) =
    let rest = find_cookie name pairs in
    elim (cut b'=' pair) [
      | none ↦ rest
      | some (key, value) ↦
          if same_numbers (trim key) name
          then (if length (trim value) == 0 then none else some (trim value))
          else rest
    ]

-- The pairs of the header `cookie`
unfoldable pub header_pairs : Option Text → List Text
unfolding split
header_pairs none = []
header_pairs (some header) = if length header == 0 then [] else split b';' header

unfoldable pub read_cookie : List Text → Option Text → Text → Option Text
unfolding find_cookie header_pairs
read_cookie cookies header name = find_cookie name (cookies ++ header_pairs header)

pub record SignoutEvent : Type 0 where
  pub method : Option Text
  pub origin : Option Text
  pub content_type : Option Text
  pub cookie_header : Option Text
  pub cookies : List Text

pub record SignoutEnvironment : Type 0 where
  pub domain : Option Text
  pub user_pool_id : Option Text
  pub client_id : Option Text
  pub refresh_token_validity_seconds : Option String

pub data SameSite : Type 0 where
  lax strict : SameSite

pub record SetCookie : Type 0 where
  pub name : Text
  pub value : Text
  pub max_age : ℕ
  pub path : Text
  pub domain : Text
  pub same_site : SameSite

pub record SignoutResult : Type 0 where
  pub status_code : ℕ
  pub set_cookies : List SetCookie

pub data RevocationOutcome : Type 0 where
  revoked no_id_token unverified error : RevocationOutcome

abbrev pub id_token_cookie_name : Text
id_token_cookie_name = text_of "id-token"

abbrev pub refresh_token_cookie_name : Text
refresh_token_cookie_name = text_of "refresh-token"

abbrev pub clear_cookies : Text → List SetCookie
clear_cookies domain =
    record {
      name = id_token_cookie_name;
      value = [];
      max_age = 0;
      path = text_of "/";
      domain = domain;
      same_site = lax;
    }
    ∷ record {
      name = refresh_token_cookie_name;
      value = [];
      max_age = 0;
      path = text_of "/auth-verify";
      domain = domain;
      same_site = strict;
    }
    ∷ []

-- `undefined` or empty
abbrev pub is_missing : Option Text → Bool
is_missing none = true
is_missing (some s) = length s == 0

abbrev pub is_text : Option Text → Text → Bool
is_text none t = false
is_text (some s) t = same_numbers s t

-- `verify` gives the user of a token that is valid but for an expiry as many seconds ago as given.
module _ (to_lower : Text → Text) (verify : Text → ℕ → Option Text)
    (sign_out_fails : Text → Bool) where
  unfoldable pub revoke_user : Text → List Text → List Text × RevocationOutcome
  revoke_user username signed_out =
      if sign_out_fails username then (signed_out, error) else (username ∷ signed_out, revoked)

  unfoldable pub revoke_token :
      SignoutEnvironment → Text → List Text → List Text × RevocationOutcome
  unfolding revoke_user
  revoke_token env token signed_out =
      elim (parse_refresh_token_validity_seconds env.refresh_token_validity_seconds) [
        | none ↦ (signed_out, error)
        | some grace ↦ elim (verify token grace) [
          | none ↦ (signed_out, unverified)
          | some username ↦ revoke_user username signed_out
        ]
      ]

  unfoldable pub revoke :
      SignoutEnvironment → SignoutEvent → List Text → List Text × RevocationOutcome
  unfolding read_cookie revoke_token
  revoke env e signed_out = elim (read_cookie e.cookies e.cookie_header id_token_cookie_name) [
    | none ↦ (signed_out, no_id_token)
    | some token ↦ revoke_token env token signed_out
  ]

  -- From the second step on.
  unfoldable pub sign_out :
      SignoutEnvironment → Text → SignoutEvent → List Text → List Text × SignoutResult
  unfolding revoke
  sign_out env domain e signed_out =
      let after : List Text =
        if is_missing env.user_pool_id || is_missing env.client_id
        then signed_out
        else (revoke env e signed_out).0 in
      (after, record { status_code = 200; set_cookies = clear_cookies domain })

  abbrev pub refused : ℕ → SignoutResult
  refused status = record { status_code = status; set_cookies = [] }

  unfoldable pub handler : SignoutEnvironment → SignoutEvent → List Text → List Text × SignoutResult
  unfolding sign_out starts_with
  handler env e signed_out = elim env.domain [
    | none ↦ (signed_out, refused 500)
    | some domain ↦
        if length domain == 0
        then (signed_out, refused 500)
        else if not (is_text e.method (text_of "POST"))
        then (signed_out, refused 405)
        else if not (is_text e.origin (text_of "https://" ++ domain))
        then (signed_out, refused 403)
        else if not
            (starts_with (text_of "application/json") (to_lower (or_else e.content_type [])))
        then (signed_out, refused 415)
        else sign_out env domain e signed_out
  ]
