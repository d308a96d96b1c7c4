-- ===== src/SignIn/Signout/Tests.antt =====
-- The sign-out at a concrete input.
use saas_foundation.Prelude.{
  ℕ, ◌≡◌, ◌≢◌, refl, sym, ◌∙◌, Bool, false, Option, none, some, [], ◌∷◌, same_numbers,
  if◌then◌else◌,
}
use saas_foundation.Text.{Text, text_of, starts_with, is_space}
use saas_foundation.SignIn.Values.{parse_refresh_token_validity_seconds}
use saas_foundation.SignIn.Signout.{SignoutEvent, SignoutEnvironment, handler}
use saas_foundation.SignIn.Signout.Revokes.{Guarded, SignsOut, handler_revokes}

abbrev same_case : Text → Text
same_case s = s

abbrev verify : Text → ℕ → Option Text
verify token grace = if same_numbers token (text_of "tok") then some (text_of "ann") else none

abbrev never : Text → Bool
never user = false

abbrev env : SignoutEnvironment
env = record {
  domain = some (text_of "app.example");
  user_pool_id = some (text_of "pool");
  client_id = some (text_of "client");
  refresh_token_validity_seconds = none;
}

abbrev event : SignoutEvent
event = record {
  method = some (text_of "POST");
  origin = some (text_of "https://app.example");
  content_type = some (text_of "application/json");
  cookie_header = some (text_of "a=b; id-token=tok");
  cookies = [];
}

signs_ann_out : (handler same_case verify never env event []).0 ≡ text_of "ann" ∷ []
unfolding handler same_numbers starts_with is_space parse_refresh_token_validity_seconds
signs_ann_out = refl

ann_is_new : (handler same_case verify never env event []).0 ≢ []
ann_is_new h = let one : text_of "ann" ∷ [] ≡ [] = sym signs_ann_out ∙ h in absurd (cc one)

handler_revokes_example :
    (domain : Text) × Guarded same_case verify never env event domain
    × SignsOut same_case verify never env event [] (handler same_case verify never env event []).0
handler_revokes_example = handler_revokes same_case verify never env event [] ann_is_new
