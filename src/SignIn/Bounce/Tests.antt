-- ===== src/SignIn/Bounce/Tests.antt =====
-- The handler of bounces at a concrete input.
use saas_foundation.Prelude.{
  refl, String, false, Option, none, some, [], ◌∷◌, if◌then◌else◌, str_eq, All, get, set,
}
use saas_foundation.SignIn.Bounce.{
  bounced, permanent, SesNotification, Quarantine, Failures, Environment, handler,
}
use saas_foundation.SignIn.Bounce.Marks.{Covered}
use saas_foundation.SignIn.Bounce.Covers.{due, handler_covers}

abbrev notification : SesNotification
notification = record {
  notification_type = none;
  event_type = some bounced;
  bounce = some (record {
    bounce_type = permanent;
    bounced_recipients = "ann@example.org" ∷ "bob@example.org" ∷ [];
  });
  complained_recipients = none;
}

abbrev parse : String → Option SesNotification
parse message = if str_eq message "bounce" then some notification else none

abbrev join : String → String → String
join email secret = email

abbrev all_up : Failures
all_up = record { update_fails = λ _. false; put_fails = λ _. false }

abbrev env : Environment
env = record {
  user_pool_id = some "pool";
  denylist_table_name = some "denied";
  hmac_secret = some "key";
}

-- One of the two is a user.
abbrev before : Quarantine
before = record { users = ("ann@example.org", false) ∷ []; denylist = [] }

handler_covers_example :
    All
      (Covered
        (λ email. join email "key")
        (handler join all_up 1000 parse env ("bounce" ∷ []) before).0)
      (due parse ("bounce" ∷ []))
unfolding handler get set
handler_covers_example =
    handler_covers join all_up 1000 parse env ("bounce" ∷ []) before "key" refl refl
