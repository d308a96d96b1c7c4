-- ===== src/SignIn/Bounce.antt =====
-- packages/vestibulum/src/lambda/handlers/bounce-handler/index.ts: the addresses that mail is not sent to any
-- more. Metrics and log lines are left out. A reader of the notifications, the hash of an address and
-- the failures of the two services are arguments.
pub mod Marks
pub mod Covers
mod Tests
use saas_foundation.Prelude.{
  ℕ, ◌+◌, ◌*◌, ◌/◌, String, Bool, true, false, not, ◌||◌, Option, none, some, List, [], ◌∷◌,
  if◌then◌else◌, first_of_two, str_eq, JsMap, get, set,
}

pub data SesNotificationType : Type 0 where
  bounced complained delivered : SesNotificationType

pub data BounceType : Type 0 where
  permanent transient undetermined : BounceType

pub record SesBounce : Type 0 where
  pub bounce_type : BounceType
  pub bounced_recipients : List String

pub record SesNotification : Type 0 where
  pub notification_type : Option SesNotificationType
  pub event_type : Option SesNotificationType
  pub bounce : Option SesBounce
  pub complained_recipients : Option (List String)

-- The user pool, with the mark of quarantine of each user, and the denylist, with the time to live
-- of each hash.
pub record Quarantine : Type 0 where
  pub users : JsMap Bool
  pub denylist : JsMap ℕ

-- What the services refuse, other than for a user that is not there.
pub record Failures : Type 0 where
  pub update_fails : String → Bool
  pub put_fails : String → Bool

-- `hmac_secret` is none where its resolution throws.
pub record Environment : Type 0 where
  pub user_pool_id : Option String
  pub denylist_table_name : Option String
  pub hmac_secret : Option String

-- The state that a step leaves, and whether it has thrown.
abbrev pub Step : Type 0
Step = Quarantine × Bool

-- A year from the clock's reading in milliseconds
unfoldable pub ttl_from : ℕ → ℕ
ttl_from now_ms = now_ms / 1000 + 365 * 24 * 3600

unfoldable pub put_denylist : Failures → ℕ → String → Quarantine → Step
unfolding ttl_from
put_denylist f now_ms email_hash w =
    if f.put_fails email_hash
    then (w, true)
    else (record { users = w.users; denylist = set w.denylist email_hash (ttl_from now_ms) }, false)

unfoldable pub quarantine_email : Failures → ℕ → String → String → Quarantine → Step
unfolding put_denylist
quarantine_email f now_ms email email_hash w =
    if f.update_fails email then (w, true) else elim (get w.users email) [
      | none ↦ put_denylist f now_ms email_hash w
      | some mark ↦ (record { users = set w.users email true; denylist = w.denylist }, false)
    ]

-- A variable of the environment is missing.
abbrev pub is_unset : Option String → Bool
is_unset none = true
is_unset (some s) = str_eq s ""

module _ (hmac_email : String → String → String) (f : Failures) (now_ms : ℕ) where
  -- The loop over the recipients, which an exception ends.
  unfoldable pub quarantine_all : String → List String → Quarantine → Step
  unfolding quarantine_email
  quarantine_all hmac_secret [] w = (w, false)
  quarantine_all hmac_secret (email ∷ recipients) w =
      let (after, threw) = quarantine_email f now_ms email (hmac_email email hmac_secret) w in
      let rest = quarantine_all hmac_secret recipients after in
      if threw then (after, true) else rest

  unfoldable pub process_bounce : String → Option SesBounce → Quarantine → Step
  unfolding quarantine_all
  process_bounce hmac_secret none w = (w, false)
  process_bounce hmac_secret (some b) w = elim b.bounce_type [
    | permanent ↦ quarantine_all hmac_secret b.bounced_recipients w
    | transient ↦ (w, false)
    | undetermined ↦ (w, false)
  ]

  unfoldable pub process_complaint : String → Option (List String) → Quarantine → Step
  unfolding quarantine_all
  process_complaint hmac_secret none w = (w, false)
  process_complaint hmac_secret (some recipients) w = quarantine_all hmac_secret recipients w

  unfoldable pub process : String → SesNotification → Quarantine → Step
  unfolding process_bounce process_complaint
  process hmac_secret n w = elim (first_of_two n.notification_type n.event_type) [
    | none ↦ (w, false)
    | some bounced ↦ process_bounce hmac_secret n.bounce w
    | some complained ↦ process_complaint hmac_secret n.complained_recipients w
    | some delivered ↦ (w, false)
  ]

  module _ (parse : String → Option SesNotification) where
    unfoldable pub process_record : String → String → Quarantine → Step
    unfolding process
    process_record hmac_secret message w = elim (parse message) [
      | none ↦ (w, true)
      | some n ↦ process hmac_secret n w
    ]

    -- Every record is processed, and whether one has thrown is kept.
    unfoldable pub process_records : String → List String → Quarantine → Step
    unfolding process_record
    process_records hmac_secret [] w = (w, false)
    process_records hmac_secret (message ∷ messages) w =
        let (after, threw) = process_record hmac_secret message w in
        let (last, others) = process_records hmac_secret messages after in (last, threw || others)

    unfoldable pub handler : Environment → List String → Quarantine → Step
    unfolding process_records
    handler env messages w = elim env.hmac_secret [
      | none ↦ (w, true)
      | some secret ↦
          if is_unset env.user_pool_id || is_unset env.denylist_table_name || str_eq secret ""
          then (w, true)
          else process_records secret messages w
    ]
