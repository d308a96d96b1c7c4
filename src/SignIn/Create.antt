-- ===== src/SignIn/Create.antt =====
-- packages/vestibulum/src/lambda/handlers/create-auth-challenge/index.ts (with `isDenylisted` of
-- quarantine-check.ts): a challenge is issued and mailed, or one is made that nobody can answer.
pub mod Laws
use saas_foundation.Prelude.{
  ◌+◌, ◌*◌, ◌/◌, String, Bool, true, false, not, ◌&&◌, Option, none, some, List, ◌∷◌, str_eq,
  if◌then◌else◌, or_else, is_some,
}
use saas_foundation.SignIn.Decision.{
  CreateEvent, CreateEnv, CreateDeps, SuppressionReason, Mail, CreateResponse, Config, bind,
  configure, ask, decide, usable_key, quarantined,
}
use saas_foundation.Table.{Table}
use saas_foundation.SignIn.Counters.{
  CounterRow, Bucket, try_consume_rate_limit, try_consume_daily_cap, rate_limit_window_ms,
}
use saas_foundation.SignIn.Verify.{TokenRow, required_env}

module _ (C : Table CounterRow) (T : Table TokenRow) where
  -- The two tables that the trigger writes, and the mails that have gone out, the last one first.
  pub record World : Type 0 where
    pub counters : C.State
    pub tokens : T.State
    pub mails : List Mail

module _ (C : Table CounterRow) where
  -- A counter under a settled read: `none` where the key is missing or the service fails, and
  -- then nothing is counted.
  unfoldable pub settle_cap :
      Option String → Bool → (String → C.State → C.State × Bool) → C.State → C.State × Option Bool
  settle_cap none up count s = (s, none)
  settle_cap (some key) false count s = (s, none)
  settle_cap (some key) true count s = let (s', passed) = count key s in (s', some passed)

-- `normalize` is `normalizeEmail`; the others are the hashes of the crypto library, and
-- `bucket_key` takes the secret first.
module _ (normalize : String → Option String) (sha256_hex : String → String)
    (hmac_email : String → String → String) (bucket_key : String → Bucket → String) where
  unfoldable pub address_of : CreateEvent → Option String
  address_of e = elim e.email [
    | none ↦ none
    | some raw ↦ if str_eq raw "" then none else normalize raw
  ]

  -- `isDenylisted`: an unset or empty table name is an error.
  unfoldable pub is_denylisted : CreateEnv → CreateDeps → String → String → Option Bool
  is_denylisted env d address key =
      if required_env env.denylist_table then d.denylist_item (hmac_email address key) else none

  unfoldable pub unanswerable : CreateDeps → String → CreateResponse
  unanswerable d email = record {
    public_challenge = "MAGIC_LINK";
    params = record {
      email = some email;
      token_hash = some (sha256_hex d.decoy);
      code_hash = some (sha256_hex d.code);
      quarantined = some "true";
    };
    metadata = "MAGIC_LINK";
  }

  unfoldable pub answerable : CreateDeps → String → CreateResponse
  answerable d email = record {
    public_challenge = "MAGIC_LINK";
    params = record {
      email = some email;
      token_hash = some (sha256_hex d.token);
      code_hash = some (sha256_hex d.code);
      quarantined = some "false";
    };
    metadata = "MAGIC_LINK";
  }

  unfoldable pub token_row : CreateDeps → Config → String → String → TokenRow
  token_row d c email key = record {
    code_hash = some (sha256_hex d.code);
    email_hmac = some (hmac_email email key);
    expires_at = some (d.now_ms / 1000 + c.ttl * 60);
  }

  module _ (C : Table CounterRow) (T : Table TokenRow) where
    unfoldable pub count_window : Config → CreateDeps → String → String → C.State → C.State × Bool
    count_window c d subject key s =
        try_consume_rate_limit C (bucket_key key) subject (or_else c.per_window 0) d.now_ms
          rate_limit_window_ms s

    unfoldable pub count_day : Config → CreateDeps → String → String → C.State → C.State × Bool
    count_day c d subject key s =
        try_consume_daily_cap C (bucket_key key) subject c.per_day d.now_ms s

    -- A window limit that is no number is refused by the service.
    unfoldable pub cap_up : Config → CreateDeps → Bool
    cap_up c d = d.cap_ok && is_some c.per_window

    -- The row is stored, if no row has its key; the mail goes out after that.
    unfoldable pub store_and_send :
        Config → CreateDeps → String → String → World C T → CreateResponse × World C T
    unfolding unanswerable answerable token_row
    store_and_send c d email key w =
        let (tokens, stored) =
          T.write (sha256_hex d.token) (λ r. not (is_some r)) (λ r. some (token_row d c email key))
            w.tokens in
        if not d.store_ok
        then (unanswerable d email, w)
        else if not stored
        then (unanswerable d email, record w { tokens = tokens })
        else if not d.send_ok
        then (unanswerable d email, record w { tokens = tokens })
        else (
          answerable d email,
          record w {
            tokens = tokens;
            mails =
                record {
                  to = email;
                  token = d.token;
                  code = d.code;
                  domain = c.domain;
                  ttl_minutes = c.ttl;
                }
                ∷ w.mails;
          },
        )

    -- `reason !== undefined || email === undefined || !hmacKey.ok`
    unfoldable pub finish :
        Config
        → CreateDeps
        → CreateEvent
        → Option String
        → Option String
        → Option SuppressionReason
        → World C T
        → CreateResponse × World C T
    finish c d e (some email) (some key) none w = store_and_send c d email key w
    finish c d e email key reason w = (unanswerable d (or_else email e.user_name), w)

    -- `issue`, once the environment is checked, with the address and the key that it works out.
    unfoldable pub issue_at :
        Config
        → CreateEnv
        → CreateDeps
        → CreateEvent
        → Option String
        → Option String
        → World C T
        → CreateResponse × World C T
    issue_at c env d e email key w =
        let subject = or_else email e.user_name in
        let listed = bind key (is_denylisted env d subject) in
        let (counters1, cap) =
          settle_cap C key (cap_up c d) (count_window c d subject) w.counters in
        let (counters2, day) = settle_cap C key d.day_ok (count_day c d subject) counters1 in
        finish c d e email key
          (decide email (ask c.mode d.allow_list) e.email_quarantined key listed cap day)
          (record w { counters = counters2 })

    unfoldable pub issue_with :
        Config → CreateEnv → CreateDeps → CreateEvent → World C T → CreateResponse × World C T
    issue_with c env d e w = issue_at c env d e (address_of e) (usable_key d.hmac_key) w

    unfoldable pub issue :
        CreateEnv → CreateDeps → CreateEvent → World C T → Option CreateResponse × World C T
    unfolding configure
    issue env d e w = elim (configure env) [
      | none ↦ (none, w)
      | some c ↦ let (r, w') = issue_with c env d e w in (some r, w')
    ]
