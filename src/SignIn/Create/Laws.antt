-- ===== src/SignIn/Create/Laws.antt =====
-- To whom a link is mailed, and that a challenge can be answered only if it was mailed.
use saas_foundation.Prelude.{
  String, ◌≡◌, refl, sym, ap, ◌∙◌, ◌≢◌, ◌⊎◌, inl, inr, Bool, true, false, not, Option, none, some,
  ◌∷◌, arith, if◌then◌else◌, Bool-cases, or_else, is_some,
}
use mathlib.Core.Path.{subst₂}
use saas_foundation.SignIn.AllowList.{eligible}
use saas_foundation.Table.{Table}
use saas_foundation.SignIn.Counters.{CounterRow, Bucket}
use saas_foundation.SignIn.Verify.{TokenRow}
use saas_foundation.SignIn.Decision.{
  CreateEvent, CreateEnv, CreateDeps, SuppressionReason, CreateResponse, Config, Asked, unasked,
  down, told, ask, decide_rest, decide, usable_key, configure,
}
use saas_foundation.SignIn.Create.{
  World, address_of, is_denylisted, unanswerable, answerable, token_row, settle_cap, count_window,
  count_day, cap_up, store_and_send, finish, issue_at, issue_with, issue,
}

-- The subject may sign in, as far as the allow-list was asked.
abbrev pub Cleared : Asked → Type 0
Cleared unasked = Unit
Cleared down = ⊥
Cleared (told who) = eligible who ≡ true

decide_rest-eq-none :
    (mark key : Option String) (listed cap day : Option Bool)
    → decide_rest mark key listed cap day ≡ none
    → (mark ≢ some "true") × (listed ≡ some false) × (cap ≡ some true) × (day ≡ some true)
unfolding decide_rest
decide_rest-eq-none mark key listed cap day h =
    ((λ e. cc (e, h)), ground arith, ground arith, ground arith)

pub decide-eq-none :
    (email : Option String) (asked : Asked) (mark key : Option String)
    (listed cap day : Option Bool)
    → decide email asked mark key listed cap day ≡ none
    → Cleared asked
      × (mark ≢ some "true")
      × (listed ≡ some false)
      × (cap ≡ some true)
      × (day ≡ some true)
unfolding decide
decide-eq-none none asked mark key listed cap day h = cc
decide-eq-none (some email) down mark key listed cap day h = cc
decide-eq-none (some email) (told none) mark key listed cap day h = cc
decide-eq-none (some email) (told (some who)) mark key listed cap day h =
    let rest = decide_rest-eq-none mark key listed cap day (ground arith) in
    (ground arith, rest.0, rest.1, rest.2, rest.3)
decide-eq-none (some email) unasked mark key listed cap day h =
    let rest = decide_rest-eq-none mark key listed cap day h in (tt, rest.0, rest.1, rest.2, rest.3)

module _ (normalize : String → Option String) (sha256_hex : String → String)
    (hmac_email : String → String → String) (bucket_key : String → Bucket → String)
    (C : Table CounterRow) (T : Table TokenRow) (c : Config) (d : CreateDeps) where
  -- No mail went out, and nobody can answer the challenge.
  pub record Silent (before after : World C T) (r : CreateResponse) : Type 0 where
    pub no_mail : after.mails ≡ before.mails
    pub marked : r.params.quarantined ≡ some "true"

  -- The mail that went out, and what is left of it: the row under the token's hash, and the hashes
  -- in the session's parameters.
  pub record Mailed (email key : String) (before after : World C T) (r : CreateResponse)
      : Type 0 where
    pub one_mail :
        after.mails
        ≡ record {
          to = email;
          token = d.token;
          code = d.code;
          domain = c.domain;
          ttl_minutes = c.ttl;
        }
          ∷ before.mails
    pub answer : r ≡ answerable normalize sha256_hex hmac_email bucket_key d email
    pub stored :
        T.item after.tokens (sha256_hex d.token)
        ≡ some (token_row normalize sha256_hex hmac_email bucket_key d c email key)
    pub fresh : T.item before.tokens (sha256_hex d.token) ≡ none

  store_and_send_cases :
      (email key : String) (w : World C T)
      → let r = store_and_send normalize sha256_hex hmac_email bucket_key C T c d email key w in
        Silent w r.1 r.0 ⊎ Mailed email key w r.1 r.0
  unfolding store_and_send
  store_and_send_cases email key w = elim (Bool-cases d.store_ok) [
    | inr refused ↦ inl (record { no_mail = ground arith; marked = ground arith })
    | inl store_ok ↦ elim (Bool-cases put.1) [
      | inr taken ↦ inl (record { no_mail = ground arith; marked = ground arith })
      | inl stored ↦ elim (Bool-cases d.send_ok) [
        | inr unsent ↦ inl (record { no_mail = ground arith; marked = ground arith })
        | inl sent ↦ inr (record {
          one_mail = ground arith;
          answer = ground arith;
          stored = ground (arith, result, left);
          fresh = ground (arith, result);
        })
      ]
    ]
  ]
    where
      row : TokenRow
      row = token_row normalize sha256_hex hmac_email bucket_key d c email key

      put : T.State × Bool
      put = T.write (sha256_hex d.token) (λ r. not (is_some r)) (λ r. some row) w.tokens

      result : put.1 ≡ not (is_some (T.item w.tokens (sha256_hex d.token)))
      result = T.write_result (sha256_hex d.token) (λ r. not (is_some r)) (λ r. some row) w.tokens

      left : T.item put.0 (sha256_hex d.token) ≡ (
          if not (is_some (T.item w.tokens (sha256_hex d.token)))
          then some row
          else T.item w.tokens (sha256_hex d.token))
      left = T.write_item (sha256_hex d.token) (λ r. not (is_some r)) (λ r. some row) w.tokens

  finish_cases :
      (e : CreateEvent) (a k : String) (reason : Option SuppressionReason) (w : World C T)
      → let r =
          finish normalize sha256_hex hmac_email bucket_key C T c d e (some a) (some k) reason w in
        Silent w r.1 r.0 ⊎ ((reason ≡ none) × Mailed a k w r.1 r.0)
  unfolding finish unanswerable
  finish_cases e a k none w = elim (store_and_send_cases a k w) [
    | inl silent ↦ inl silent
    | inr mailed ↦ inr (refl, mailed)
  ]
  finish_cases e a k (some reason) w = inl (record { no_mail = refl; marked = refl })

  -- The conditions under which the address `a` is mailed, with the key `k` for all hashes.
  pub record Permitted (env : CreateEnv) (e : CreateEvent) (w : World C T) (a k : String)
      : Type 0 where
    pub addressed : address_of normalize sha256_hex hmac_email bucket_key e ≡ some a
    pub keyed : usable_key d.hmac_key ≡ some k
    pub cleared : Cleared (ask c.mode d.allow_list)
    pub unmarked : e.email_quarantined ≢ some "true"
    pub unlisted : is_denylisted normalize sha256_hex hmac_email bucket_key env d a k ≡ some false
    pub in_window :
        (count_window normalize sha256_hex hmac_email bucket_key C T c d a k w.counters).1 ≡ true
    pub in_day :
        (count_day normalize sha256_hex hmac_email bucket_key C T c d a k
          (count_window normalize sha256_hex hmac_email bucket_key C T c d a k w.counters).0).1
        ≡ true

settle_cap_passed :
    (C : Table CounterRow) (k : String) (up : Bool) (count : String → C.State → C.State × Bool)
    (s : C.State)
    → (settle_cap C (some k) up count s).1 ≡ some true
    → ((settle_cap C (some k) up count s).0 ≡ (count k s).0) × ((count k s).1 ≡ true)
unfolding settle_cap
settle_cap_passed C k true count s h = (refl, ground arith)
settle_cap_passed C k false count s h = cc

module _ (normalize : String → Option String) (sha256_hex : String → String)
    (hmac_email : String → String → String) (bucket_key : String → Bucket → String)
    (C : Table CounterRow) (T : Table TokenRow) where
  issue_at_cases :
      (c : Config) (env : CreateEnv) (d : CreateDeps) (e : CreateEvent) (w : World C T)
      (email key : Option String)
      → address_of normalize sha256_hex hmac_email bucket_key e ≡ email
      → usable_key d.hmac_key ≡ key
      → let r = issue_at normalize sha256_hex hmac_email bucket_key C T c env d e email key w in
        Silent normalize sha256_hex hmac_email bucket_key C T c d w r.1 r.0
        ⊎ ((a : String) × (k : String) × Mailed normalize sha256_hex hmac_email bucket_key C T c d a
              k w r.1 r.0
            × Permitted normalize sha256_hex hmac_email bucket_key C T c d env e w a k)
  unfolding issue_at finish unanswerable
  issue_at_cases c env d e w none key ea ek = inl (record { no_mail = refl; marked = refl })
  issue_at_cases c env d e w (some a) none ea ek = inl (record { no_mail = refl; marked = refl })
  issue_at_cases c env d e w (some a) (some k) ea ek =
      elim (finish_cases normalize sha256_hex hmac_email bucket_key C T c d e a k reason w2) [
        | inl silent ↦ inl (record { no_mail = silent.no_mail; marked = silent.marked })
        | inr (decided, mailed) ↦
            let (cleared, unmarked, unlisted, cap, day) =
              decide-eq-none (some a) (ask c.mode d.allow_list) e.email_quarantined (some k) listed
                first.1 second.1 decided in
            let (left, in_window) =
              settle_cap_passed C k (cap_up normalize sha256_hex hmac_email bucket_key C T c d)
                window_at w.counters cap in
            let (_, in_day) = settle_cap_passed C k d.day_ok day_at first.0 day in
            inr (
              a,
              k,
              record {
                one_mail = mailed.one_mail;
                answer = mailed.answer;
                stored = mailed.stored;
                fresh = mailed.fresh;
              },
              record {
                addressed = ea;
                keyed = ek;
                cleared = cleared;
                unmarked = unmarked;
                unlisted = unlisted;
                in_window = in_window;
                in_day = ap (λ s. (day_at k s).1) (sym left) ∙ in_day;
              },
            )
      ]
    where
      window_at : String → C.State → C.State × Bool
      window_at = count_window normalize sha256_hex hmac_email bucket_key C T c d a

      day_at : String → C.State → C.State × Bool
      day_at = count_day normalize sha256_hex hmac_email bucket_key C T c d a

      listed : Option Bool
      listed = is_denylisted normalize sha256_hex hmac_email bucket_key env d a k

      first : C.State × Option Bool
      first =
          settle_cap C (some k) (cap_up normalize sha256_hex hmac_email bucket_key C T c d)
            window_at w.counters

      second : C.State × Option Bool
      second = settle_cap C (some k) d.day_ok day_at first.0

      w2 : World C T
      w2 = record w { counters = second.0 }

      reason : Option SuppressionReason
      reason =
          decide (some a) (ask c.mode d.allow_list) e.email_quarantined (some k) listed first.1
            second.1

  -- A request whose environment is sound either mails nothing and makes a challenge that is marked
  -- as unanswerable, or mails one link and its code to the normalised address, stores their hashes
  -- in a new row and hands them to the session. It mails only if the allow-list, where there is
  -- one, has the subject as active, the address is neither quarantined nor denylisted, and both
  -- counters let it through.
  pub issue_guarded :
      (c : Config) (env : CreateEnv) (d : CreateDeps) (e : CreateEvent) (w w' : World C T)
      (r : CreateResponse)
      → configure env ≡ some c
      → issue normalize sha256_hex hmac_email bucket_key C T env d e w ≡ (some r, w')
      → Silent normalize sha256_hex hmac_email bucket_key C T c d w w' r
        ⊎ ((a : String) × (k : String) × Mailed normalize sha256_hex hmac_email bucket_key C T c d a
              k w w' r
            × Permitted normalize sha256_hex hmac_email bucket_key C T c d env e w a k)
  unfolding issue issue_with
  issue_guarded c env d e w w' r sound done =
      subst₂
        (λ (v : World C T) (q : CreateResponse).
          Silent normalize sha256_hex hmac_email bucket_key C T c d w v q
          ⊎ ((a : String) × (k : String) × Mailed normalize sha256_hex hmac_email bucket_key C T c d
                a k w v q
              × Permitted normalize sha256_hex hmac_email bucket_key C T c d env e w a k))
        (ap (λ x. x.1) same) (ap (λ x. or_else x.0 result.0) same)
        (issue_at_cases c env d e w _ _ refl refl)
    where
      result : CreateResponse × World C T
      result = issue_with normalize sha256_hex hmac_email bucket_key C T c env d e w

      same : ◌≡◌ {A = Option CreateResponse × World C T} (some result.0, result.1) (some r, w')
      same = sym (rw (sound, issue)) ∙ done
