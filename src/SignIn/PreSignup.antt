-- ===== src/SignIn/PreSignup.antt =====
-- packages/vestibulum/src/lambda/handlers/pre-signup/index.ts: who may sign up.
use saas_foundation.Prelude.{
  ℕ, ◌+◌, ◌*◌, ◌/◌, ◌<◌, ◌⊎◌, str_eq, eq_iff, Option-cases, String, ◌≡◌, sym, ap, ◌∙◌, Bool, true,
  false, not, ◌&&◌, Option, none, some, List, [], ◌∷◌, map, arith, ◌==◌, if◌then◌else◌, Bool-cases,
  or_else, any, same_numbers, refl, inl, inr,
}
use saas_foundation.Text.{Text, text_of}
use saas_foundation.Table.{Table}
use saas_foundation.SignIn.Counters.{
  CounterRow, Bucket, signup, rate_limit_window_ms, under_limit, used, counted,
  check_and_increment_rate_limit, window_of,
}

pub data TriggerSource : Type 0 where
  self_sign_up admin_create_user external_provider other_source : TriggerSource

-- The list of domains in the environment: not set, not JSON, or a list.
pub data DomainList : Type 0 where
  unset not_json : DomainList
  listed : List Text → DomainList

-- The environment and the event. `sign_ups_per_window` is what `parseInt` makes of its variable:
-- `none` within is its NaN.
pub record SignupEvent : Type 0 where
  pub admin_invite_only : Bool
  pub allowed_email_domains : DomainList
  pub has_rate_limit_table : Bool
  pub sign_ups_per_window : Option (Option ℕ)
  pub trigger_source : TriggerSource
  pub email : Option String
  pub now_ms : ℕ

-- The reason goes to the metric only: each rejection throws the same error.
pub data Rejection : Type 0 where
  invite_only_mode domain_not_allowed rate_limit_hit : Rejection

pub record SignupResponse : Type 0 where
  pub auto_confirm_user : Bool
  pub auto_verify_email : Bool

pub data SignupResult : Type 0 where
  welcome : SignupResponse → SignupResult
  signup_not_allowed : Rejection → SignupResult

-- `s.slice(s.lastIndexOf("@") + 1)` where there is one
unfoldable pub after_last : ℕ → Text → Option Text
after_last c [] = none
after_last c (x ∷ s) =
    let rest = after_last c s in
    elim rest [ none ↦ if x == c then some s else none | some r ↦ some r ]

unfoldable pub is_self_sign_up : TriggerSource → Bool
is_self_sign_up self_sign_up = true
is_self_sign_up _ = false

unfoldable pub is_closed : SignupEvent → Bool
unfolding is_self_sign_up
is_closed e = e.admin_invite_only && is_self_sign_up e.trigger_source

unfoldable pub domains_of : DomainList → List Text
domains_of unset = []
domains_of not_json = []
domains_of (listed domains) = domains

unfoldable pub email_of : SignupEvent → String
email_of e = or_else e.email ""

unfoldable pub limit_per_window : SignupEvent → ℕ
limit_per_window e = or_else (or_else e.sign_ups_per_window (some 3)) 3

-- `key_of` as for the counters, `to_lower` is the language's `toLowerCase`. A call that the service
-- fails is left out: the error is the handler's.
module _ (T : Table CounterRow) (key_of : Bucket → String) (to_lower : Text → Text) where
  open T use {State, item, write, write_result, write_item, write_other}

  unfoldable pub domain_of : SignupEvent → Text
  unfolding after_last email_of
  domain_of e = elim (after_last b'@' (text_of (email_of e))) [ none ↦ [] | some d ↦ to_lower d ]

  unfoldable pub is_domain_allowed : SignupEvent → Bool
  unfolding domain_of domains_of
  is_domain_allowed e =
      any (λ d. same_numbers d (domain_of e)) (map to_lower (domains_of e.allowed_email_domains))

  unfoldable pub handle_signup : SignupEvent → State → State × SignupResult
  unfolding is_closed is_domain_allowed limit_per_window email_of
  handle_signup e s =
      let confirmed = welcome (record { auto_confirm_user = true; auto_verify_email = true }) in
      let update =
        check_and_increment_rate_limit T key_of (email_of e) (limit_per_window e) e.now_ms
          rate_limit_window_ms s in
      if is_closed e
      then (s, signup_not_allowed invite_only_mode)
      else if not (is_domain_allowed e)
      then (s, signup_not_allowed domain_not_allowed)
      else if not e.has_rate_limit_table
      then (s, confirmed)
      else if update.1
      then (update.0, confirmed)
      else (update.0, signup_not_allowed rate_limit_hit)

  -- The counter of the event: its key in the window of the time.
  abbrev pub signup_key : SignupEvent → String
  signup_key e =
      key_of (signup (email_of e) (e.now_ms / rate_limit_window_ms * rate_limit_window_ms))

  abbrev update_of : SignupEvent → State → State × Bool
  update_of e s =
      check_and_increment_rate_limit T key_of (email_of e) (limit_per_window e) e.now_ms
        rate_limit_window_ms s

  update_refused :
      (e : SignupEvent) (s : State) (k : String)
      → (update_of e s).1 ≡ false
      → item (update_of e s).0 k ≡ item s k
  unfolding check_and_increment_rate_limit
  update_refused e s k h =
      let at =
        (e.now_ms / rate_limit_window_ms * rate_limit_window_ms + rate_limit_window_ms * 2)
        / 1000 in
      let c = under_limit (limit_per_window e) (λ r. true) in
      let f = λ (r : Option CounterRow). counted (window_of r) at r in
      elim (Bool-cases (str_eq (signup_key e) k)) [
        | inl here ↦
            let same = (eq_iff (signup_key e) k).0 here in
            let r = write_result (signup_key e) c f s in
            let w = write_item (signup_key e) c f s in
            let kept = w ∙ rw (sym r ∙ h) refl in
            sym (ap (λ x. item (update_of e s).0 x) same) ∙ kept ∙ ap (item s) same
        | inr other ↦
            write_other (signup_key e) k c f s (λ p. grind (arith, (eq_iff (signup_key e) k).1 p))
      ]

  update_allowed :
      (e : SignupEvent) (s : State)
      → (update_of e s).1 ≡ true
      → ((used (item s (signup_key e)) < limit_per_window e) ⊎ (item s (signup_key e) ≡ none))
        × (used (item (update_of e s).0 (signup_key e)) ≡ used (item s (signup_key e)) + 1)
  unfolding check_and_increment_rate_limit used counted under_limit
  update_allowed e s h =
      let at =
        (e.now_ms / rate_limit_window_ms * rate_limit_window_ms + rate_limit_window_ms * 2)
        / 1000 in
      let c = under_limit (limit_per_window e) (λ r. true) in
      let f = λ (r : Option CounterRow). counted (window_of r) at r in
      let r = write_result (signup_key e) c f s in
      let w = write_item (signup_key e) c f s in
      elim (Option-cases (item s (signup_key e))) [
        | inl missing ↦ (inr missing, ground (arith, w, missing))
        | inr (row, found) ↦ (inl (ground (arith, r, h, found)), ground (arith, r, w, h, found))
      ]

  -- An event is welcome only if the mode lets it through, its domain is listed, and, where there is
  -- a table, its counter was below the limit or had no row; it is then confirmed and verified, and
  -- its counter counts it. An event that is refused changes no row of the table.
  pub handle_signup_guarded :
      (e : SignupEvent) (s : State)
      → ((response : SignupResponse)
          → (handle_signup e s).1 ≡ welcome response
          → (response.auto_confirm_user && response.auto_verify_email ≡ true)
            × (is_closed e ≡ false)
            × (is_domain_allowed e ≡ true)
            × (e.has_rate_limit_table ≡ true
                → ((used (item s (signup_key e)) < limit_per_window e)
                    ⊎ (item s (signup_key e) ≡ none))
                  × (used (item (handle_signup e s).0 (signup_key e))
                      ≡ used (item s (signup_key e)) + 1)))
        × ((why : Rejection) (k : String)
            → (handle_signup e s).1 ≡ signup_not_allowed why
            → item (handle_signup e s).0 k ≡ item s k)
  unfolding handle_signup
  handle_signup_guarded e s = (
    (λ response h. (
      ground arith,
      ground arith,
      ground arith,
      λ has_table. ground (arith, update_allowed e s),
    )),
    (λ why k h. ground (arith, update_refused e s k)),
  )
