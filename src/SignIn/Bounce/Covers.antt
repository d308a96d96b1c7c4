-- ===== src/SignIn/Bounce/Covers.antt =====
-- The addresses that packages/vestibulum/src/lambda/handlers/bounce-handler/index.ts has marked.
use saas_foundation.Prelude.{
  ℕ, ◌≡◌, refl, inl, inr, String, Bool, true, false, ◌||◌, Option, none, some, List, [], ◌∷◌, ◌++◌,
  if◌then◌else◌, first_of_two, str_eq, All, All-append, Bool-cases, Option-cases,
}
use saas_foundation.SignIn.Bounce.{
  SesNotificationType, bounced, complained, delivered, BounceType, permanent, transient,
  undetermined, SesBounce, SesNotification, Quarantine, Failures, Environment, Step,
  quarantine_email, is_unset, quarantine_all, process_bounce, process_complaint, process,
  process_record, process_records, handler,
}
use saas_foundation.SignIn.Bounce.Marks.{
  Grows, marks_same, marks_trans, Covered, still_marked, Turn, quarantine_email-Turn,
}

-- The recipients of a permanent bounce, and of a complaint.
abbrev pub due_of_bounce : Option SesBounce → List String
due_of_bounce none = []
due_of_bounce (some b) = elim b.bounce_type [
  | permanent ↦ b.bounced_recipients
  | transient ↦ []
  | undetermined ↦ []
]

abbrev pub due_of_kind : SesNotification → Option SesNotificationType → List String
due_of_kind n none = []
due_of_kind n (some bounced) = due_of_bounce n.bounce
due_of_kind n (some complained) = elim n.complained_recipients [
  | none ↦ []
  | some recipients ↦ recipients
]
due_of_kind n (some delivered) = []

abbrev pub due_of_message : Option SesNotification → List String
due_of_message none = []
due_of_message (some n) = due_of_kind n (first_of_two n.notification_type n.event_type)

abbrev pub due : (String → Option SesNotification) → List String → List String
due parse [] = []
due parse (message ∷ messages) = due_of_message (parse message) ++ due parse messages

-- Marks stay, and if nothing has thrown, the addresses are covered.
abbrev Run : (String → String) → Quarantine → List String → Step → Type 0
Run hash w emails r = Grows w r.0 × (r.1 ≡ false → All (Covered hash r.0) emails)

each_still_marked :
    (hash : String → String) (v w : Quarantine) (emails : List String)
    → Grows v w
    → All (Covered hash v) emails
    → All (Covered hash w) emails
each_still_marked hash v w [] g h = tt
each_still_marked hash v w (e ∷ emails) g h =
    (still_marked hash v w e g h.0, each_still_marked hash v w emails g h.1)

next_turn :
    (hash : String → String) (w : Quarantine) (email : String) (emails : List String)
    (turn rest : Step)
    → Turn hash w email turn
    → Run hash turn.0 emails rest
    → Run hash w (email ∷ emails) (if turn.1 then (turn.0, true) else rest)
next_turn hash w email emails (after, true) rest t r = (t.0, λ h. absurd (cc h))
next_turn hash w email emails (after, false) rest t r = (
  marks_trans w after rest.0 t.0 r.0,
  λ h. (still_marked hash after rest.0 email r.0 (t.1 refl), r.1 h),
)

or_false_parts : (a b : Bool) → a || b ≡ false → (a ≡ false) × (b ≡ false)
or_false_parts true b h = absurd (cc h)
or_false_parts false b h = (refl, h)

module _ (hmac_email : String → String → String) (f : Failures) (now_ms : ℕ) (secret : String) where
  abbrev pub hashed : String → String
  hashed email = hmac_email email secret

  quarantine_all-Run :
      (emails : List String) (w : Quarantine)
      → Run hashed w emails (quarantine_all hmac_email f now_ms secret emails w)
  unfolding quarantine_all
  quarantine_all-Run [] w = (marks_same w, λ _. tt)
  quarantine_all-Run (email ∷ emails) w =
      let after = (quarantine_email f now_ms email (hashed email) w).0 in
      next_turn hashed w email emails (quarantine_email f now_ms email (hashed email) w)
        (quarantine_all hmac_email f now_ms secret emails after)
        (quarantine_email-Turn hashed f now_ms email w) (quarantine_all-Run emails after)

  nothing_due : (w : Quarantine) → Run hashed w [] (w, false)
  nothing_due w = (marks_same w, λ _. tt)

  bounce_type-Run :
      (t : BounceType) (emails : List String) (w : Quarantine)
      → Run hashed w
          (elim t as (λ _. List String) [ permanent ↦ emails | transient ↦ [] | undetermined ↦ [] ])
          (elim t as (λ _. Step) [
            | permanent ↦ quarantine_all hmac_email f now_ms secret emails w
            | transient ↦ (w, false)
            | undetermined ↦ (w, false)
          ])
  bounce_type-Run permanent emails w = quarantine_all-Run emails w
  bounce_type-Run transient emails w = nothing_due w
  bounce_type-Run undetermined emails w = nothing_due w

  process_bounce-Run :
      (b : Option SesBounce) (w : Quarantine)
      → Run hashed w (due_of_bounce b) (process_bounce hmac_email f now_ms secret b w)
  unfolding process_bounce
  process_bounce-Run none w = nothing_due w
  process_bounce-Run (some b) w = bounce_type-Run b.bounce_type b.bounced_recipients w

  process_complaint-Run :
      (c : Option (List String)) (w : Quarantine)
      → Run hashed w
          (elim c as (λ _. List String) [ none ↦ [] | some recipients ↦ recipients ])
          (process_complaint hmac_email f now_ms secret c w)
  unfolding process_complaint
  process_complaint-Run none w = nothing_due w
  process_complaint-Run (some recipients) w = quarantine_all-Run recipients w

  kind-Run :
      (n : SesNotification) (kind : Option SesNotificationType) (w : Quarantine)
      → Run hashed w (due_of_kind n kind) (elim kind as (λ _. Step) [
        | none ↦ (w, false)
        | some bounced ↦ process_bounce hmac_email f now_ms secret n.bounce w
        | some complained ↦ process_complaint hmac_email f now_ms secret n.complained_recipients w
        | some delivered ↦ (w, false)
      ])
  kind-Run n none w = nothing_due w
  kind-Run n (some bounced) w = process_bounce-Run n.bounce w
  kind-Run n (some complained) w = process_complaint-Run n.complained_recipients w
  kind-Run n (some delivered) w = nothing_due w

  process-Run :
      (n : SesNotification) (w : Quarantine)
      → Run hashed w (due_of_message (some n)) (process hmac_email f now_ms secret n w)
  unfolding process
  process-Run n w = kind-Run n (first_of_two n.notification_type n.event_type) w

  module _ (parse : String → Option SesNotification) where
    process_record-Run :
        (message : String) (w : Quarantine)
        → Run hashed w
            (due_of_message (parse message))
            (process_record hmac_email f now_ms parse secret message w)
    unfolding process_record
    process_record-Run message w = elim (Option-cases (parse message)) [
      | inl bad ↦ rw (bad, process_record) (marks_same w, λ h. absurd (cc h))
      | inr (n, read) ↦ rw (read, process_record) (process-Run n w)
    ]

    process_records-Run :
        (messages : List String) (w : Quarantine)
        → Run hashed w
            (due parse messages)
            (process_records hmac_email f now_ms parse secret messages w)
    unfolding process_records
    process_records-Run [] w = (marks_same w, λ _. tt)
    process_records-Run (message ∷ messages) w =
        let first = process_record-Run message w in
        let after = (process_record hmac_email f now_ms parse secret message w).0 in
        let rest = process_records-Run messages after in
        let last = (process_records hmac_email f now_ms parse secret messages after).0 in
        (
          marks_trans w after last first.0 rest.0,
          λ h.
              let parts = or_false_parts _ _ h in
              All-append (Covered hashed last) (due_of_message (parse message)) (due parse messages)
                (each_still_marked hashed after last (due_of_message (parse message)) rest.0
                  (first.1 parts.0))
                (rest.1 parts.1),
        )

handler-Run :
    (hmac_email : String → String → String) (f : Failures) (now_ms : ℕ)
    (parse : String → Option SesNotification) (env : Environment) (messages : List String)
    (w : Quarantine) (secret : String)
    → env.hmac_secret ≡ some secret
    → Run
        (λ email. hmac_email email secret)
        w
        (due parse messages)
        (handler hmac_email f now_ms parse env messages w)
unfolding handler
handler-Run hmac_email f now_ms parse env messages w secret key =
    elim (Bool-cases
      (is_unset env.user_pool_id || is_unset env.denylist_table_name || str_eq secret "")) [
        | inl missing ↦ rw (key, missing, handler) (marks_same w, λ h. absurd (cc h))
        | inr there ↦
            rw (key, there, handler)
              (process_records-Run hmac_email f now_ms secret parse messages w)
      ]

-- When the handler throws nothing, every recipient of a permanent bounce or a complaint in the
-- messages is not mailed any more: its user is marked as quarantined, or its hash is on the
-- denylist.
pub handler_covers :
    (hmac_email : String → String → String) (f : Failures) (now_ms : ℕ)
    (parse : String → Option SesNotification) (env : Environment) (messages : List String)
    (w : Quarantine) (secret : String)
    → env.hmac_secret ≡ some secret
    → (handler hmac_email f now_ms parse env messages w).1 ≡ false
    → All
        (Covered
          (λ email. hmac_email email secret)
          (handler hmac_email f now_ms parse env messages w).0)
        (due parse messages)
handler_covers hmac_email f now_ms parse env messages w secret key ok =
    (handler-Run hmac_email f now_ms parse env messages w secret key).1 ok
