-- ===== src/SignIn/Bounce/Marks.antt =====
-- What one address does to the marks in packages/vestibulum/src/lambda/handlers/bounce-handler/index.ts.
use saas_foundation.Prelude.{
  ℕ, ◌≡◌, refl, ◌∙◌, ◌⊎◌, inl, inr, String, Bool, true, false, some, str_eq, JsMap, get, set,
  get-set, is_some, Bool-cases, Option-cases, eq_refl,
}
use saas_foundation.SignIn.Bounce.{
  Quarantine, Failures, Step, ttl_from, put_denylist, quarantine_email,
}

-- Marks and entries stay.
abbrev pub Grows : Quarantine → Quarantine → Type 0
Grows v w =
    ((e : String) → get v.users e ≡ some true → get w.users e ≡ some true)
    × ((h : String) → is_some (get v.denylist h) ≡ true → is_some (get w.denylist h) ≡ true)

pub marks_same : (w : Quarantine) → Grows w w
marks_same w = ((λ e h. h), (λ e h. h))

pub marks_trans : (u v w : Quarantine) → Grows u v → Grows v w → Grows u w
marks_trans u v w g k = ((λ e h. k.0 e (g.0 e h)), (λ e h. k.1 e (g.1 e h)))

-- An address is not mailed any more: its user is marked, or its hash is on the denylist.
abbrev pub Covered : (String → String) → Quarantine → String → Type 0
Covered hash w email =
    (get w.users email ≡ some true) ⊎ (is_some (get w.denylist (hash email)) ≡ true)

pub still_marked :
    (hash : String → String) (v w : Quarantine) (email : String)
    → Grows v w
    → Covered hash v email
    → Covered hash w email
still_marked hash v w email g (inl marked) = inl (g.0 email marked)
still_marked hash v w email g (inr listed) = inr (g.1 (hash email) listed)

mark_on : (m : JsMap Bool) (k e : String) → get m e ≡ some true → get (set m k true) e ≡ some true
mark_on m k e h = elim (Bool-cases (str_eq k e)) [
  | inl same ↦ get-set m k e true ∙ rw same refl
  | inr other ↦ get-set m k e true ∙ rw other h
]

entry_on :
    (m : JsMap ℕ) (k e : String) (v : ℕ)
    → is_some (get m e) ≡ true
    → is_some (get (set m k v) e) ≡ true
entry_on m k e v h = elim (Bool-cases (str_eq k e)) [
  | inl same ↦ rw (get-set m k e v, same) refl
  | inr other ↦ rw (get-set m k e v, other) h
]

-- What one address's turn does: marks stay, and if it has not thrown, the address is covered.
abbrev pub Turn : (String → String) → Quarantine → String → Step → Type 0
Turn hash w email r = Grows w r.0 × (r.1 ≡ false → Covered hash r.0 email)

put_denylist-Turn :
    (hash : String → String) (f : Failures) (now_ms : ℕ) (email : String) (w : Quarantine)
    → Turn hash w email (put_denylist f now_ms (hash email) w)
unfolding put_denylist
put_denylist-Turn hash f now_ms email w = elim (Bool-cases (f.put_fails (hash email))) [
  | inl fails ↦ rw fails (marks_same w, λ h. absurd (cc h))
  | inr works ↦ rw works (
    ((λ e h. h), (λ h there. entry_on w.denylist (hash email) h (ttl_from now_ms) there)),
    λ _. inr (
        rw (get-set w.denylist (hash email) (hash email) (ttl_from now_ms), eq_refl (hash email))
          refl),
  )
]

pub quarantine_email-Turn :
    (hash : String → String) (f : Failures) (now_ms : ℕ) (email : String) (w : Quarantine)
    → Turn hash w email (quarantine_email f now_ms email (hash email) w)
unfolding quarantine_email
quarantine_email-Turn hash f now_ms email w = elim (Bool-cases (f.update_fails email)) [
  | inl fails ↦ rw (fails, quarantine_email) (marks_same w, λ h. absurd (cc h))
  | inr works ↦ elim (Option-cases (get w.users email)) [
    | inl nobody ↦ rw (works, nobody, quarantine_email) (put_denylist-Turn hash f now_ms email w)
    | inr (mark, there) ↦
        rw (works, there, quarantine_email)
          (
            ((λ e h. mark_on w.users email e h), (λ e h. h)),
            λ _. inl (get-set w.users email email true ∙ rw (eq_refl email) refl),
          )
  ]
]
