-- ===== src/SignIn/Flow.antt =====
-- The triggers together: what a challenge that was issued lets its session do.
pub mod SingleUse
pub mod Redeems
mod Tests
use saas_foundation.Prelude.{
  String, ◌≡◌, sym, ap, ◌∙◌, ◌≢◌, inl, inr, Option, some, List, arith, eq_refl, length,
}
use saas_foundation.Table.{Table}
use saas_foundation.SignIn.Counters.{CounterRow, Bucket}
use saas_foundation.SignIn.Verify.{
  Params, TokenRow, VerifyEvent, VerifyDeps, correct, is_quarantined, verify,
}
use saas_foundation.SignIn.Verify.Laws.{verify_correct}
use saas_foundation.SignIn.Decision.{
  CreateEvent, CreateEnv, CreateDeps, Mail, CreateResponse, Config, configure,
}
use saas_foundation.SignIn.Create.{World, issue}
use saas_foundation.SignIn.Create.Laws.{issue_guarded}

module _ (normalize : String → Option String) (sha256_hex : String → String)
    (hmac_email : String → String → String) (bucket_key : String → Bucket → String)
    (C : Table CounterRow) (T : Table TokenRow) where
  -- A challenge marked as unanswerable is refused whatever is answered, and burns no row.
  marked_never_redeems :
      (d : VerifyDeps) (e : VerifyEvent) (seen s : T.State)
      → e.params.quarantined ≡ some "true"
      → (verify sha256_hex hmac_email T d e seen s).0 ≢ correct
  unfolding is_quarantined
  marked_never_redeems d e seen s marked right =
      let found = verify_correct sha256_hex hmac_email T d e seen s right in
      ground (arith, found.1.unquarantined, eq_refl "true")

  -- Where issuing a challenge mailed nothing, no answer to that challenge is ever correct.
  pub unmailed_never_redeems :
      (c : Config) (env : CreateEnv) (d : CreateDeps) (e : CreateEvent) (w w' : World C T)
      (r : CreateResponse) (dv : VerifyDeps) (answer : VerifyEvent) (seen s : T.State)
      → configure env ≡ some c
      → issue normalize sha256_hex hmac_email bucket_key C T env d e w ≡ (some r, w')
      → w'.mails ≡ w.mails
      → answer.params ≡ r.params
      → (verify sha256_hex hmac_email T dv answer seen s).0 ≢ correct
  unmailed_never_redeems c env d e w w' r dv answer seen s sound done unmailed same right =
      elim (issue_guarded normalize sha256_hex hmac_email bucket_key C T c env d e w w' r sound
        done) [
          | inl silent ↦
              marked_never_redeems dv answer seen s
                (ap (λ (p : Params). p.quarantined) same ∙ silent.marked) right
          | inr (a, k, mailed, permitted) ↦
              absurd
                (omega (arith, ap (λ (l : List Mail). length l) (sym mailed.one_mail ∙ unmailed)))
        ]
