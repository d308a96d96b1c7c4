-- ===== src/SignIn/Verify/Decides.antt =====
-- Every outcome of a redemption, and when its row is gone.
use saas_foundation.Prelude.{
  String, ◌≡◌, refl, ◌≢◌, ◌↔◌, ◌⊎◌, inl, inr, true, false, none, Bool-cases, is_some,
}
use saas_foundation.Table.{Table}
use saas_foundation.SignIn.Verify.Laws.{Redeemable, Stage-cases, check_sound, consume_law}
use saas_foundation.SignIn.Verify.{
  TokenRow, VerifyEvent, VerifyDeps, failed, delete_error, rejected, correct, next, check, consume,
  recheck, redeem, verify,
}

module _ (sha256_hex : String → String) (hmac_email : String → String → String)
    (T : Table TokenRow) where
  open T use {State, item}

  -- The delete is reached: the read's checks have passed, and the service answers.
  redeem_reached :
      (d : VerifyDeps) (k : String) (s : State)
      → d.delete_ok ≡ true
      → ((redeem sha256_hex hmac_email T d k s).1 ≡ (consume sha256_hex hmac_email T k s).0)
        × (((redeem sha256_hex hmac_email T d k s).0 ≡ correct) ↔ (
            ((consume sha256_hex hmac_email T k s).1 ≡ true)
            × (recheck sha256_hex hmac_email T d ≡ correct)))
  unfolding redeem
  redeem_reached d k s up = elim (Bool-cases (consume sha256_hex hmac_email T k s).1) [
    | inl won ↦ rw (up, won, redeem) (refl, ((λ h. (refl, h)), λ (_, h). h))
    | inr lost ↦ rw (up, lost, redeem) (refl, ((λ h. cc), λ (h, _). cc))
  ]

  redeem_lost :
      (d : VerifyDeps) (k : String) (s : State)
      → d.delete_ok ≡ false
      → redeem sha256_hex hmac_email T d k s ≡ (rejected (failed delete_error), s)
  unfolding redeem
  redeem_lost d k s lost = rw (lost, redeem) refl

  -- The answer is not correct and the table is left as it was, where a check fails or the delete
  -- cannot be reached. Otherwise the request rests on a row that its read found; after it that row
  -- is gone and no other, whatever the eligibility check says, so that an answer that is refused for
  -- its eligibility has used up its row. The answer is correct exactly if the row was still there for
  -- the delete and the eligibility check passes.
  pub verify_decides :
      (d : VerifyDeps) (e : VerifyEvent) (seen s : State)
      → let out = verify sha256_hex hmac_email T d e seen s in
        (((d.delete_ok ≡ false) ⊎ ((k : String) → check sha256_hex hmac_email T d e seen ≢ next k))
          × (out.0 ≢ correct)
          × (out.1 ≡ s))
        ⊎ ((k : String) × Redeemable sha256_hex hmac_email T d e seen k
            × (item out.1 k ≡ none)
            × ((j : String) → k ≢ j → item out.1 j ≡ item s j)
            × ((out.0 ≡ correct)
                ↔ ((is_some (item s k) ≡ true) × (recheck sha256_hex hmac_email T d ≡ correct))))
  unfolding verify
  verify_decides d e seen s =
      elim (Stage-cases sha256_hex hmac_email T (check sha256_hex hmac_email T d e seen)) [
        | inl (v, stopped) ↦ inl (
          inr (λ k h. cc (stopped, h)),
          (λ h. cc (rw (stopped, verify) at h)),
          rw (stopped, verify) refl,
        )
        | inr (k, passed) ↦ elim (Bool-cases d.delete_ok) [
          | inr lost ↦ inl (
            inl lost,
            (λ h. cc (rw (passed, verify, redeem_lost d k s lost) at h)),
            rw (passed, verify, redeem_lost d k s lost) refl,
          )
          | inl up ↦
              let (result, gone, others) = consume_law sha256_hex hmac_email T k s in
              let (left, decides) = redeem_reached d k s up in
              rw (passed, verify)
                (inr (
                  k,
                  check_sound sha256_hex hmac_email T d e seen k passed,
                  rw left gone,
                  (λ j ne. rw left (others j ne)),
                  rw (← result) decides,
                ))
        ]
      ]
