-- ===== src/Audit/Log/Several.antt =====
-- The log of packages/foundation/src/audit/audit-log.ts over the store of multi-store.ts.
use saas_foundation.Prelude.{
  ℕ, ◌≡◌, ◌↔◌, refl, String, true, List, map, Option-cases, inl, inr, any,
}
use saas_foundation.Audit.Retention.{retention_seconds_for}
use saas_foundation.Audit.Multi.{AuditStore, MultiState, multi_store, all_or_any, settle, put}
use saas_foundation.Audit.Multi.Accepts.{resolved, put_accepts_iff}
use saas_foundation.Audit.Log.{
  AuditEvent, AuditLogOptions, Validated, built, persisted, build_event, emit_await,
}

-- With a store that writes to several others in the mode `all-or-any`, the log persists an event
-- that it can build exactly when one of the writes succeeds.
pub emit_await-multi_store_iff :
    {In A S R : Type 0}
    → (to_lower : String → String) (number_size : A → ℕ) (flag : A) (safe_parse : In → Validated A)
      (store : AuditStore (AuditEvent A) S R) (o : AuditLogOptions) (now_ms : ℕ) (bytes : List ℕ)
      (input : In) (m : MultiState S R) (ev : AuditEvent A)
    → build_event to_lower number_size flag safe_parse o now_ms bytes input ≡ built ev
    → ((emit_await to_lower number_size flag safe_parse
          (multi_store store all_or_any)
          o
          now_ms
          bytes
          input
          m).1
        ≡ persisted ev)
      ↔ (any
            (λ ok. ok)
            (map resolved
              (settle store ev (retention_seconds_for ev.severity o.retention_days) m.stores))
          ≡ true)
unfolding emit_await multi_store
emit_await-multi_store_iff {R = R} to_lower number_size flag safe_parse store o now_ms bytes input m
      ev b =
    let accepts =
      (put_accepts_iff store all_or_any ev (retention_seconds_for ev.severity o.retention_days)
        m).2 in
    elim (Option-cases
      (put store all_or_any ev (retention_seconds_for ev.severity o.retention_days) m).1) [
        | inl ok ↦ rw (b, ok, emit_await) (λ _. accepts.0 ok, λ _. refl)
        | inr (e, failed) ↦
            rw (b, failed, emit_await) (λ h. absurd (cc h), λ h. absurd (cc (failed, accepts.1 h)))
      ]
