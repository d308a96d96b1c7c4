-- ===== src/Audit/Retention.antt =====
-- packages/foundation/src/audit/retention.ts: how long an event is kept. A number of days is a rational that
-- is given by its numerator and its denominator, since the source takes its floor.
use saas_foundation.Prelude.{ℕ, ◌+◌, ◌*◌, ◌/◌, Option, none, some, ltb, if◌then◌else◌}

pub data AuditSeverity : Type 0 where
  info warning error : AuditSeverity

abbrev pub default_retention_days : AuditSeverity → ℕ
default_retention_days info = 30
default_retention_days warning = 180
default_retention_days error = 400

abbrev pub seconds_per_day : ℕ
seconds_per_day = 86400

-- A finite positive number of days is `days / parts` with both positive; every other number, and
-- what is no number, is left out like an override that is not there.
pub record Days : Type 0 where
  pub days : ℕ
  pub parts : ℕ

unfoldable pub retention_days_for : AuditSeverity → (AuditSeverity → Option Days) → ℕ
retention_days_for severity override = elim (override severity) [
  | none ↦ default_retention_days severity
  | some d ↦ if ltb 0 d.days then d.days / d.parts else default_retention_days severity
]

unfoldable pub retention_seconds_for : AuditSeverity → (AuditSeverity → Option Days) → ℕ
unfolding retention_days_for
retention_seconds_for severity override = retention_days_for severity override * seconds_per_day

unfoldable pub ttl_for : AuditSeverity → ℕ → (AuditSeverity → Option Days) → ℕ
unfolding retention_seconds_for
ttl_for severity now_epoch_seconds override =
    now_epoch_seconds + retention_seconds_for severity override
