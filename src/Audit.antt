-- ===== src/Audit.antt =====
-- packages/foundation/src/audit: the log of audit events, its filter, its identifiers and its stores.
pub mod Pii
pub mod Ulid
pub mod Retention
pub mod Multi
pub mod Size
pub mod Log
mod Tests
