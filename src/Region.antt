-- ===== src/Region.antt =====
-- packages/foundation/src/region: the regions of a deployment, the one a request is for, and the one that
-- a tenant's data must stay in.
pub mod Registry
pub mod Detect
pub mod Residency
pub mod Config
mod Tests
