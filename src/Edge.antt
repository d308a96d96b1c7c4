-- ===== src/Edge.antt =====
-- packages/vestibulum/src/lambda/shared-distribution/edge: the gate in front of the shared
-- distribution of all tenants.
pub mod Tenant
pub mod Cookies
pub mod Jwks
pub mod Jwt
pub mod Gate
mod Tests
