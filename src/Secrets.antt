-- ===== src/Secrets.antt =====
-- packages/foundation/src/secrets: the cache of resolved secrets.
pub mod Cache
mod Tests
