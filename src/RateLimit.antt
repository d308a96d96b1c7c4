-- ===== src/RateLimit.antt =====
-- packages/foundation/src/rate-limit: the token buckets and the limiters over them.
pub mod Bucket
pub mod Memory
pub mod Dynamo
mod Tests
