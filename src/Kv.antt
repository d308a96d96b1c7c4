-- ===== src/Kv.antt =====
-- packages/foundation/src/kv: the key-value stores.
pub mod MemoryStore
pub mod DynamoRows
pub mod DynamoStore
