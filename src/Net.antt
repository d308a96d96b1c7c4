-- ===== src/Net.antt =====
-- packages/foundation/src/net: the address of a client, and the ranges that it must not be in.
pub mod Ipv4
pub mod Ipv6
pub mod Reserved
pub mod Derive
mod Tests
