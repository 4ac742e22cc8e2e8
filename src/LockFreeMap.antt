-- ===== src/LockFreeMap.antt =====
-- The lock-free hash map (recorder/src/main/cpp/concurrent_map.h, namespace map): its table, the
-- calls on the table, the migration to another table, and the provider.
pub mod Defs
pub mod Digits
mod Mask
mod Bits
mod Pow2
mod New
mod Chain
mod Linked
mod Walk
mod Search
pub mod Valid
mod Chance
mod Store
mod Claim
mod Live
pub mod Insert
pub mod Migration
pub mod Provider
pub mod Tests
