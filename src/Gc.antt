-- ===== src/Gc.antt =====
-- `map::GC` (recorder/src/main/cpp/concurrent_map.h), the epochs by which hash tables that readers
-- may still hold are deleted, and its use by threads (`GCHelper` of thread_map.h).
mod Defs
mod Count
pub mod Grace
mod Tests
unfoldable pub use Defs.*
