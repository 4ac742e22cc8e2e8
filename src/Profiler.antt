-- ===== src/Profiler.antt =====
-- Profiler (recorder/src/main/cpp/profiler.h and .cpp): its configuration and the objects that it owns.
pub mod Pool
mod Types
pub mod Setters
mod Rebuild
pub mod Defs
pub mod Shape
mod Configure
mod Linked
mod Calls
pub mod Life
pub mod Running
pub mod History
mod Tests
