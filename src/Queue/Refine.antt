-- ===== src/Queue/Refine.antt =====
-- The ring of slots refines the bounded FIFO, and the padding of a free slot is zero.
mod Push
mod Pop
pub use Push.{push_refines}
pub use Pop.{pop_refines}
pub mod Represents
mod Tests
