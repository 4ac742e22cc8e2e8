-- ===== src/LogWriter.antt =====
-- LogWriter (recorder/src/main/cpp/log_writer.h and .cpp): the log file's bytes.
mod Defs
pub mod Format
pub mod Decode
pub mod Announce
mod Tests
unfoldable pub use Defs.*
