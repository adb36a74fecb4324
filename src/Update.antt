-- ===== src/Update.antt =====
-- src/update: the version of a release, and when the program looks for a new one.
pub mod Version
pub mod Schedule
pub mod Check
pub mod Sha256
mod Tests
