-- ===== src/HookPipe.antt =====
-- src/hook/pipe_client: the messages that the program and the injected library send each other.
pub mod Bytes
pub mod Frame
pub mod OnlyFrames
pub mod Layout
pub mod Notification
pub mod Units
pub mod Sent
pub mod TextOutput
pub mod Arms
pub mod Delivered
pub mod Command
pub mod Writes
pub mod Fields
pub mod Written
pub mod Reads
pub mod FieldReads
pub mod RoundTrip
mod Tests
