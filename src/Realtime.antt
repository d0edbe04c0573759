-- ===== src/Realtime.antt =====
-- The realtime exam session: src/realtime and what it calls.
pub mod Transcript
pub mod Turn
pub mod TurnLimit
pub mod Question
pub mod Checkpoint
pub mod Archive
pub mod Session
pub mod Processor
pub mod Publisher
pub mod Coordinator
pub mod Followup
pub mod Connection
mod Tests
