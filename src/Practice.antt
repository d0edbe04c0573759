-- ===== src/Practice.antt =====
-- src/realtime/practice_attempt: the questions of a practice session, whose next question the Java service
-- chooses. The turn processor is that of the exam.
pub mod Session
pub mod Coordinator
pub mod Resume
mod Tests
