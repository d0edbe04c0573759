-- ===== src/Realtime/Followup.antt =====
-- The follow-up graph of src/node/followUpDecisionGraph: what decides, at the end of a turn, whether
-- a question goes on.
pub mod Counting
pub mod Signals
pub mod Decision
pub mod Recovery
pub mod Graph
pub mod Ends
pub mod Patience
