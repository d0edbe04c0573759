-- ===== src/Proctoring.antt =====
-- The proctoring side: src/infra/webrtc/*.py and the routes of src/controller/webrtc.py.
pub mod AlertPolicy
pub mod Session
pub mod Controller
pub mod FrameProcessor
mod Tests
