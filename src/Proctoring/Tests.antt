-- ===== src/Proctoring/Tests.antt =====
-- Concrete runs of the proctoring side.
mod Policies
mod Worlds
mod Frames
