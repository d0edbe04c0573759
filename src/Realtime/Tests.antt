-- ===== src/Realtime/Tests.antt =====
-- The theorems on the realtime session at concrete inputs.
mod Fixtures
mod Speaking
mod Archiving
mod Publishing
mod Following
mod Connecting
