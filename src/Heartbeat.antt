-- ===== src/Heartbeat.antt =====
-- heartbeat.py: steering boundaries, emitted only when something material changed.
pub mod State
pub mod Observe
pub mod Order
pub mod Chain
pub mod Trace
