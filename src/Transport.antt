-- ===== src/Transport.antt =====
-- transport.py: canonical JSON in frames with a length and a digest, and a guard against replays.
pub mod Bytes
pub mod Frame
pub mod Header
pub mod RoundTrip
pub mod Device
pub mod Clock
pub mod Reading
pub mod Received
pub mod Prompt
pub mod Single
pub mod Writing
pub mod Replay
pub mod Window
pub mod History
pub mod Identified
