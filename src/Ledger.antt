-- ===== src/Ledger.antt =====
-- ledger.py: the append-only evidence ledger.
pub mod Codec
pub mod Store
pub mod Verify
pub mod Objects
pub mod Rows
pub mod Append
pub mod Preserve
pub mod Replay
pub mod Seal
