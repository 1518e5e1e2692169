-- ===== src/Canonical.antt =====
-- canonical.py: JSON values.
pub mod Json
pub mod Equal
