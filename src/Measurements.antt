-- ===== src/Measurements.antt =====
-- measurements.py: exact quantities and intervals of them.
pub mod Quantity
pub mod Order
