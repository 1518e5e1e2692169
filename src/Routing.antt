-- ===== src/Routing.antt =====
-- routing.py: the advisory router.
pub mod Guards
pub mod Evaluate
pub mod Admission
pub mod Select
pub mod Selection
