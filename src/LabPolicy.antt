-- ===== src/LabPolicy.antt =====
-- lab_policy.py: the reviews of a requested effect and of a requested release, and the decision.
pub mod Reviews
pub mod Decision
pub mod Rules
pub mod Clearance
