-- ===== src/Orchestration.antt =====
-- orchestration.py: from an admitted route to a permit, and from the permit to one executor call.
pub mod Admission
pub mod Begin
pub mod Checked
pub mod Warrant
pub mod Execute
pub mod Once
