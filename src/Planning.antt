-- ===== src/Planning.antt =====
-- planning.py: bounded A* search over an interface of states and actions.
pub mod Problem
pub mod Search
pub mod Invariant
pub mod Rounds
pub mod Path
pub mod Loop
pub mod Answer
