-- ===== src/Goals.antt =====
-- goals.py: one governing goal, its subgoals and their history.
pub mod Graph
pub mod Rooted
pub mod Calls
pub mod Active
