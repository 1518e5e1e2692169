-- ===== src/Facts.antt =====
-- facts.py: facts earned from evidence, kept under the version of their subject and withdrawn with it.
pub mod Records
pub mod Store
pub mod Mutate
pub mod Transfer
pub mod Subsets
pub mod Closure
pub mod Grounded
pub mod Withdrawn
pub mod Mutation
pub mod Calls
pub mod Lookup
