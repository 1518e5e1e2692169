-- ===== src/Accounts.antt =====
-- accounts.py: accounts with versions, and the residuals noted on them.
pub mod Records
pub mod Book
pub mod Lineage
pub mod Calls
