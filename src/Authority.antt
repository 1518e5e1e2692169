-- ===== src/Authority.antt =====
-- authority.py: task grants, one-use permits and the registry that issues and releases them.
pub mod Grant
pub mod Permit
pub mod Registry
pub mod Release
pub mod World
