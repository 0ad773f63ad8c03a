-- ===== src/Accounts.antt =====
-- internal/accounts: the accounts, their quota and the choice among them.
pub mod Types
pub mod Quota
pub mod Rotation
pub mod Metadata
pub mod Service
pub mod Examples
