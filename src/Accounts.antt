-- ===== src/Accounts.antt =====
-- app/account_management: administrators block and reactivate accounts.
pub mod ChangeStatus
