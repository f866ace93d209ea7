-- ===== src/Account.antt =====
-- protocols/account.c: accounts.
pub mod Reconnect
pub mod Tags
