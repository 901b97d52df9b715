-- ===== src/Accounts.antt =====
-- What holds across the services: an account that was deleted stays closed.
pub mod Deleted
