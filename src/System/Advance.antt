-- ===== src/System/Advance.antt =====
-- The steps of the server along a preorder that satisfies the rules: the methods of the services,
-- the workers, and the routes.
pub mod Sessions
pub mod Accounts
pub mod Moves
pub mod Registration
pub mod Workers
pub mod Routes
pub mod Statements
pub mod Steps
