-- ===== src/Examples.antt =====
-- Concrete states, and each theorem that has a condition applied to one of them.
mod Fixtures
mod Sessions
mod Logins
mod Resets
mod Deletions
mod Codes
mod Limits
mod Mails
mod Registrations
mod Outbox
mod Runs
mod Answers
mod Configs
