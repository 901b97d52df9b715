-- ===== src/Workers.antt =====
-- BACKEND/src/workers: one module for each worker.
pub mod OutboxWorker
pub mod AccountDeletionNotificationWorker
