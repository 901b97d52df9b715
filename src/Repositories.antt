-- ===== src/Repositories.antt =====
-- BACKEND/src/repositories: one module for each table.
pub mod UserRepository
pub mod TokenRepository
pub mod EmailRecordRepository
pub mod OtpRequestRepository
pub mod SessionRepository
pub mod PasswordRecoveryRequestRepository
pub mod DeletionRequestRepository
pub mod DeletionNotificationRecordRepository
pub mod Constraints
