-- ===== src/Services.antt =====
-- BACKEND/src/services: one module for each service.
pub mod SessionService
pub mod LoginGuard
pub mod AuthService
pub mod PasswordRecoveryService
pub mod ActivationService
pub mod EmailDispatchService
pub mod AccountDeletionService
pub mod RateLimitGuard
pub mod OtpService
pub mod RegistrationService
pub mod UserProfileService
