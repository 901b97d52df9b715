-- ===== src/Controllers.antt =====
-- BACKEND/src/controllers: one module for each controller, a function for each handler. A handler
-- maps the state to a response and a new state; it throws where its promise rejects.
pub mod RegistrationController
pub mod AuthController
pub mod OtpController
pub mod DeletionController
pub mod PasswordController
pub mod ActivationController
pub mod UserProfileController
pub mod AdminController
pub mod HealthController
