-- ===== src/Validators.antt =====
-- BACKEND/src/validators
pub mod PasswordPolicy
pub mod EmailValidator
pub mod RegistrationValidator
pub mod UsernameUniquenessValidator
