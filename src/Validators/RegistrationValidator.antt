-- ===== src/Validators/RegistrationValidator.antt =====
-- BACKEND/src/validators/registration.validator.ts
pub mod Accepted
use test_specs_to_code.Common.{
  String, Bool, true, false, not, Option, none, some, List, [], ◌∷◌, ◌++◌, ◌==◌, if◌then◌else◌,
}
use test_specs_to_code.Common.Text.{trim}
use test_specs_to_code.Validators.EmailValidator.{is_email}

-- The body of a registration request; a field that is null or undefined is none.
pub record RegistrationRequestDto : Type 0 where
  pub username : Option String
  pub email_address : Option String
  pub password : Option String
  pub password_confirmation : Option String

pub record FieldError : Type 0 where
  pub field_name : String
  pub error_message : String

pub record RegistrationValidationResult : Type 0 where
  pub is_valid : Bool
  pub field_errors : List FieldError

-- `field?.trim() ?? ''`
unfoldable pub trimmed : Option String → String
trimmed none = ""
trimmed (some s) = trim s

-- fieldErrors.push({ fieldName, errorMessage }), under a condition
abbrev pub error_if : Bool → String → String → List FieldError
error_if true field message = record { field_name = field; error_message = message } ∷ []
error_if false field message = []

abbrev pub no_errors : List FieldError → Bool
no_errors [] = true
no_errors (e ∷ es) = false

-- Step 2
unfoldable pub presence_errors : RegistrationRequestDto → List FieldError
unfolding trimmed
presence_errors request =
    error_if (trimmed request.username == "") "username" "Username is required."
    ++ error_if (trimmed request.email_address == "") "emailAddress" "Email address is required."
    ++ error_if (trimmed request.password == "") "password" "Password is required."
    ++ error_if (trimmed request.password_confirmation == "") "passwordConfirmation"
        "Password confirmation is required."

-- Step 3
unfoldable pub structural_errors : RegistrationRequestDto → List FieldError
unfolding trimmed
structural_errors request =
    error_if (not (is_email (trimmed request.email_address))) "emailAddress" "Invalid email format."
    ++ error_if (not (trimmed request.password == trimmed request.password_confirmation))
        "passwordConfirmation" "Passwords do not match."

unfoldable pub validate : RegistrationRequestDto → RegistrationValidationResult
unfolding presence_errors structural_errors
validate request =
    let missing = presence_errors request in
    let errors = if no_errors missing then structural_errors request else missing in
    record { is_valid = no_errors errors; field_errors = errors }
