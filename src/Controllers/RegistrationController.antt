-- ===== src/Controllers/RegistrationController.antt =====
-- BACKEND/src/controllers/registration.controller.ts. `named` is as for the registration service.
-- Between the uniqueness check and `create_user` the handler waits for bcrypt. `post_registration` is
-- the run in which nothing comes between; `create_user` in any state is the step `late_registration`
-- of System.
pub mod Stored
use test_specs_to_code.Common.{ℕ, String, Bool, Option, none, some, List, [], ◌∷◌, if◌then◌else◌}
use test_specs_to_code.Model.{
  Exception, Constraint, validation_error, username_conflict, type_error, message, Crypto, Exec, ok,
  thrown, pure, throw, ◌>>=◌,
}
use test_specs_to_code.Http.{
  Field, absent, text, other, str, strs, flag, field_errors, Response, response, error_response,
  respond,
}
use test_specs_to_code.Validators.PasswordPolicy.{PasswordPolicy, evaluate}
use test_specs_to_code.Validators.EmailValidator.{validate_format}
use test_specs_to_code.Validators.RegistrationValidator.{
  RegistrationRequestDto, FieldError, validate,
}
use test_specs_to_code.Validators.UsernameUniquenessValidator.{check_uniqueness}
use test_specs_to_code.Services.RateLimitGuard.{RateLimitGuard}
use test_specs_to_code.Services.OtpService.{OtpConfig, OtpInputs, OtpState, within, issue_otp}
use test_specs_to_code.Services.RegistrationService.{Registration, UserCreatedResult, register}

pub record RegistrationBody : Type 0 where
  pub username : Field
  pub email_address : Field
  pub password : Field
  pub password_confirmation : Field

-- What the handler reads from its surroundings.
pub record RegistrationInputs : Type 0 where
  pub salt : String
  pub user_id : String
  pub now : ℕ
  pub otp : OtpInputs

-- `field?.trim()` throws where the field is neither missing nor a string.
unfoldable pub text_field : {S : Type 0} → Field → Exec S (Option String)
text_field absent = pure none
text_field (text s) = pure (some s)
text_field other = throw type_error

-- The body as the validator reads it, field by field.
unfoldable pub read_body : {S : Type 0} → RegistrationBody → Exec S RegistrationRequestDto
unfolding text_field
read_body body = do
  username ← text_field body.username
  email_address ← text_field body.email_address
  password ← text_field body.password
  password_confirmation ← text_field body.password_confirmation
  pure (record {
    username = username;
    email_address = email_address;
    password = password;
    password_confirmation = password_confirmation;
  })

abbrev pub text_or_empty : Option String → String
text_or_empty none = ""
text_or_empty (some s) = s

-- The DTO as `register` reads it, with the fields as they were sent.
abbrev pub registration_of : RegistrationRequestDto → Registration
registration_of dto = record {
  username = text_or_empty dto.username;
  email_address = text_or_empty dto.email_address;
  password = text_or_empty dto.password;
}

abbrev pub invalid_response : List FieldError → Response
invalid_response errors =
    response 422 (("isValid", flag Bool.false) ∷ ("fieldErrors", field_errors errors) ∷ [])

abbrev pub email_error : String → List FieldError
email_error error = record { field_name = "emailAddress"; error_message = error } ∷ []

abbrev pub policy_response : List String → Response
policy_response violations =
    response 422 (("error", str "PASSWORD_POLICY_VIOLATION") ∷ ("violations", strs violations) ∷ [])

abbrev pub unavailable_response : String → Response
unavailable_response username = response 409 (
    ("error_code", str "USERNAME_UNAVAILABLE")
    ∷ ("message", str (message (username_conflict username)))
    ∷ ("field", str "username")
    ∷ ("suggestion_hint", str "Please choose a different username.")
    ∷ [])

abbrev pub created_response : UserCreatedResult → Response
created_response r = response 201 (("userId", str r.user_id) ∷ ("message", str r.message) ∷ [])

-- The catch block of stage 5.
unfoldable pub registration_error : Exception → Response
registration_error (username_conflict username) = unavailable_response username
registration_error _ = error_response 500 "An unexpected error occurred during registration."

module _ (crypto : Crypto) (config : OtpConfig) (policy : PasswordPolicy) (lower : String → String)
    (named : List Constraint → Constraint) {K : Type 0} (guard : RateLimitGuard K) where
  -- Stage 5: the row, and the mail with the first code.
  unfoldable pub create_user :
      Registration → RegistrationInputs → Exec (OtpState K) UserCreatedResult
  create_user dto inputs = do
    result ← within (register crypto lower named dto inputs.salt inputs.user_id inputs.now)
    dispatched ← issue_otp crypto config guard result.user_id inputs.otp
    pure result

  -- Stage 4, with its catch block, and what follows it.
  unfoldable pub claim_username :
      RegistrationRequestDto → RegistrationInputs → Exec (OtpState K) Response
  unfolding create_user registration_error
  claim_username dto inputs s =
      let (checked, s') = within (check_uniqueness lower dto.username) s in
      elim checked [
        | ok done ↦
            respond (create_user (registration_of dto) inputs) created_response registration_error
              s'
        | thrown (username_conflict username) ↦ (ok (unavailable_response username), s')
        | thrown e ↦ (thrown e, s')
      ]

  -- Stages 2 and 3.
  unfoldable pub check_formats :
      RegistrationRequestDto → RegistrationInputs → Exec (OtpState K) Response
  unfolding claim_username
  check_formats dto inputs = elim (validate_format dto.email_address) [
    | thrown (validation_error error code) ↦ pure (invalid_response (email_error error))
    | thrown e ↦ throw e
    | ok accepted ↦
        if (evaluate (text_or_empty dto.password) policy).valid
        then claim_username dto inputs
        else pure (policy_response (evaluate (text_or_empty dto.password) policy).violations)
  ]

  -- POST /api/v1/users/register
  unfoldable pub post_registration :
      RegistrationBody → RegistrationInputs → Exec (OtpState K) Response
  unfolding read_body check_formats
  post_registration body inputs = do
    dto ← read_body body
    if (validate dto).is_valid
        then check_formats dto inputs
        else pure (invalid_response (validate dto).field_errors)
