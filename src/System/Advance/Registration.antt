-- ===== src/System/Advance/Registration.antt =====
-- POST /api/v1/users/register, and the two routes that send a code.
use test_specs_to_code.Common.{if◌then◌else◌}
use test_specs_to_code.Common.{List, not, true, ◌&&◌}
use test_specs_to_code.Common.Text.{trim}
use test_specs_to_code.Controllers.OtpController.{post_otp}
use test_specs_to_code.Controllers.RegistrationController.{
  RegistrationBody, RegistrationInputs, check_formats, claim_username, create_user,
  created_response, email_error, invalid_response, policy_response, post_registration, read_body,
  registration_error, registration_of, text_field, text_or_empty, unavailable_response,
}
use test_specs_to_code.Http.{Field, Response, absent, error_response, filled, other, respond, text}
use test_specs_to_code.Model.{
  Advances-query, Constraint, OtpStatus, is_active, is_pending, otp_forbidden,
  otp_rate_limit_exceeded, pure, status_text, throw, type_error, username_conflict,
  validation_error,
}
use test_specs_to_code.Repositories.UserRepository.{find_by_id}
use test_specs_to_code.Services.OtpService.{OtpConfig, OtpInputs, OtpState, issue_otp}
use test_specs_to_code.Services.RateLimitGuard.{RateLimitGuard}
use test_specs_to_code.Services.RegistrationService.{Registration}
use test_specs_to_code.Validators.EmailValidator.{validate_format}
use test_specs_to_code.Validators.PasswordPolicy.{PasswordPolicy, evaluate}
use test_specs_to_code.Validators.RegistrationValidator.{RegistrationRequestDto, validate}
use test_specs_to_code.Validators.UsernameUniquenessValidator.{check_uniqueness}
use test_specs_to_code.Common.{String, Bool, none, some}
use test_specs_to_code.Model.{Crypto, Db, World, Exec, Result, ok, thrown}
use test_specs_to_code.System.Rules.{Rules}
use test_specs_to_code.System.Advance.Accounts.{
  register-Advances, uniqueness-Advances, deliver-Advances,
}
use test_specs_to_code.System.Advance.Moves.{
  Moves, Moves-within, Moves-pure, Moves-throw, Moves-throw_if, Moves-ask_guard, Moves-bind,
  Moves-then, Moves-respond, Moves-if, Moves-option,
}

module _ {R : Db → Db → Type 0} (rules : Rules R) {K : Type 0} (crypto : Crypto)
    (config : OtpConfig) (guard : RateLimitGuard K) where
  open rules use {order}

  issue_otp-Moves :
      (user_id : String) (inputs : OtpInputs)
      → Moves R K (issue_otp crypto config guard user_id inputs)
  unfolding issue_otp
  issue_otp-Moves user_id inputs =
      Moves-bind order _ _ (Moves-within order _ (Advances-query order (find_by_id user_id)))
        (λ found.
          Moves-option found _ _
            (Moves-pure order (record { accepted = true; status = OtpStatus.delivered }))
            (λ user.
              Moves-then order _ _
                (Moves-throw_if order (not (is_active user.status) && not (is_pending user.status))
                  (otp_forbidden user_id (status_text user.status)))
                (Moves-bind order _ _ (Moves-ask_guard order guard user_id inputs.asked_at)
                  (λ allowed.
                    Moves-then order _ _
                      (Moves-throw_if order (not allowed) (otp_rate_limit_exceeded user_id))
                      (Moves-then order _ _
                        (Moves-within order _ (rules.code_stored crypto config user_id user inputs))
                        (Moves-within order _
                          (deliver-Advances rules crypto config user inputs)))))))

  pub post_otp-Moves :
      (user_id : Field) (inputs : OtpInputs)
      → Moves R K (post_otp crypto config guard user_id inputs)
  unfolding post_otp
  post_otp-Moves user_id inputs =
      Moves-option (filled user_id) _ _
        (Moves-pure order (error_response 400 "userId is required."))
        (λ id. Moves-respond order _ _ _ (issue_otp-Moves (trim id) inputs))

  text_field-Moves : (field : Field) → Moves R K (text_field field)
  unfolding text_field
  text_field-Moves absent = Moves-pure order none
  text_field-Moves (text s) = Moves-pure order (some s)
  text_field-Moves other = Moves-throw order type_error

  read_body-Moves : (body : RegistrationBody) → Moves R K (read_body body)
  unfolding read_body
  read_body-Moves body = Moves-bind order _ _ (text_field-Moves body.username) (λ username.
      Moves-bind order _ _ (text_field-Moves body.email_address) (λ email_address.
        Moves-bind order _ _ (text_field-Moves body.password) (λ password.
          Moves-bind order _ _ (text_field-Moves body.password_confirmation)
            (λ password_confirmation. Moves-pure order (record {
              username = username;
              email_address = email_address;
              password = password;
              password_confirmation = password_confirmation;
            })))))

  module _ (policy : PasswordPolicy) (lower : String → String)
      (named : List Constraint → Constraint) where
    pub create_user-Moves :
        (dto : Registration) (inputs : RegistrationInputs)
        → Moves R K (create_user crypto config policy lower named guard dto inputs)
    unfolding create_user
    create_user-Moves dto inputs =
        Moves-bind order _ _
          (Moves-within order _
            (register-Advances rules crypto lower named dto inputs.salt inputs.user_id inputs.now))
          (λ result.
            Moves-bind order _ _ (issue_otp-Moves result.user_id inputs.otp)
              (λ dispatched. Moves-pure order result))

    claim_username-Moves :
        (dto : RegistrationRequestDto) (inputs : RegistrationInputs)
        → Moves R K (claim_username crypto config policy lower named guard dto inputs)
    unfolding claim_username
    claim_username-Moves dto inputs = record {
      at = λ s.
          go s (check_uniqueness lower dto.username s.world)
            ((uniqueness-Advances rules lower dto.username).at s.world);
    }
      where
        go :
            (s : OtpState K) (o : Result {0} Unit × World)
            → R s.world.db o.1.db
            → R s.world.db
                (elim o.0 as (λ r. Result Response × OtpState K) [
                  | ok done ↦
                      respond
                        (create_user crypto config policy lower named guard
                          (registration_of dto)
                          inputs)
                        created_response
                        registration_error
                        (record s { world = o.1 })
                  | thrown (username_conflict username) ↦
                      (ok (unavailable_response username), record s { world = o.1 })
                  | thrown e ↦ (thrown e, record s { world = o.1 })
                ]).1.world.db
        go s (ok done, w) moved = order.transitive s.world.db w.db _ moved (
            (Moves-respond order _ created_response registration_error
                (create_user-Moves (registration_of dto) inputs)).at
              (record s { world = w }))
        go s (thrown (username_conflict username), w) moved = moved
        go s (thrown e, w) moved = moved

    check_formats-Moves :
        (dto : RegistrationRequestDto) (inputs : RegistrationInputs)
        → Moves R K (check_formats crypto config policy lower named guard dto inputs)
    unfolding check_formats
    check_formats-Moves dto inputs = go (validate_format dto.email_address)
      where
        go :
            (r : Result Bool)
            → Moves R K (elim r as (λ x. Exec (OtpState K) Response) [
              | thrown (validation_error error code) ↦ pure (invalid_response (email_error error))
              | thrown e ↦ throw e
              | ok accepted ↦
                  if (evaluate (text_or_empty dto.password) policy).valid
                  then claim_username crypto config policy lower named guard dto inputs
                  else pure
                      (policy_response (evaluate (text_or_empty dto.password) policy).violations)
            ])
        go (thrown (validation_error error code)) = Moves-pure order _
        go (thrown e) = Moves-throw order e
        go (ok accepted) =
            Moves-if (evaluate (text_or_empty dto.password) policy).valid _ _
              (claim_username-Moves dto inputs)
              (Moves-pure order
                (policy_response (evaluate (text_or_empty dto.password) policy).violations))

    pub post_registration-Moves :
        (body : RegistrationBody) (inputs : RegistrationInputs)
        → Moves R K (post_registration crypto config policy lower named guard body inputs)
    unfolding post_registration
    post_registration-Moves body inputs = Moves-bind order _ _ (read_body-Moves body) (λ dto.
        Moves-if (validate dto).is_valid _ _ (check_formats-Moves dto inputs)
          (Moves-pure order (invalid_response (validate dto).field_errors)))
