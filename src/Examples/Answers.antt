-- ===== src/Examples/Answers.antt =====
-- Answers of the server: registrations that can and cannot be read, a recovery link for an account
-- that does not exist, and a profile.
use test_specs_to_code.Model.{message, deletion_request_not_found}
use test_specs_to_code.Repositories.DeletionRequestRepository.{find_pending_by_user_id}
use test_specs_to_code.Services.AccountDeletionService.{cancel_deletion}
use test_specs_to_code.Repositories.UserRepository.{find_by_id}
use test_specs_to_code.Table.{append_row}
use test_specs_to_code.Repositories.SessionRepository.{insert_session}
use test_specs_to_code.Repositories.Constraints.{user_exists}
use test_specs_to_code.Repositories.SessionRepository.{session_violations}
use test_specs_to_code.Services.SessionService.{create_session}
use test_specs_to_code.Repositories.SessionRepository.{find_by_token_hash}
use test_specs_to_code.Common.Text.{trim}
use test_specs_to_code.Controllers.ActivationController.{activation_error}
use test_specs_to_code.Controllers.AdminController.{resend_error}
use test_specs_to_code.Controllers.AuthController.{login_error}
use test_specs_to_code.Controllers.DeletionController.{cancel_error, delete_deletion, request_error}
use test_specs_to_code.Controllers.PasswordController.{post_recovery, reset_error}
use test_specs_to_code.Controllers.RegistrationController.{
  RegistrationBody, RegistrationInputs, post_registration,
}
use test_specs_to_code.Controllers.UserProfileController.{profile_error}
use test_specs_to_code.Http.{Field, coded_response}
use test_specs_to_code.Middleware.{after_prefix, bearer_prefix, session_validation_middleware}
use test_specs_to_code.Middleware.ErrorHandler.{translation}
use test_specs_to_code.Model.{Result, foreign_key}
use test_specs_to_code.Services.SessionService.{valid, validate_session}
use test_specs_to_code.Common.{String, ◌≡◌, ◌⊎◌, refl, some, arith}
use test_specs_to_code.Table.{select_first}
use test_specs_to_code.Http.{Response, text}
use test_specs_to_code.Model.{World, ok, thrown, type_error, token_expired}
use test_specs_to_code.System.{handle, require_session, register}
use test_specs_to_code.System.Answers.Routes.{handle-answers}
use test_specs_to_code.System.Answers.Registering.{post_registration-rejects}
use test_specs_to_code.System.Answers.Guards.{require_session-admits, post_recovery-uniform}
use test_specs_to_code.Middleware.ErrorHandler.Agreement.{translation-agrees}
use test_specs_to_code.Examples.Fixtures.{
  demo_crypto, start, default_policy, recovery, one_time_codes,
}
use test_specs_to_code.Examples.Sessions.{with_session}
use test_specs_to_code.Examples.Codes.{three_requests, inputs}
use test_specs_to_code.Examples.Runs.{demo_setup, at_world}

abbrev pub carol_body : RegistrationBody
carol_body = record {
  username = text "Carol";
  email_address = text "carol@example.com";
  password = text "Chang3d-it";
  password_confirmation = text "Chang3d-it";
}

-- { "username": 7, ... }
abbrev pub numeric_body : RegistrationBody
numeric_body = record carol_body { username = Field.other }

abbrev pub drawn : RegistrationInputs
drawn = record { salt = "salt"; user_id = "u3"; now = 1000; otp = inputs }

handle-answers_example :
    (a : Response) × ((handle demo_setup (register carol_body drawn) (at_world start)).0 ≡ ok a)
handle-answers_example = handle-answers demo_setup (register carol_body drawn) (at_world start) refl

post_registration-rejects_example :
    post_registration demo_crypto one_time_codes default_policy
      (λ s. s)
      (λ cs. foreign_key)
      three_requests
      numeric_body
      drawn
      (at_world start)
    ≡ (thrown type_error, at_world start)
post_registration-rejects_example =
    post_registration-rejects demo_crypto one_time_codes default_policy (λ s. s) (λ cs. foreign_key)
      three_requests numeric_body drawn (at_world start) refl

post_recovery-uniform_example :
    (post_recovery recovery (text "alice@example.com") "recover" "r1" 1000 start).0
    ≡ (post_recovery recovery (text "alice@example.com") "recover" "r2" 1001 with_session).0
post_recovery-uniform_example =
    post_recovery-uniform recovery (text "alice@example.com") "recover" "r1" "recover" "r2" 1000
      1001 start with_session

abbrev pub error_404 : Response
error_404 =
    coded_response 404 "error_code" "DELETION_REQUEST_NOT_FOUND"
      (message (deletion_request_not_found "u1"))

abbrev pub cancelled : Result Response × World
cancelled =
    require_session demo_crypto (some "Bearer token") 2000 2000
      (λ user_id. delete_deletion user_id 2001) with_session

require_session-admits_example :
    (authorization : String) × (rest : String) × (user_id : String) × (some "Bearer token"
      ≡ some authorization)
    × (after_prefix bearer_prefix authorization ≡ some rest)
    × ((validate_session demo_crypto (trim rest) 2000 2000 with_session).0 ≡ ok (valid user_id))
    × (delete_deletion user_id 2001
          (session_validation_middleware demo_crypto (some "Bearer token") 2000 2000 with_session).1
        ≡ (ok (error_404), cancelled.1))
unfolding require_session session_validation_middleware trim validate_session find_by_token_hash
    select_first create_session session_violations user_exists insert_session append_row find_by_id
    delete_deletion cancel_deletion find_pending_by_user_id
require_session-admits_example =
    require_session-admits demo_crypto (some "Bearer token") 2000 2000
      (λ user_id. delete_deletion user_id 2001) with_session cancelled.1 error_404 refl
      (λ e. absurd (ground arith)) (λ e. absurd (ground arith))

translation-agrees_example :
    (((login_error (λ t. "a date") token_expired).status ≡ 500)
      ⊎ ((login_error (λ t. "a date") token_expired).status
          ≡ (translation (λ t. "a date") token_expired).status))
    × (((activation_error token_expired).status ≡ 500)
        ⊎ ((activation_error token_expired).status
            ≡ (translation (λ t. "a date") token_expired).status))
    × (((reset_error token_expired).status ≡ 500)
        ⊎ ((reset_error token_expired).status ≡ (translation (λ t. "a date") token_expired).status))
    × (((resend_error token_expired).status ≡ 500)
        ⊎ ((resend_error token_expired).status
            ≡ (translation (λ t. "a date") token_expired).status))
    × (((profile_error token_expired).status ≡ 500)
        ⊎ ((profile_error token_expired).status
            ≡ (translation (λ t. "a date") token_expired).status))
    × (((request_error token_expired).status ≡ 500)
        ⊎ ((request_error token_expired).status
            ≡ (translation (λ t. "a date") token_expired).status))
    × (((cancel_error token_expired).status ≡ 500)
        ⊎ ((cancel_error token_expired).status
            ≡ (translation (λ t. "a date") token_expired).status))
translation-agrees_example = translation-agrees (λ t. "a date") token_expired
