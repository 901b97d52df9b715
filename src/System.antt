-- ===== src/System.antt =====
-- The whole backend as one state machine: the routes of BACKEND/src/app.ts and
-- BACKEND/src/routes, the ticks of the two workers, and the second halves of the handlers that wait
-- for bcrypt.
pub mod Rules
pub mod Advance
pub mod Lifecycle
pub mod Invariants
pub mod Refusals
pub mod Answers
use test_specs_to_code.Common.{ℕ, String, Bool, Option, List, [], ◌∷◌}
use test_specs_to_code.Model.{
  UserEntity, PasswordRecoveryRequestEntity, Constraint, Crypto, Exec, World, ok, thrown, pure,
  ◌>>=◌,
}
use test_specs_to_code.Http.{Field, Response, error_response, coded_response, respond}
use test_specs_to_code.Middleware.{Answer, passed, refused, session_validation_middleware}
use test_specs_to_code.Validators.PasswordPolicy.{PasswordPolicy}
use test_specs_to_code.Services.LoginGuard.{LockoutConfig}
use test_specs_to_code.Services.RegistrationService.{Registration}
use test_specs_to_code.Services.AuthService.{LoginInputs, finish_login}
use test_specs_to_code.Services.PasswordRecoveryService.{RecoveryConfig, commit_reset}
use test_specs_to_code.Services.AccountDeletionService.{AccountDeletionConfig}
use test_specs_to_code.Services.RateLimitGuard.{RateLimitGuard}
use test_specs_to_code.Services.OtpService.{OtpConfig, OtpInputs, OtpState, within}
use test_specs_to_code.Workers.OutboxWorker.{OutboxConfig, process_queued_records}
use test_specs_to_code.Workers.AccountDeletionNotificationWorker.{process_queued_notices}
use test_specs_to_code.Controllers.RegistrationController.{
  RegistrationBody, RegistrationInputs, post_registration, create_user, created_response,
  registration_error,
}
use test_specs_to_code.Controllers.AuthController.{post_login, post_logout}
use test_specs_to_code.Controllers.OtpController.{post_otp, post_verify}
use test_specs_to_code.Controllers.DeletionController.{
  post_deletion, delete_deletion, post_confirmation,
}
use test_specs_to_code.Controllers.PasswordController.{post_recovery, post_reset}
use test_specs_to_code.Controllers.ActivationController.{post_activate}
use test_specs_to_code.Controllers.UserProfileController.{get_me}
use test_specs_to_code.Controllers.AdminController.{post_resend, require_admin_bearer_token}
use test_specs_to_code.Controllers.HealthController.{check}

-- What the server is built from: its configuration, and the code that is not its own.
pub record Setup (K : Type 0) : Type 0 where
  pub crypto : Crypto
  pub lower : String → String
  pub iso : ℕ → String
  pub named : List Constraint → Constraint
  pub guard : RateLimitGuard K
  pub policy : PasswordPolicy
  pub lockout : LockoutConfig
  pub expiry_seconds : ℕ
  pub otp : OtpConfig
  pub recovery : RecoveryConfig
  pub deletion : AccountDeletionConfig
  pub outbox : OutboxConfig
  pub admin_bearer_token : String

-- A route with what its handlers read: fields of the body, the authorization header, and the
-- clock, ids and codes that they draw.
pub data Request : Type 0 where
  register : RegistrationBody → RegistrationInputs → Request
  activate : Field → ℕ → ℕ → Request
  resend_confirmation : Option String → String → String → ℕ → Request
  send_otp : Field → OtpInputs → Request
  verify_otp : Field → Field → ℕ → ℕ → Request
  login : Field → Field → LoginInputs → Request
  logout : Option String → ℕ → ℕ → Request
  recover_password : Field → String → String → ℕ → Request
  reset_password : Field → Field → String → ℕ → Request
  request_deletion : Option String → ℕ → ℕ → String → String → ℕ → Request
  cancel_deletion : Option String → ℕ → ℕ → ℕ → Request
  confirm_deletion : Option String → ℕ → ℕ → Field → String → ℕ → Request
  profile : Option String → ℕ → ℕ → ℕ → Request
  health : Bool → Request
  unknown : Request

-- What follows the session middleware.
unfoldable pub after_session : (String → Exec World Response) → Answer → Exec World Response
after_session next (passed user_id) = next user_id
after_session next (refused status code message) =
    pure (coded_response status "error_code" code message)

-- `requireSession`, then the handler.
unfoldable pub require_session :
    Crypto → Option String → ℕ → ℕ → (String → Exec World Response) → Exec World Response
unfolding after_session
require_session crypto header now swept_at next = do
  answer ← session_validation_middleware crypto header now swept_at
  after_session next answer

module _ {K : Type 0} (setup : Setup K) where
  unfoldable pub handle : Request → Exec (OtpState K) Response
  unfolding require_session
  handle (register body inputs) =
      post_registration setup.crypto setup.otp setup.policy setup.lower setup.named setup.guard body
        inputs
  handle (activate token now activated_at) = within (post_activate token now activated_at)
  handle (resend_confirmation header user_id record_id now) = within (
      require_admin_bearer_token setup.admin_bearer_token header
        (post_resend user_id record_id now))
  handle (send_otp user_id inputs) = post_otp setup.crypto setup.otp setup.guard user_id inputs
  handle (verify_otp user_id passcode checked_at activated_at) =
      within (post_verify setup.crypto setup.iso user_id passcode checked_at activated_at)
  handle (login email password inputs) =
      within
        (post_login setup.iso setup.crypto setup.lockout setup.expiry_seconds email password inputs)
  handle (logout header now closed_at) = within (post_logout setup.crypto header now closed_at)
  handle (recover_password email token id requested_at) =
      within (post_recovery setup.recovery email token id requested_at)
  handle (reset_password token new_password salt now) =
      within (post_reset setup.crypto setup.policy token new_password salt now)
  handle (request_deletion header now swept_at code id issued_at) = within (
      require_session setup.crypto header now swept_at
        (λ user_id. post_deletion setup.crypto setup.deletion user_id code id issued_at))
  handle (cancel_deletion header now swept_at cancelled_at) = within (
      require_session setup.crypto header now swept_at
        (λ user_id. delete_deletion user_id cancelled_at))
  handle (confirm_deletion header now swept_at code record_id confirmed_at) = within (
      require_session setup.crypto header now swept_at (λ user_id.
        post_confirmation setup.crypto setup.lower setup.iso user_id code record_id confirmed_at))
  handle (profile header now swept_at counted_at) = within (
      require_session setup.crypto header now swept_at
        (λ user_id. get_me setup.iso user_id counted_at))
  handle (health reachable) = pure (check reachable)
  handle unknown = pure (error_response 404 "Not found.")

  -- One step of the server: a request, a tick of a worker, or what a login, a reset or a
  -- registration does after its wait for bcrypt, whatever it had read before. A registration waits
  -- before its INSERT, and its uniqueness check is behind it then.
  pub data Step (s : OtpState K) : OtpState K → Type 0 where
    request : (r : Request) → Step s (handle r s).1
    outbox_tick :
        (accepts : String → Bool)
        → Step s (within (process_queued_records setup.outbox accepts) s).1
    notice_tick :
        (max_retries : ℕ) (template_id : String) (accepts : String → Bool)
        → Step s (within (process_queued_notices max_retries template_id setup.iso accepts) s).1
    late_login :
        (user : UserEntity) (matches : Bool) (inputs : LoginInputs)
        → Step s
            (within
              (finish_login setup.crypto setup.lockout setup.expiry_seconds user matches inputs)
              s).1
    late_reset :
        (r : PasswordRecoveryRequestEntity) (hash : String) (now : ℕ)
        → Step s (within (commit_reset r hash now) s).1
    late_registration :
        (dto : Registration) (inputs : RegistrationInputs)
        → Step s
            (respond
              (create_user setup.crypto setup.otp setup.policy setup.lower setup.named setup.guard
                dto inputs)
              created_response
              registration_error
              s).1

  pub data Reach (s : OtpState K) : OtpState K → Type 0 where
    here : Reach s s
    next : {t u : OtpState K} → Reach s t → Step t u → Reach s u
