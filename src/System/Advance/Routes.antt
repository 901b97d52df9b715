-- ===== src/System/Advance/Routes.antt =====
-- The handler of every route but registration.
use test_specs_to_code.Controllers.UserProfileController.{profile_error, profile_response}
use test_specs_to_code.Common.{ltb}
use test_specs_to_code.Common.{◌==◌}
use test_specs_to_code.Common.Text.{length_of, trim}
use test_specs_to_code.Controllers.ActivationController.{max_token_length, post_activate}
use test_specs_to_code.Controllers.AdminController.{
  admin_refusal, post_resend, require_admin_bearer_token,
}
use test_specs_to_code.Controllers.AuthController.{logout_token, post_login, post_logout}
use test_specs_to_code.Controllers.DeletionController.{
  delete_deletion, post_confirmation, post_deletion,
}
use test_specs_to_code.Controllers.OtpController.{post_verify}
use test_specs_to_code.Controllers.PasswordController.{post_recovery, post_reset}
use test_specs_to_code.Controllers.UserProfileController.{get_me}
use test_specs_to_code.Http.{Field, Response, filled, nonempty}
use test_specs_to_code.Middleware.{
  Answer, after_prefix, bearer_prefix, check_token, passed, refused, result_answer,
  session_validation_middleware,
}
use test_specs_to_code.Model.{
  Advances-query, Advances-require, Exec, World, message, user_not_found,
}
use test_specs_to_code.Repositories.SessionRepository.{count_active_for_user}
use test_specs_to_code.Repositories.UserRepository.{find_by_id}
use test_specs_to_code.Services.AccountDeletionService.{AccountDeletionConfig}
use test_specs_to_code.Services.AuthService.{LoginInputs}
use test_specs_to_code.Services.LoginGuard.{LockoutConfig}
use test_specs_to_code.Services.PasswordRecoveryService.{RecoveryConfig}
use test_specs_to_code.Services.UserProfileService.{get_profile}
use test_specs_to_code.System.{after_session, require_session}
use test_specs_to_code.Validators.PasswordPolicy.{PasswordPolicy}
use test_specs_to_code.Common.{ℕ, String, Option, none, some}
use test_specs_to_code.Model.{
  Crypto, Db, Advances, Advances-pure, Advances-bind, Advances-then, Advances-if, Advances-option,
}
use test_specs_to_code.System.Rules.{Rules}
use test_specs_to_code.System.Advance.Sessions.{
  login-Advances, validate-Advances, logout-Advances, recovery-Advances, reset-Advances,
  cancel-Advances,
}
use test_specs_to_code.System.Advance.Accounts.{confirm-Advances, resend-Advances}
use test_specs_to_code.System.Advance.Moves.{Advances-respond}

module _ {R : Db → Db → Type 0} (rules : Rules R) where
  open rules use {order}

  pub post_activate-Advances :
      (token : Field) (now activated_at : ℕ) → Advances R (post_activate token now activated_at)
  unfolding post_activate
  post_activate-Advances token now activated_at =
      Advances-option (filled token) _ _ (Advances-pure order _) (λ raw.
        Advances-if (ltb max_token_length (length_of raw)) _ _ (Advances-pure order _)
          (Advances-respond _ _ _ (rules.activated (trim raw) now activated_at)))

  pub post_resend-Advances :
      (admin_bearer_token : String) (header : Option String) (user_id record_id : String) (now : ℕ)
      → Advances R
          (require_admin_bearer_token admin_bearer_token header (post_resend user_id record_id now))
  unfolding require_admin_bearer_token post_resend
  post_resend-Advances admin_bearer_token header user_id record_id now =
      Advances-option (admin_refusal admin_bearer_token header) _ _
        (Advances-if (trim user_id == "") _ _ (Advances-pure order _)
          (Advances-respond _ _ _ (resend-Advances rules (trim user_id) record_id now)))
        (λ r. Advances-pure order r)

  pub post_verify-Advances :
      (crypto : Crypto) (iso : ℕ → String) (user_id passcode : Field) (checked_at activated_at : ℕ)
      → Advances R (post_verify crypto iso user_id passcode checked_at activated_at)
  unfolding post_verify
  post_verify-Advances crypto iso user_id passcode checked_at activated_at =
      Advances-option (filled user_id) _ _ (Advances-pure order _) (λ id.
        Advances-option (filled passcode) _ _ (Advances-pure order _) (λ code.
          Advances-respond _ _ _
            (rules.code_verified crypto (trim id) (trim code) checked_at activated_at)))

  pub post_login-Advances :
      (iso : ℕ → String) (crypto : Crypto) (lockout : LockoutConfig) (expiry_seconds : ℕ)
      (email password : Field) (inputs : LoginInputs)
      → Advances R (post_login iso crypto lockout expiry_seconds email password inputs)
  unfolding post_login
  post_login-Advances iso crypto lockout expiry_seconds email password inputs =
      Advances-option (filled email) _ _ (Advances-pure order _) (λ e.
        Advances-option (nonempty password) _ _ (Advances-pure order _) (λ p.
          Advances-respond _ _ _
            (login-Advances rules crypto lockout expiry_seconds (trim e) p inputs)))

  logout_token-Advances :
      (crypto : Crypto) (raw_token : String) (now closed_at : ℕ)
      → Advances R (logout_token crypto raw_token now closed_at)
  unfolding logout_token
  logout_token-Advances crypto raw_token now closed_at =
      Advances-if (raw_token == "") _ _ (Advances-pure order _) (
        Advances-then order _ _ (logout-Advances rules crypto raw_token now closed_at)
          (Advances-pure order _))

  pub post_logout-Advances :
      (crypto : Crypto) (header : Option String) (now closed_at : ℕ)
      → Advances R (post_logout crypto header now closed_at)
  unfolding post_logout
  post_logout-Advances crypto none now closed_at = Advances-pure order _
  post_logout-Advances crypto (some authorization) now closed_at =
      Advances-if (authorization == "") _ _ (Advances-pure order _) (
        Advances-option (after_prefix bearer_prefix authorization) _ _ (Advances-pure order _)
          (λ rest. logout_token-Advances crypto (trim rest) now closed_at))

  pub post_recovery-Advances :
      (config : RecoveryConfig) (email : Field) (token id : String) (requested_at : ℕ)
      → Advances R (post_recovery config email token id requested_at)
  unfolding post_recovery
  post_recovery-Advances config email token id requested_at =
      Advances-option (filled email) _ _ (Advances-pure order _) (λ e.
        Advances-respond _ _ _ (recovery-Advances rules config (trim e) token id requested_at))

  pub post_reset-Advances :
      (crypto : Crypto) (policy : PasswordPolicy) (recovery_token new_password : Field)
      (salt : String) (now : ℕ)
      → Advances R (post_reset crypto policy recovery_token new_password salt now)
  unfolding post_reset
  post_reset-Advances crypto policy recovery_token new_password salt now =
      Advances-option (filled recovery_token) _ _ (Advances-pure order _) (λ token.
        Advances-option (nonempty new_password) _ _ (Advances-pure order _) (λ password.
          Advances-respond _ _ _
            (reset-Advances rules crypto policy (trim token) password salt now)))

  check_token-Advances :
      (crypto : Crypto) (raw_token : String) (now swept_at : ℕ)
      → Advances R (check_token crypto raw_token now swept_at)
  unfolding check_token
  check_token-Advances crypto raw_token now swept_at =
      Advances-if (raw_token == "") _ _ (Advances-pure order _) (
        Advances-bind order _ _ (validate-Advances rules crypto raw_token now swept_at)
          (λ result. Advances-pure order (result_answer result)))

  middleware-Advances :
      (crypto : Crypto) (header : Option String) (now swept_at : ℕ)
      → Advances R (session_validation_middleware crypto header now swept_at)
  unfolding session_validation_middleware
  middleware-Advances crypto none now swept_at = Advances-pure order _
  middleware-Advances crypto (some authorization) now swept_at =
      Advances-if (authorization == "") _ _ (Advances-pure order _) (
        Advances-option (after_prefix bearer_prefix authorization) _ _ (Advances-pure order _)
          (λ rest. check_token-Advances crypto (trim rest) now swept_at))

  after_session-Advances :
      (next : String → Exec World Response)
      → ((user_id : String) → Advances R (next user_id))
      → (a : Answer) → Advances R (after_session next a)
  unfolding after_session
  after_session-Advances next inner (passed user_id) = inner user_id
  after_session-Advances next inner (refused status code message) = Advances-pure order _

  pub require_session-Advances :
      (crypto : Crypto) (header : Option String) (now swept_at : ℕ)
      (next : String → Exec World Response)
      → ((user_id : String) → Advances R (next user_id))
      → Advances R (require_session crypto header now swept_at next)
  unfolding require_session
  require_session-Advances crypto header now swept_at next inner =
      Advances-bind order _ _ (middleware-Advances crypto header now swept_at)
        (λ answer. after_session-Advances next inner answer)

  pub post_deletion-Advances :
      (crypto : Crypto) (config : AccountDeletionConfig) (user_id code id : String) (issued_at : ℕ)
      → Advances R (post_deletion crypto config user_id code id issued_at)
  unfolding post_deletion
  post_deletion-Advances crypto config user_id code id issued_at =
      Advances-respond _ _ _ (rules.deletion_requested crypto config user_id code id issued_at)

  pub delete_deletion-Advances :
      (user_id : String) (now : ℕ) → Advances R (delete_deletion user_id now)
  unfolding delete_deletion
  delete_deletion-Advances user_id now = Advances-respond _ _ _ (cancel-Advances rules user_id now)

  pub post_confirmation-Advances :
      (crypto : Crypto) (lower : String → String) (iso : ℕ → String) (user_id : String)
      (code : Field) (record_id : String) (now : ℕ)
      → Advances R (post_confirmation crypto lower iso user_id code record_id now)
  unfolding post_confirmation
  post_confirmation-Advances crypto lower iso user_id code record_id now =
      Advances-option (filled code) _ _ (Advances-pure order _)
        (λ c. Advances-respond _ _ _ (confirm-Advances rules crypto lower user_id c record_id now))

  profile-Advances : (user_id : String) (now : ℕ) → Advances R (get_profile user_id now)
  unfolding get_profile
  profile-Advances user_id now =
      Advances-bind order _ _ (Advances-query order (find_by_id user_id)) (λ found.
        Advances-bind order _ _ (Advances-require order found (user_not_found user_id)) (λ user.
          Advances-bind order _ _ (Advances-query order (count_active_for_user user_id now))
            (λ active_sessions. Advances-pure order (record {
              username = user.username;
              email = user.email;
              status = user.status;
              registration_timestamp = user.registration_timestamp;
              last_login_at = user.last_login_at;
              active_sessions = active_sessions;
            }))))

  pub get_me-Advances :
      (iso : ℕ → String) (user_id : String) (now : ℕ) → Advances R (get_me iso user_id now)
  unfolding get_me
  get_me-Advances iso user_id now =
      Advances-respond (get_profile user_id now) (profile_response iso) profile_error
        (profile-Advances user_id now)
