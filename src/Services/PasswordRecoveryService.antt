-- ===== src/Services/PasswordRecoveryService.antt =====
-- BACKEND/src/services/password-recovery.service.ts. `resetPassword` is two methods here, since
-- other requests can run while it waits for bcrypt: `check_reset` and `commit_reset`.
pub mod Reset
pub mod Complete
use Prim.Native.String
use test_specs_to_code.Common.{
  ℕ, ◌+◌, ◌*◌, String, Bool, not, ◌||◌, Option, none, some, [], ◌∷◌, ltb,
}
use test_specs_to_code.Model.{
  UserEntity, PasswordRecoveryRequestEntity, Mail, token_not_found, token_expired,
  password_policy_violation, Crypto, Exec, World, pure, require, throw_if, query, command, insert,
  send, with_transaction, ◌>>=◌, ◌>>◌,
}
use test_specs_to_code.Repositories.UserRepository.{find_by_email, update_password_hash}
use test_specs_to_code.Repositories.PasswordRecoveryRequestRepository.{
  new_recovery_request, insert_recovery_request, recovery_request_violations, find_by_token,
  mark_consumed,
}
use test_specs_to_code.Repositories.SessionRepository.{invalidate_all_for_user}
use test_specs_to_code.Validators.PasswordPolicy.{PasswordPolicy, evaluate}

-- The part of BACKEND/src/config/app.config.ts that the service reads.
pub record RecoveryConfig : Type 0 where
  pub token_expiry_hours : ℕ
  pub base_url : String
  pub email_template_id : String

abbrev pub recovery_mail : RecoveryConfig → UserEntity → String → Mail
recovery_mail config user token = record {
  address = user.email;
  name = user.username;
  subject = "Reset your password";
  template_id = config.email_template_id;
  template_vars =
      ("recoveryLink", String.◌++◌ config.base_url (String.◌++◌ "/reset-password?token=" token))
      ∷ ("displayName", user.username)
      ∷ [];
}

-- `token` is what randomBytes drew and `id` the row's uuid.
unfoldable pub request_recovery : RecoveryConfig → String → String → String → ℕ → Exec World Unit
request_recovery config email token id requested_at = do
  found ← query (find_by_email email)
  elim found [
    | none ↦ pure tt
    | some user ↦ do
      let expires_at = requested_at + config.token_expiry_hours * 60 * 60 * 1000
      let row = new_recovery_request id user.id token requested_at expires_at
      insert (recovery_request_violations row) (insert_recovery_request row)
      send (recovery_mail config user token)
  ]

-- Step 4, one transaction. `now` is the time that step 2 read.
unfoldable pub commit_reset : PasswordRecoveryRequestEntity → String → ℕ → Exec World Unit
commit_reset request new_password_hash now = with_transaction (do
  command (update_password_hash request.user_id new_password_hash)
  command (mark_consumed request.id now)
  command (invalidate_all_for_user request.user_id now))

module _ (crypto : Crypto) (policy : PasswordPolicy) where
  -- Steps 1 to 3: the token, its expiry and the password policy.
  unfoldable pub check_reset : String → String → ℕ → Exec World PasswordRecoveryRequestEntity
  check_reset recovery_token new_password now = do
    found ← query (find_by_token recovery_token)
    request ← require found token_not_found
    throw_if (request.consumed || ltb request.expires_at now) token_expired
    let result = evaluate new_password policy
    throw_if (not result.valid) (password_policy_violation result.violations)
    pure request

  unfoldable pub reset_password : String → String → String → ℕ → Exec World Unit
  unfolding check_reset commit_reset
  reset_password recovery_token new_password salt now = do
    request ← check_reset recovery_token new_password now
    commit_reset request (crypto.hash_password salt new_password) now
