-- ===== src/Services/AuthService.antt =====
-- BACKEND/src/services/auth.service.ts. `login` is two methods here, since other requests can run
-- while it waits for bcrypt: `find_account` reads and checks the row, `finish_login` goes on with
-- what bcrypt answered.
pub mod Outcomes
pub mod Lockout
use test_specs_to_code.Common.{ℕ, String, Bool, true, not, if◌then◌else◌}
use test_specs_to_code.Model.{
  UserEntity, is_active, status_text, invalid_credentials, account_not_active,
  session_creation_failed, Crypto, Exec, World, pure, throw, require, rethrow_as, throw_if, query,
  command, ◌>>=◌, ◌>>◌,
}
use test_specs_to_code.Repositories.UserRepository.{
  find_by_email, reset_failed_login_count, update_last_login_at,
}
use test_specs_to_code.Services.LoginGuard.{LockoutConfig, check_lockout, register_failure}
use test_specs_to_code.Services.SessionService.{LoginResult, create_session}

-- What one call of `login` reads from its surroundings: the clock, the session's token and its id.
pub record LoginInputs : Type 0 where
  pub checked_at : ℕ
  pub failed_at : ℕ
  pub logged_in_at : ℕ
  pub created_at : ℕ
  pub raw_token : String
  pub session_id : String

-- Steps 1 to 3: the account, its lockout and its status.
unfoldable pub find_account : String → ℕ → Exec World UserEntity
find_account email now = do
  found ← query (find_by_email email)
  user ← require found invalid_credentials
  check_lockout user now
  throw_if (not (is_active user.status)) (account_not_active (status_text user.status))
  pure user

module _ (crypto : Crypto) (lockout : LockoutConfig) (expiry_seconds : ℕ) where
  -- Steps 5 to 7, after the comparison of step 4.
  unfoldable pub finish_login : UserEntity → Bool → LoginInputs → Exec World LoginResult
  finish_login user matches inputs =
      if matches
      then (do
        command (reset_failed_login_count user.id)
        command (update_last_login_at user.id inputs.logged_in_at)
        rethrow_as session_creation_failed (
            create_session crypto expiry_seconds user.id inputs.raw_token inputs.session_id
              inputs.created_at))
      else (do register_failure lockout user inputs.failed_at; throw invalid_credentials)

  unfoldable pub login : String → String → LoginInputs → Exec World LoginResult
  unfolding find_account finish_login
  login email password inputs = do
    user ← find_account email inputs.checked_at
    finish_login user (crypto.compare_password password user.password_hash) inputs
