-- ===== src/Services/PasswordRecoveryService/Complete.antt =====
-- A recovery from the request to the new password.
use test_specs_to_code.Common.{ℕ, ◌+◌, ◌*◌, ◌≤◌, String, ◌≡◌, true, none, some, arith, eq_refl}
use test_specs_to_code.Table.{select_first}
use test_specs_to_code.Table.Laws.{select_first-append}
use test_specs_to_code.Model.{UserEntity, Crypto, World, ok}
use test_specs_to_code.Repositories.Constraints.{user_exists}
use test_specs_to_code.Repositories.UserRepository.{find_by_id, find_by_email}
use test_specs_to_code.Repositories.PasswordRecoveryRequestRepository.{
  has_id, has_token, find_by_token, new_recovery_request, insert_recovery_request,
  recovery_request_violations,
}
use test_specs_to_code.Services.PasswordRecoveryService.{
  RecoveryConfig, request_recovery, check_reset, commit_reset, reset_password,
}
use test_specs_to_code.Validators.PasswordPolicy.{PasswordPolicy, evaluate}

module _ (crypto : Crypto) (policy : PasswordPolicy) (config : RecoveryConfig) where
  -- When the token of a recovery expires that is requested at this time.
  abbrev pub expiry : ℕ → ℕ
  expiry requested_at = requested_at + config.token_expiry_hours * 60 * 60 * 1000

  request_recovery-find :
      (email token id : String) (requested_at : ℕ) (w : World) (u : UserEntity)
      → find_by_email email w.db ≡ some u
      → find_by_id u.id w.db ≡ some u
      → find_by_token token w.db ≡ none
      → select_first (has_id id) w.db.password_recovery_requests ≡ none
      → find_by_token token (request_recovery config email token id requested_at w).1.db
        ≡ some (new_recovery_request id u.id token requested_at (expiry requested_at))
  unfolding request_recovery find_by_token find_by_id user_exists insert_recovery_request
      recovery_request_violations
  request_recovery-find email token id requested_at w u listed owner fresh fresh_id = ground (
    arith,
    eq_refl token,
    select_first-append (has_token token)
        (new_recovery_request id u.id token requested_at (expiry requested_at))
        w.db.password_recovery_requests,
  )

  -- The token of a recovery that was requested for the email of an account, with a token and a row
  -- id that are not on file yet, resets the password: up to its expiry, a reset with it and a
  -- password that the policy accepts returns.
  pub request_recovery-reset :
      (email token id new_password salt : String) (requested_at now : ℕ) (w : World)
      (u : UserEntity)
      → find_by_email email w.db ≡ some u
      → find_by_id u.id w.db ≡ some u
      → find_by_token token w.db ≡ none
      → select_first (has_id id) w.db.password_recovery_requests ≡ none
      → (evaluate new_password policy).valid ≡ true
      → now ≤ expiry requested_at
      → (reset_password crypto policy token new_password salt now
          (request_recovery config email token id requested_at w).1).0
        ≡ ok tt
  unfolding reset_password check_reset commit_reset
  request_recovery-reset email token id new_password salt requested_at now w u listed owner fresh
        fresh_id accepted early =
      ground (
        arith,
        accepted,
        request_recovery-find email token id requested_at w u listed owner fresh fresh_id,
      )
