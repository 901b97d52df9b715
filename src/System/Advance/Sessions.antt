-- ===== src/System/Advance/Sessions.antt =====
-- Logins, sessions and password resets: the methods of AuthService, SessionService and
-- PasswordRecoveryService, and the cancellation of a deletion.
use test_specs_to_code.Model.{password_policy_violation}
use test_specs_to_code.Model.{token_expired}
use test_specs_to_code.Validators.PasswordPolicy.{evaluate}
use test_specs_to_code.Model.{deletion_request_not_found}
use test_specs_to_code.Model.{token_not_found}
use test_specs_to_code.Repositories.PasswordRecoveryRequestRepository.{
  new_recovery_request, insert_recovery_request, recovery_request_violations, find_by_token,
}
use test_specs_to_code.Repositories.DeletionRequestRepository.{find_pending_by_user_id}
use test_specs_to_code.Common.{◌*◌}
use test_specs_to_code.Common.{◌+◌}
use test_specs_to_code.Model.{status_text}
use test_specs_to_code.Services.SessionService.{invalidated}
use test_specs_to_code.Services.SessionService.{account_suspended}
use test_specs_to_code.Model.{account_not_active}
use test_specs_to_code.Model.{is_active}
use test_specs_to_code.Services.SessionService.{expired}
use test_specs_to_code.Model.{pure}
use test_specs_to_code.Services.PasswordRecoveryService.{recovery_mail}
use test_specs_to_code.Model.{invalid_credentials}
use test_specs_to_code.Model.{◌>>◌}
use test_specs_to_code.Services.SessionService.{valid}
use test_specs_to_code.Services.SessionService.{not_found}
use test_specs_to_code.Services.SessionService.{invalid}
use test_specs_to_code.Repositories.UserRepository.{set_password_hash}
use test_specs_to_code.Repositories.UserRepository.{find_by_id}
use test_specs_to_code.Repositories.UserRepository.{find_by_email}
use test_specs_to_code.Repositories.SessionRepository.{invalidate_all_for_user}
use test_specs_to_code.Common.{not}
use test_specs_to_code.Common.{◌≡◌}
use test_specs_to_code.Common.{ℕ, String, Bool, true, false, refl, ltb, leb, ◌||◌}
use test_specs_to_code.Model.{
  UserEntity, PasswordRecoveryRequestEntity, SessionEntity, DeletionStatus, Crypto, Db, command,
  Advances, Advances-pure, Advances-throw, Advances-require, Advances-throw_if, Advances-query,
  Advances-send, Advances-bind, Advances-then, Advances-with_transaction, Advances-rethrow_as,
  Advances-insert, Advances-command, Advances-if, Advances-option,
}
use test_specs_to_code.Repositories.SessionRepository.{find_by_token_hash}
use test_specs_to_code.Repositories.UserRepository.{
  increment_failed_login_count, reset_failed_login_count, lock_account, update_last_login_at,
  update_password_hash, update_user,
}
use test_specs_to_code.Services.LoginGuard.{LockoutConfig, check_lockout, register_failure}
use test_specs_to_code.Services.SessionService.{
  create_session, validate_owner, validate_session, invalidate_session,
}
use test_specs_to_code.Services.AuthService.{LoginInputs, find_account, finish_login, login}
use test_specs_to_code.Services.PasswordRecoveryService.{
  RecoveryConfig, request_recovery, check_reset, commit_reset, reset_password,
}
use test_specs_to_code.Services.AccountDeletionService.{cancel_deletion}
use test_specs_to_code.Validators.PasswordPolicy.{PasswordPolicy}
use test_specs_to_code.System.Rules.{Rules, IsLasting-same}

module _ {R : Db → Db → Type 0} (rules : Rules R) where
  open rules use {order}

  -- An update of one user that leaves the id and the status alone.
  user-Advances :
      (id : String) (f : UserEntity → UserEntity)
      → ((u : UserEntity) → (f u).id ≡ u.id)
      → ((u : UserEntity) → (f u).status ≡ u.status)
      → Advances R (command (update_user id f))
  user-Advances id f same_id same_status =
      Advances-command _ (λ db. rules.user id f db (IsLasting-same f same_id same_status))

  failure-Advances :
      (config : LockoutConfig) (user : UserEntity) (now : ℕ)
      → Advances R (register_failure config user now)
  unfolding register_failure increment_failed_login_count lock_account reset_failed_login_count
  failure-Advances config user now =
      Advances-then order _ _ (user-Advances _ _ (λ u. refl) (λ u. refl)) (
        Advances-if _ _ _
          (Advances-then order _ _ (user-Advances _ _ (λ u. refl) (λ u. refl))
            (user-Advances _ _ (λ u. refl) (λ u. refl)))
          (Advances-pure order tt))

  session-Advances :
      (crypto : Crypto) (expiry_seconds : ℕ) (user_id raw_token id : String) (created_at : ℕ)
      → Advances R (create_session crypto expiry_seconds user_id raw_token id created_at)
  unfolding create_session
  session-Advances crypto expiry_seconds user_id raw_token id created_at =
      Advances-then order _ _ (Advances-insert order _ _ (λ db clear. rules.new_session _ db))
        (Advances-pure order _)

  pub finish_login-Advances :
      (crypto : Crypto) (lockout : LockoutConfig) (expiry_seconds : ℕ) (user : UserEntity)
      (matches : Bool) (inputs : LoginInputs)
      → Advances R (finish_login crypto lockout expiry_seconds user matches inputs)
  unfolding finish_login reset_failed_login_count update_last_login_at
  finish_login-Advances crypto lockout expiry_seconds user matches inputs =
      Advances-if _ _ _
        (Advances-then order _ _ (user-Advances _ _ (λ u. refl) (λ u. refl)) (
          Advances-then order _ _ (user-Advances _ _ (λ u. refl) (λ u. refl))
            (Advances-rethrow_as order _ _ (session-Advances _ _ _ _ _ _))))
        (Advances-then order _ _ (failure-Advances _ _ _) (Advances-throw order _))

  lockout-Advances : (user : UserEntity) (now : ℕ) → Advances R (check_lockout user now)
  unfolding check_lockout
  lockout-Advances user now =
      Advances-option user.locked_until _ _ (Advances-pure order tt)
        (λ until. Advances-if _ _ _ (Advances-throw order _) (Advances-pure order tt))

  account-Advances : (email : String) (now : ℕ) → Advances R (find_account email now)
  unfolding find_account
  account-Advances email now =
      Advances-bind order _ _ (Advances-query order (find_by_email email)) (λ found.
        Advances-bind order _ _ (Advances-require order found invalid_credentials) (λ user.
          Advances-then order _ _ (lockout-Advances user now) (
            Advances-then order _ _
              (Advances-throw_if order (not (is_active user.status))
                (account_not_active (status_text user.status)))
              (Advances-pure order user))))

  pub login-Advances :
      (crypto : Crypto) (lockout : LockoutConfig) (expiry_seconds : ℕ) (email password : String)
      (inputs : LoginInputs)
      → Advances R (login crypto lockout expiry_seconds email password inputs)
  unfolding login
  login-Advances crypto lockout expiry_seconds email password inputs =
      Advances-bind order _ _ (account-Advances email inputs.checked_at) (λ user.
        finish_login-Advances crypto lockout expiry_seconds user
          (crypto.compare_password password user.password_hash) inputs)

  close_all-Advances :
      {A : Type 0} (user_id : String) (at : ℕ) (a : A)
      → Advances R (command (invalidate_all_for_user user_id at) >> pure a)
  close_all-Advances user_id at a =
      Advances-then order _ _ (Advances-command _ (λ db. rules.close_sessions user_id at db))
        (Advances-pure order a)

  owner-Advances :
      (crypto : Crypto) (session : SessionEntity) (swept_at : ℕ)
      → Advances R (validate_owner crypto session swept_at)
  unfolding validate_owner
  owner-Advances crypto session swept_at =
      Advances-bind order _ _ (Advances-query order (find_by_id session.user_id)) (λ user.
        Advances-option user _ _ (Advances-pure order (valid session.user_id)) (λ u.
          Advances-if (is_active u.status) _ _ (Advances-pure order (valid session.user_id))
            (close_all-Advances u.id swept_at (invalid account_suspended))))

  pub validate-Advances :
      (crypto : Crypto) (raw_token : String) (now swept_at : ℕ)
      → Advances R (validate_session crypto raw_token now swept_at)
  unfolding validate_session
  validate-Advances crypto raw_token now swept_at =
      Advances-bind order _ _
        (Advances-query order (find_by_token_hash (crypto.hash_token raw_token)))
        (λ found. Advances-option found _ _ (Advances-pure order (invalid not_found)) (λ session.
          Advances-if (leb session.expires_at now) _ _ (Advances-pure order (invalid expired)) (
            Advances-if session.invalidated _ _ (Advances-pure order (invalid invalidated))
              (owner-Advances crypto session swept_at))))

  pub logout-Advances :
      (crypto : Crypto) (raw_token : String) (now closed_at : ℕ)
      → Advances R (invalidate_session crypto raw_token now closed_at)
  unfolding invalidate_session
  logout-Advances crypto raw_token now closed_at =
      Advances-bind order _ _
        (Advances-query order (find_by_token_hash (crypto.hash_token raw_token)))
        (λ found.
          Advances-option found _ _ (Advances-pure order (record { already_terminated = true }))
            (λ session.
              Advances-if (session.invalidated || leb session.expires_at now) _ _
                (Advances-pure order (record { already_terminated = true }))
                (Advances-then order _ _
                  (Advances-command _ (λ db. rules.close_session session.id closed_at db))
                  (Advances-pure order (record { already_terminated = false })))))

  pub recovery-Advances :
      (config : RecoveryConfig) (email token id : String) (requested_at : ℕ)
      → Advances R (request_recovery config email token id requested_at)
  unfolding request_recovery
  recovery-Advances config email token id requested_at =
      Advances-bind order _ _ (Advances-query order (find_by_email email)) (λ found.
        Advances-option found _ _ (Advances-pure order tt) (λ user.
          let expires_at = requested_at + config.token_expiry_hours * 60 * 60 * 1000 in
          let row = new_recovery_request id user.id token requested_at expires_at in
          Advances-then order _ _
            (Advances-insert order (recovery_request_violations row) (insert_recovery_request row)
              (λ db clear. rules.new_recovery row db))
            (Advances-send order (recovery_mail config user token))))

  pub commit_reset-Advances :
      (request : PasswordRecoveryRequestEntity) (hash : String) (now : ℕ)
      → Advances R (commit_reset request hash now)
  unfolding commit_reset update_password_hash
  commit_reset-Advances request hash now = Advances-with_transaction order _ (
      Advances-then order _ _
        (user-Advances request.user_id (set_password_hash hash) (λ u. refl) (λ u. refl))
        (Advances-then order _ _ (Advances-command _ (λ db. rules.use_recovery request.id now db))
          (Advances-command _ (λ db. rules.close_sessions request.user_id now db))))

  check_reset-Advances :
      (crypto : Crypto) (policy : PasswordPolicy) (token new_password : String) (now : ℕ)
      → Advances R (check_reset crypto policy token new_password now)
  unfolding check_reset
  check_reset-Advances crypto policy token new_password now =
      Advances-bind order _ _ (Advances-query order (find_by_token token)) (λ found.
        Advances-bind order _ _ (Advances-require order found token_not_found) (λ request.
          let verdict = evaluate new_password policy in
          Advances-then order _ _
            (Advances-throw_if order (request.consumed || ltb request.expires_at now) token_expired)
            (Advances-then order _ _
              (Advances-throw_if order (not verdict.valid)
                (password_policy_violation verdict.violations))
              (Advances-pure order request))))

  pub reset-Advances :
      (crypto : Crypto) (policy : PasswordPolicy) (token new_password salt : String) (now : ℕ)
      → Advances R (reset_password crypto policy token new_password salt now)
  unfolding reset_password
  reset-Advances crypto policy token new_password salt now =
      Advances-bind order _ _ (check_reset-Advances crypto policy token new_password now)
        (λ request. commit_reset-Advances request (crypto.hash_password salt new_password) now)

  pub cancel-Advances : (user_id : String) (now : ℕ) → Advances R (cancel_deletion user_id now)
  unfolding cancel_deletion
  cancel-Advances user_id now =
      Advances-bind order _ _ (Advances-query order (find_pending_by_user_id user_id)) (λ found.
        Advances-bind order _ _ (Advances-require order found (deletion_request_not_found user_id))
          (λ request.
            Advances-command _
              (λ db. rules.settle request.id DeletionStatus.cancelled now db refl)))
