-- ===== src/Services/LoginGuard.antt =====
-- BACKEND/src/services/login-guard.ts
use test_specs_to_code.Common.{ℕ, ◌+◌, ◌*◌, none, some, ltb, leb, if◌then◌else◌}
use test_specs_to_code.Model.{UserEntity, account_locked, Exec, World, pure, throw, command, ◌>>◌}
use test_specs_to_code.Repositories.UserRepository.{
  increment_failed_login_count, reset_failed_login_count, lock_account,
}

-- BACKEND/src/config/lockout.config.ts
pub record LockoutConfig : Type 0 where
  pub login_lockout_threshold : ℕ
  pub login_lockout_duration_minutes : ℕ

unfoldable pub check_lockout : UserEntity → ℕ → Exec World Unit
check_lockout user now = elim user.locked_until [
  | none ↦ pure tt
  | some locked_until ↦
      if ltb now locked_until then throw (account_locked locked_until) else pure tt
]

-- The count is that of the row as `login` read it.
unfoldable pub register_failure : LockoutConfig → UserEntity → ℕ → Exec World Unit
register_failure config user now = do
  command (increment_failed_login_count user.id)
  let locked_until = now + config.login_lockout_duration_minutes * 60 * 1000
  if leb config.login_lockout_threshold (user.failed_login_count + 1)
      then (do
        command (lock_account user.id locked_until)
        command (reset_failed_login_count user.id))
      else pure tt
