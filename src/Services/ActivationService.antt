-- ===== src/Services/ActivationService.antt =====
-- BACKEND/src/services/activation.service.ts
pub mod Activate
use test_specs_to_code.Common.{ℕ, String, Bool, not, Option, none, some, ltb}
use test_specs_to_code.Model.{
  AccountStatus, UserEntity, is_pending, status_text, token_not_found, token_expired,
  token_consumed, account_not_pending, Exec, World, pure, throw, require, throw_if, query, command,
  with_transaction, ◌>>=◌, ◌>>◌,
}
use test_specs_to_code.Repositories.UserRepository.{find_by_id, update_status}
use test_specs_to_code.Repositories.TokenRepository.{find_by_token_value, mark_consumed}

pub record ActivationResult : Type 0 where
  pub user_id : String
  pub activated_at : ℕ

-- `user === null || user.status !== 'pending'`
unfoldable pub require_pending : Option UserEntity → Exec World UserEntity
require_pending none = throw (account_not_pending "unknown")
require_pending (some user) = do
  throw_if (not (is_pending user.status)) (account_not_pending (status_text user.status))
  pure user

unfoldable pub activate : String → ℕ → ℕ → Exec World ActivationResult
unfolding require_pending
activate token_value now activated_at = do
  found ← query (find_by_token_value token_value)
  token ← require found token_not_found
  throw_if (ltb token.expires_at now) token_expired
  throw_if token.consumed token_consumed
  owner ← query (find_by_id token.user_id)
  user ← require_pending owner
  with_transaction (do
    command (update_status user.id AccountStatus.active activated_at)
    command (mark_consumed token.id activated_at))
  pure (record { user_id = user.id; activated_at = activated_at })
