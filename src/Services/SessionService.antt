-- ===== src/Services/SessionService.antt =====
-- BACKEND/src/services/session.service.ts. Each `new Date()` that a method reads is an argument.
pub mod Lifecycle
pub mod Closing
pub mod Abstract
pub mod Refinement
use test_specs_to_code.Common.{
  ℕ, ◌+◌, ◌*◌, String, Bool, true, false, ◌||◌, Option, none, some, leb, if◌then◌else◌,
}
use test_specs_to_code.Model.{
  UserEntity, SessionEntity, is_active, Crypto, Exec, World, pure, query, command, insert, ◌>>=◌,
  ◌>>◌,
}
use test_specs_to_code.Repositories.UserRepository.{find_by_id}
use test_specs_to_code.Repositories.SessionRepository.{
  new_session, insert_session, session_violations, find_by_token_hash, mark_invalidated,
  invalidate_all_for_user,
}

pub data Reason : Type 0 where
  not_found expired invalidated account_suspended : Reason

pub data SessionValidationResult : Type 0 where
  valid : String → SessionValidationResult
  invalid : Reason → SessionValidationResult

pub record LogoutResult : Type 0 where
  pub already_terminated : Bool

-- What createSession returns: the raw token, which is stored nowhere, and its expiry.
pub record LoginResult : Type 0 where
  pub token : String
  pub expires_at : ℕ

module _ (crypto : Crypto) where
  -- `raw_token` is what generateRawToken drew and `id` the row's uuid.
  unfoldable pub create_session : ℕ → String → String → String → ℕ → Exec World LoginResult
  create_session expiry_seconds user_id raw_token id created_at = do
    let expires_at = created_at + expiry_seconds * 1000
    let row = new_session id user_id (crypto.hash_token raw_token) created_at expires_at
    insert (session_violations row) (insert_session row)
    pure (record { token = raw_token; expires_at = expires_at })

  -- The last step of validateSession: the account that owns the session. A status other than
  -- active closes all its sessions.
  unfoldable pub validate_owner : SessionEntity → ℕ → Exec World SessionValidationResult
  validate_owner session swept_at = do
    user ← query (find_by_id session.user_id)
    elim user [
      | none ↦ pure (valid session.user_id)
      | some u ↦
          if is_active u.status
          then pure (valid session.user_id)
          else do command (invalidate_all_for_user u.id swept_at); pure (invalid account_suspended)
    ]

  unfoldable pub validate_session : String → ℕ → ℕ → Exec World SessionValidationResult
  unfolding validate_owner
  validate_session raw_token now swept_at = do
    found ← query (find_by_token_hash (crypto.hash_token raw_token))
    elim found [
      | none ↦ pure (invalid not_found)
      | some session ↦
          if leb session.expires_at now
          then pure (invalid expired)
          else if session.invalidated
          then pure (invalid invalidated)
          else validate_owner session swept_at
    ]

  unfoldable pub invalidate_session : String → ℕ → ℕ → Exec World LogoutResult
  invalidate_session raw_token now closed_at = do
    found ← query (find_by_token_hash (crypto.hash_token raw_token))
    elim found [
      | none ↦ pure (record { already_terminated = true })
      | some session ↦
          if session.invalidated || leb session.expires_at now
          then pure (record { already_terminated = true })
          else do
            command (mark_invalidated session.id closed_at)
            pure (record { already_terminated = false })
    ]
