-- ===== src/Services/SessionService/Lifecycle.antt =====
-- The life of a session: created, valid until it expires or is closed, and closed for good.
use test_specs_to_code.Common.{ℕ, ◌+◌, ◌*◌, ◌<◌, ◌≤◌, String, ◌≡◌, true, some, arith, eq_refl}
use test_specs_to_code.Table.Laws.{select_first-append}
use test_specs_to_code.Model.{UserEntity, is_active, ok, Crypto, World}
use test_specs_to_code.Repositories.UserRepository.{find_by_id}
use test_specs_to_code.Repositories.SessionRepository.{
  new_session, insert_session, session_violations, find_by_token_hash, has_token_hash,
}
use test_specs_to_code.Services.SessionService.{
  LoginResult, valid, invalid, expired, create_session, validate_session,
}

module _ (crypto : Crypto) where
  pub create_session-find :
      (expiry_seconds : ℕ) (user_id raw_token id : String) (created_at : ℕ) (w w' : World)
      (r : LoginResult)
      → create_session crypto expiry_seconds user_id raw_token id created_at w ≡ (ok r, w')
      → find_by_token_hash (crypto.hash_token raw_token) w'.db
        ≡ some (new_session id user_id (crypto.hash_token raw_token) created_at r.expires_at)
  unfolding create_session session_violations insert_session find_by_token_hash
  create_session-find expiry_seconds user_id raw_token id created_at w w' r e = ground (
    arith,
    eq_refl (crypto.hash_token raw_token),
    select_first-append (has_token_hash (crypto.hash_token raw_token))
        (new_session id user_id (crypto.hash_token raw_token) created_at r.expires_at)
        w.db.sessions,
  )

  -- A session that was created for an active account is valid until it expires: the token that
  -- createSession returned is answered with the owner's id, and the check writes nothing.
  pub create_session-validate :
      (expiry_seconds : ℕ) (user_id raw_token id : String) (created_at now swept_at : ℕ)
      (w w' : World) (r : LoginResult) (u : UserEntity)
      → create_session crypto expiry_seconds user_id raw_token id created_at w ≡ (ok r, w')
      → find_by_id user_id w'.db ≡ some u
      → is_active u.status ≡ true
      → now < r.expires_at
      → validate_session crypto raw_token now swept_at w' ≡ (ok (valid user_id), w')
  unfolding validate_session
  create_session-validate expiry_seconds user_id raw_token id created_at now swept_at w w' r u e
        found active early =
      ground (arith, create_session-find expiry_seconds user_id raw_token id created_at w w' r e)

  -- From the moment at which it expires, the session that was created is answered EXPIRED.
  pub create_session-expires :
      (expiry_seconds : ℕ) (user_id raw_token id : String) (created_at now swept_at : ℕ)
      (w w' : World) (r : LoginResult)
      → create_session crypto expiry_seconds user_id raw_token id created_at w ≡ (ok r, w')
      → created_at + expiry_seconds * 1000 ≤ now
      → validate_session crypto raw_token now swept_at w' ≡ (ok (invalid expired), w')
  unfolding validate_session create_session
  create_session-expires expiry_seconds user_id raw_token id created_at now swept_at w w' r e late =
      ground (arith, create_session-find expiry_seconds user_id raw_token id created_at w w' r e)
