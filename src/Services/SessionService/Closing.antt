-- ===== src/Services/SessionService/Closing.antt =====
-- Logout and the closing of all sessions of an account.
use mathlib.Core.Option
use test_specs_to_code.Common.{
  ℕ, ◌≤◌, String, ◌≡◌, ◌≢◌, true, arith, eq_refl, Option-cases, ◌==◌, ◌&&◌, refl, inl, inr, ltb,
  if◌then◌else◌,
}
use test_specs_to_code.Table.Laws.{select_first-update, count_where-update_all}
use test_specs_to_code.Model.{ok, Crypto, World}
use test_specs_to_code.Repositories.SessionRepository.{
  find_by_token_hash, has_id, has_token_hash, is_open_for, mark_invalidated, invalidated_session,
  invalidate_all_for_user, count_active_for_user,
}
use test_specs_to_code.Services.SessionService.{valid, validate_session, invalidate_session}

module _ (crypto : Crypto) where
  pub find-mark_invalidated :
      (id token_hash : String) (at : ℕ) (w : World)
      → find_by_token_hash token_hash (mark_invalidated id at w.db)
        ≡ Option.map
            (λ s. if s.id == id then invalidated_session at s else s)
            (find_by_token_hash token_hash w.db)
  unfolding find_by_token_hash mark_invalidated
  find-mark_invalidated id token_hash at w =
      select_first-update (has_token_hash token_hash) (has_id id) (invalidated_session at)
        w.db.sessions (λ r. refl)

  -- Logout is final: whatever the token, and whatever logout answered, a check of the token at the
  -- same time or later does not find a valid session.
  pub invalidate_session-final :
      (raw_token : String) (t closed_at now swept_at : ℕ) (w : World) (user_id : String)
      → t ≤ now
      → (validate_session crypto raw_token now swept_at
          (invalidate_session crypto raw_token t closed_at w).1).0
        ≢ ok (valid user_id)
  unfolding validate_session invalidate_session
  invalidate_session-final raw_token t closed_at now swept_at w user_id later e =
      elim (Option-cases (find_by_token_hash (crypto.hash_token raw_token) w.db)) [
        | inl missing ↦ ground arith
        | inr (s, found) ↦ ground (
          arith,
          eq_refl s.id,
          find-mark_invalidated s.id (crypto.hash_token raw_token) closed_at w,
        )
      ]

  -- Logout can be repeated: a second one at the same time or later answers that the session was
  -- already terminated, and changes nothing.
  pub invalidate_session-again :
      (raw_token : String) (t closed_at now closed_again : ℕ) (w : World)
      → t ≤ now
      → (let w' = (invalidate_session crypto raw_token t closed_at w).1 in
          invalidate_session crypto raw_token now closed_again w'
          ≡ (ok (record { already_terminated = true }), w'))
  unfolding invalidate_session
  invalidate_session-again raw_token t closed_at now closed_again w later =
      elim (Option-cases (find_by_token_hash (crypto.hash_token raw_token) w.db)) [
        | inl missing ↦ ground arith
        | inr (s, found) ↦ ground (
          arith,
          eq_refl s.id,
          find-mark_invalidated s.id (crypto.hash_token raw_token) closed_at w,
        )
      ]

-- Once all sessions of an account are closed none of them counts as active, at any time.
pub invalidate_all-count :
    (user_id : String) (at now : ℕ) (w : World)
    → count_active_for_user user_id now (invalidate_all_for_user user_id at w.db) ≡ 0
unfolding count_active_for_user invalidate_all_for_user
invalidate_all-count user_id at now w =
    count_where-update_all (λ s. is_open_for user_id s && ltb now s.expires_at)
      (is_open_for user_id) (invalidated_session at) w.db.sessions (λ r h. ground arith)
      (λ r. ground arith)

-- Closing the sessions of an account closes its rows and leaves every other row as it is.
pub find-invalidate_all :
    (user_id token_hash : String) (at : ℕ) (w : World)
    → find_by_token_hash token_hash (invalidate_all_for_user user_id at w.db)
      ≡ Option.map
          (λ s. if is_open_for user_id s then invalidated_session at s else s)
          (find_by_token_hash token_hash w.db)
unfolding find_by_token_hash invalidate_all_for_user
find-invalidate_all user_id token_hash at w =
    select_first-update (has_token_hash token_hash) (is_open_for user_id) (invalidated_session at)
      w.db.sessions (λ r. refl)
