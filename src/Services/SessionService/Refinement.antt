-- ===== src/Services/SessionService/Refinement.antt =====
-- The methods of session.service.ts beside the operations on the map of tickets.
use test_specs_to_code.Common.{◌≤◌}
use test_specs_to_code.Services.SessionService.Abstract.{after_logout}
use test_specs_to_code.Table.{count_where}
use test_specs_to_code.Table.Laws.{select_first_unique}
use test_specs_to_code.Common.{◌*◌, ◌+◌}
use test_specs_to_code.Repositories.SessionRepository.{new_session}
use test_specs_to_code.Common.{ℕ, String, ◌≡◌, some, arith, eq_iff, eq_refl, Option-cases, inl, inr}
use test_specs_to_code.Table.Laws.{select_first-append, select_first-holds}
use test_specs_to_code.Model.{SessionEntity, Crypto, World, Db, ok}
use test_specs_to_code.Repositories.SessionRepository.{
  find_by_token_hash, has_id, has_token_hash, insert_session, session_violations,
}
use test_specs_to_code.Repositories.UserRepository.{find_by_id}
use test_specs_to_code.Services.SessionService.{
  LoginResult, create_session, validate_session, validate_owner, invalidate_session,
}
use test_specs_to_code.Services.SessionService.Closing.{find-mark_invalidated, find-invalidate_all}
use test_specs_to_code.Services.SessionService.Abstract.{
  view, open_ticket, logout_answer, check_answer, after_check,
}

module _ (crypto : Crypto) where
  -- When a session is created, the map that the database stands for, from the hash of a token to
  -- the owner, the expiry and whether the session is closed, gains an open ticket under the hash of
  -- the new token, and every other ticket is as it was.
  pub create_session-opens :
      (expiry_seconds : ℕ) (user_id raw_token id k : String) (created_at : ℕ) (w w' : World)
      (r : LoginResult)
      → create_session crypto expiry_seconds user_id raw_token id created_at w ≡ (ok r, w')
      → view w'.db k ≡ open_ticket (crypto.hash_token raw_token) user_id r.expires_at (view w.db) k
  unfolding create_session session_violations insert_session find_by_token_hash
  create_session-opens expiry_seconds user_id raw_token id k created_at w w' r e =
      let row =
        new_session id user_id (crypto.hash_token raw_token) created_at
          (created_at + expiry_seconds * 1000) in
      ground (
        arith,
        eq_iff k (crypto.hash_token raw_token),
        eq_iff (crypto.hash_token raw_token) k,
        select_first-append (has_token_hash k) row w.db.sessions,
      )

  -- A check of a token answers what the abstract check answers for the ticket under the token's
  -- hash, and the map that the database stands for afterwards is the one the abstract check leaves.
  pub validate_session-refines :
      (raw_token k : String) (now swept_at : ℕ) (w : World)
      → ((validate_session crypto raw_token now swept_at w).0
          ≡ ok (
              check_answer
                (λ id. find_by_id id w.db)
                (view w.db (crypto.hash_token raw_token))
                now))
        × (view (validate_session crypto raw_token now swept_at w).1.db k
            ≡ after_check
                (λ id. find_by_id id w.db)
                (view w.db (crypto.hash_token raw_token))
                now
                (view w.db)
                k)
  unfolding validate_session validate_owner
  validate_session-refines raw_token k now swept_at w =
      elim (Option-cases (find_by_token_hash (crypto.hash_token raw_token) w.db)) [
        | inl missing ↦ (ground (arith, missing), ground (arith, missing))
        | inr (s, found) ↦ elim (Option-cases (find_by_id s.user_id w.db)) [
          | inl missing ↦ (ground (arith, found, missing), ground (arith, found, missing))
          | inr (u, listed) ↦ (
            ground (arith, found, listed),
            ground (arith, found, listed, find-invalidate_all u.id k swept_at w),
          )
        ]
      ]

-- PRIMARY KEY of sessions: no two rows have the same id.
abbrev pub OneRowPerId : Db → Type 0
OneRowPerId db = (id : String) → count_where (has_id id) db.sessions ≤ 1

-- Two sessions that are found and have the same id were found under the same hash.
same_hash :
    (k k' : String) (db : Db) (r s : SessionEntity)
    → OneRowPerId db
    → find_by_token_hash k db ≡ some r
    → find_by_token_hash k' db ≡ some s
    → r.id ≡ s.id
    → k ≡ k'
unfolding find_by_token_hash
same_hash k k' db r s one found found' same =
    let both =
      select_first_unique (has_token_hash k) (has_token_hash k') (has_id s.id) db.sessions r s
        (one s.id) found found' ((eq_iff r.id s.id).1 same) (eq_refl s.id) in
    let left =
      (eq_iff r.token_hash k).0 (select_first-holds (has_token_hash k) db.sessions r found) in
    let right =
      (eq_iff s.token_hash k').0 (select_first-holds (has_token_hash k') db.sessions s found') in
    cc (both, left, right)

module _ (crypto : Crypto) where
  -- A logout answers as the map does, closes the ticket of the token if it is open and has not
  -- expired, and no other, as long as no two rows have the same id.
  pub invalidate_session-refines :
      (raw_token k : String) (now closed_at : ℕ) (w : World)
      → OneRowPerId w.db
      → ((invalidate_session crypto raw_token now closed_at w).0
          ≡ ok (logout_answer (view w.db (crypto.hash_token raw_token)) now))
        × (view (invalidate_session crypto raw_token now closed_at w).1.db k
            ≡ after_logout (crypto.hash_token raw_token) now (view w.db) k)
  unfolding invalidate_session
  invalidate_session-refines raw_token k now closed_at w one =
      elim (Option-cases (find_by_token_hash (crypto.hash_token raw_token) w.db)) [
        | inl missing ↦ (ground (arith, missing), ground (arith, missing))
        | inr (s, found) ↦ (
          ground (arith, found),
          elim (Option-cases (find_by_token_hash k w.db)) [
            | inl none_there ↦
                ground (arith, found, none_there, find-mark_invalidated crypto s.id k closed_at w)
            | inr (x, there) ↦ ground (
              arith,
              found,
              there,
              find-mark_invalidated crypto s.id k closed_at w,
              eq_iff k (crypto.hash_token raw_token),
              eq_iff x.id s.id,
              same_hash k (crypto.hash_token raw_token) w.db x s one there found,
            )
          ],
        )
      ]
