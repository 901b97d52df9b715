-- ===== src/Repositories/SessionRepository.antt =====
-- BACKEND/src/repositories/session.repository.ts over the table of 005_create_sessions.sql.
use test_specs_to_code.Common.{
  ℕ, String, Bool, true, false, not, ◌&&◌, Option, none, some, List, ◌++◌, ◌==◌, is_some, ltb,
}
use test_specs_to_code.Model.{SessionEntity, Db, Constraint, unique, foreign_key}
use test_specs_to_code.Repositories.Constraints.{broken_if, user_exists}
use test_specs_to_code.Table.{select_first, count_where, update_where, append_row}

-- WHERE id = ?
abbrev pub has_id : String → SessionEntity → Bool
has_id id s = s.id == id

-- WHERE token_hash = ?
abbrev pub has_token_hash : String → SessionEntity → Bool
has_token_hash token_hash s = s.token_hash == token_hash

-- WHERE user_id = ? AND invalidated = 0
abbrev pub is_open_for : String → SessionEntity → Bool
is_open_for user_id s = s.user_id == user_id && not s.invalidated

-- The row that `insert` writes.
abbrev pub new_session : String → String → String → ℕ → ℕ → SessionEntity
new_session id user_id token_hash created_at expires_at = record {
  id = id;
  user_id = user_id;
  token_hash = token_hash;
  created_at = created_at;
  expires_at = expires_at;
  invalidated = false;
  invalidated_at = none;
}

unfoldable pub insert_session : SessionEntity → Db → Db
insert_session s db = record db { sessions = append_row s db.sessions }

-- PRIMARY KEY, uidx_sessions_token_hash, REFERENCES users(id)
unfoldable pub session_violations : SessionEntity → Db → List Constraint
session_violations s db =
    broken_if (is_some (select_first (has_id s.id) db.sessions)) (unique "sessions.id")
    ++ broken_if (is_some (select_first (has_token_hash s.token_hash) db.sessions))
        (unique "sessions.token_hash")
    ++ broken_if (not (user_exists s.user_id db.users)) foreign_key

unfoldable pub find_by_token_hash : String → Db → Option SessionEntity
find_by_token_hash token_hash db = select_first (has_token_hash token_hash) db.sessions

abbrev pub invalidated_session : ℕ → SessionEntity → SessionEntity
invalidated_session invalidated_at s = record s {
  invalidated = true;
  invalidated_at = some invalidated_at;
}

unfoldable pub mark_invalidated : String → ℕ → Db → Db
mark_invalidated id invalidated_at db = record db {
  sessions = update_where (has_id id) (invalidated_session invalidated_at) db.sessions;
}

unfoldable pub invalidate_all_for_user : String → ℕ → Db → Db
invalidate_all_for_user user_id now db = record db {
  sessions = update_where (is_open_for user_id) (invalidated_session now) db.sessions;
}

unfoldable pub count_active_for_user : String → ℕ → Db → ℕ
count_active_for_user user_id now db =
    count_where (λ s. is_open_for user_id s && ltb now s.expires_at) db.sessions
