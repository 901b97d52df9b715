-- ===== src/Repositories/PasswordRecoveryRequestRepository.antt =====
-- BACKEND/src/repositories/password-recovery-request.repository.ts over the table of
-- 006_create_password_recovery_requests.sql.
use test_specs_to_code.Common.{
  ℕ, String, Bool, true, false, not, Option, none, some, List, ◌++◌, ◌==◌, is_some,
}
use test_specs_to_code.Model.{PasswordRecoveryRequestEntity, Db, Constraint, unique, foreign_key}
use test_specs_to_code.Repositories.Constraints.{broken_if, user_exists}
use test_specs_to_code.Table.{select_first, update_where, append_row}

-- WHERE id = ?
abbrev pub has_id : String → PasswordRecoveryRequestEntity → Bool
has_id id r = r.id == id

-- WHERE token = ?
abbrev pub has_token : String → PasswordRecoveryRequestEntity → Bool
has_token token r = r.token == token

-- The row that `insert` writes.
abbrev pub new_recovery_request : String → String → String → ℕ → ℕ → PasswordRecoveryRequestEntity
new_recovery_request id user_id token requested_at expires_at = record {
  id = id;
  user_id = user_id;
  token = token;
  requested_at = requested_at;
  expires_at = expires_at;
  consumed = false;
  consumed_at = none;
}

unfoldable pub insert_recovery_request : PasswordRecoveryRequestEntity → Db → Db
insert_recovery_request r db = record db {
  password_recovery_requests = append_row r db.password_recovery_requests;
}

-- PRIMARY KEY, uidx_prr_token, REFERENCES users(id)
unfoldable pub recovery_request_violations : PasswordRecoveryRequestEntity → Db → List Constraint
recovery_request_violations r db =
    broken_if (is_some (select_first (has_id r.id) db.password_recovery_requests))
      (unique "password_recovery_requests.id")
    ++ broken_if (is_some (select_first (has_token r.token) db.password_recovery_requests))
        (unique "password_recovery_requests.token")
    ++ broken_if (not (user_exists r.user_id db.users)) foreign_key

unfoldable pub find_by_token : String → Db → Option PasswordRecoveryRequestEntity
find_by_token token db = select_first (has_token token) db.password_recovery_requests

abbrev pub consumed_request : ℕ → PasswordRecoveryRequestEntity → PasswordRecoveryRequestEntity
consumed_request consumed_at r = record r { consumed = true; consumed_at = some consumed_at }

unfoldable pub mark_consumed : String → ℕ → Db → Db
mark_consumed id consumed_at db = record db {
  password_recovery_requests =
      update_where (has_id id) (consumed_request consumed_at) db.password_recovery_requests;
}
