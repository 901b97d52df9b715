-- ===== src/Repositories/DeletionRequestRepository.antt =====
-- BACKEND/src/repositories/deletion-request.repository.ts over the table of
-- 007_create_account_deletion_requests.sql.
use test_specs_to_code.Common.{
  ℕ, String, Bool, not, ◌&&◌, Option, none, some, List, ◌++◌, ◌==◌, is_some,
}
use test_specs_to_code.Model.{
  DeletionRequestEntity, DeletionStatus, is_pending_deletion, Db, Constraint, unique, foreign_key,
}
use test_specs_to_code.Repositories.Constraints.{broken_if, user_exists}
use test_specs_to_code.Table.{select_first, update_where, append_row}

-- WHERE id = ?
abbrev pub has_id : String → DeletionRequestEntity → Bool
has_id id r = r.id == id

-- WHERE user_id = ? AND status = 'pending'
abbrev pub is_pending_for : String → DeletionRequestEntity → Bool
is_pending_for user_id r = r.user_id == user_id && is_pending_deletion r.status

-- The row that `insert` writes.
abbrev pub new_deletion_request : String → String → String → ℕ → ℕ → DeletionRequestEntity
new_deletion_request id user_id code_hash issued_at expires_at = record {
  id = id;
  user_id = user_id;
  code_hash = code_hash;
  issued_at = issued_at;
  expires_at = expires_at;
  status = DeletionStatus.pending;
  confirmed_at = none;
  cancelled_at = none;
}

unfoldable pub insert_deletion_request : DeletionRequestEntity → Db → Db
insert_deletion_request r db = record db {
  account_deletion_requests = append_row r db.account_deletion_requests;
}

-- PRIMARY KEY, REFERENCES users(id); no index forbids a second pending request.
unfoldable pub deletion_request_violations : DeletionRequestEntity → Db → List Constraint
deletion_request_violations r db =
    broken_if (is_some (select_first (has_id r.id) db.account_deletion_requests))
      (unique "account_deletion_requests.id")
    ++ broken_if (not (user_exists r.user_id db.users)) foreign_key

unfoldable pub find_pending_by_user_id : String → Db → Option DeletionRequestEntity
find_pending_by_user_id user_id db =
    select_first (is_pending_for user_id) db.account_deletion_requests

-- `updateStatus` stamps the column that goes with the status.
abbrev pub stamped : DeletionStatus → ℕ → DeletionRequestEntity → DeletionRequestEntity
stamped DeletionStatus.confirmed timestamp r = record r {
  status = DeletionStatus.confirmed;
  confirmed_at = some timestamp;
}
stamped status timestamp r = record r { status = status; cancelled_at = some timestamp }

unfoldable pub update_request_status : String → DeletionStatus → ℕ → Db → Db
update_request_status id status timestamp db = record db {
  account_deletion_requests =
      update_where (has_id id) (stamped status timestamp) db.account_deletion_requests;
}
