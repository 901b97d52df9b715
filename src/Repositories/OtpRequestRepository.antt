-- ===== src/Repositories/OtpRequestRepository.antt =====
-- BACKEND/src/repositories/otp-request.repository.ts over the table of 004_create_otp_requests.sql.
use Prim.Native.Nat.{max}
use test_specs_to_code.Common.{
  ℕ, ◌+◌, String, Bool, not, ◌&&◌, Option, some, List, [], ◌∷◌, ◌++◌, ◌==◌, is_some, is_none,
  if◌then◌else◌,
}
use test_specs_to_code.Model.{OtpRequestEntity, OtpStatus, Db, Constraint, unique, foreign_key}
use test_specs_to_code.Repositories.Constraints.{broken_if, user_exists}
use test_specs_to_code.Table.{select_first, update_where, append_row}

-- WHERE id = ?
abbrev pub has_id : String → OtpRequestEntity → Bool
has_id id r = r.id == id

-- WHERE user_id = ? AND invalidated_at IS NULL
abbrev pub is_active_for : String → OtpRequestEntity → Bool
is_active_for user_id r = r.user_id == user_id && is_none r.invalidated_at

unfoldable pub create_otp_request : OtpRequestEntity → Db → Db
create_otp_request r db = record db { otp_requests = append_row r db.otp_requests }

-- PRIMARY KEY, uidx_otp_requests_active_per_user, REFERENCES users(id)
unfoldable pub otp_request_violations : OtpRequestEntity → Db → List Constraint
otp_request_violations r db =
    broken_if (is_some (select_first (has_id r.id) db.otp_requests)) (unique "otp_requests.id")
    ++ broken_if
        (is_none r.invalidated_at
          && is_some (select_first (is_active_for r.user_id) db.otp_requests))
        (unique "otp_requests.user_id")
    ++ broken_if (not (user_exists r.user_id db.users)) foreign_key

unfoldable pub find_active_by_user_id : String → Db → Option OtpRequestEntity
find_active_by_user_id user_id db = select_first (is_active_for user_id) db.otp_requests

abbrev pub invalidated_otp : ℕ → OtpRequestEntity → OtpRequestEntity
invalidated_otp now r = record r { invalidated_at = some now }

unfoldable pub invalidate_active_by_user_id : String → ℕ → Db → Db
invalidate_active_by_user_id user_id now db = record db {
  otp_requests = update_where (is_active_for user_id) (invalidated_otp now) db.otp_requests;
}

-- UPDATE otp_requests SET invalidated_at = ? WHERE id = ?
unfoldable pub invalidate_otp : String → ℕ → Db → Db
invalidate_otp id now db = record db {
  otp_requests = update_where (has_id id) (invalidated_otp now) db.otp_requests;
}

abbrev pub with_otp_status : OtpStatus → OtpRequestEntity → OtpRequestEntity
with_otp_status status r = record r { status = status }

unfoldable pub mark_delivered : String → Db → Db
mark_delivered id db = record db {
  otp_requests = update_where (has_id id) (with_otp_status OtpStatus.delivered) db.otp_requests;
}

unfoldable pub mark_failed : String → Db → Db
mark_failed id db = record db {
  otp_requests = update_where (has_id id) (with_otp_status OtpStatus.failed) db.otp_requests;
}

unfoldable pub find_otp_by_id : String → Db → Option OtpRequestEntity
find_otp_by_id id db = select_first (has_id id) db.otp_requests

-- COALESCE(MAX(attempt_sequence), 0) over the rows of a user
unfoldable pub max_attempt_sequence : String → List OtpRequestEntity → ℕ
max_attempt_sequence user_id [] = 0
max_attempt_sequence user_id (r ∷ t) =
    max (if r.user_id == user_id then r.attempt_sequence else 0) (max_attempt_sequence user_id t)

unfoldable pub get_next_attempt_sequence : String → Db → ℕ
unfolding max_attempt_sequence
get_next_attempt_sequence user_id db = max_attempt_sequence user_id db.otp_requests + 1
