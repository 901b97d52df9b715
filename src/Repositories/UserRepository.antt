-- ===== src/Repositories/UserRepository.antt =====
-- BACKEND/src/repositories/user.repository.ts over the table of 001_create_users.sql. `lower` is
-- SQLite's function of that name.
pub mod Laws
use test_specs_to_code.Common.{
  ℕ, ◌+◌, String, Bool, not, ◌&&◌, Option, none, some, List, ◌++◌, ◌==◌, is_some,
}
use test_specs_to_code.Model.{AccountStatus, UserEntity, Db, Constraint, unique}
use test_specs_to_code.Repositories.Constraints.{broken_if}
use test_specs_to_code.Table.{select_first, update_where, append_row}

-- WHERE id = ?
abbrev pub has_id : String → UserEntity → Bool
has_id id u = u.id == id

-- WHERE email = ?
abbrev pub has_email : String → UserEntity → Bool
has_email email u = u.email == email

-- WHERE username_normalised = ?
abbrev pub has_normalised : String → UserEntity → Bool
has_normalised normalised u = u.username_normalised == normalised

unfoldable pub find_by_id : String → Db → Option UserEntity
find_by_id id db = select_first (has_id id) db.users

unfoldable pub find_by_email : String → Db → Option UserEntity
find_by_email email db = select_first (has_email email) db.users

unfoldable pub find_by_normalised_username : String → Db → Option UserEntity
find_by_normalised_username normalised db = select_first (has_normalised normalised) db.users

-- PRIMARY KEY, uidx_users_username_normalised, uidx_users_email
unfoldable pub user_violations : UserEntity → Db → List Constraint
user_violations u db =
    broken_if (is_some (select_first (has_id u.id) db.users)) (unique "users.id")
    ++ broken_if (is_some (select_first (has_normalised u.username_normalised) db.users))
        (unique "users.username_normalised")
    ++ broken_if (is_some (select_first (has_email u.email) db.users)) (unique "users.email")

unfoldable pub insert_user : UserEntity → Db → Db
insert_user u db = record db { users = append_row u db.users }

-- UPDATE users SET f WHERE id = ?
unfoldable pub update_user : String → (UserEntity → UserEntity) → Db → Db
update_user id f db = record db { users = update_where (has_id id) f db.users }

abbrev pub set_status : AccountStatus → ℕ → UserEntity → UserEntity
set_status status activated_at u = record u { status = status; activated_at = some activated_at }

unfoldable pub update_status : String → AccountStatus → ℕ → Db → Db
update_status id status activated_at = update_user id (set_status status activated_at)

abbrev pub failure_counted : UserEntity → UserEntity
failure_counted u = record u { failed_login_count = u.failed_login_count + 1 }

unfoldable pub increment_failed_login_count : String → Db → Db
increment_failed_login_count id = update_user id failure_counted

abbrev pub failures_cleared : UserEntity → UserEntity
failures_cleared u = record u { failed_login_count = 0 }

unfoldable pub reset_failed_login_count : String → Db → Db
reset_failed_login_count id = update_user id failures_cleared

abbrev pub set_locked_until : ℕ → UserEntity → UserEntity
set_locked_until locked_until u = record u { locked_until = some locked_until }

unfoldable pub lock_account : String → ℕ → Db → Db
lock_account id locked_until = update_user id (set_locked_until locked_until)

abbrev pub set_last_login_at : ℕ → UserEntity → UserEntity
set_last_login_at timestamp u = record u { last_login_at = some timestamp }

unfoldable pub update_last_login_at : String → ℕ → Db → Db
update_last_login_at id timestamp = update_user id (set_last_login_at timestamp)

abbrev pub set_password_hash : String → UserEntity → UserEntity
set_password_hash hash u = record u { password_hash = hash }

unfoldable pub update_password_hash : String → String → Db → Db
update_password_hash id hash = update_user id (set_password_hash hash)

abbrev pub anonymized : String → String → String → ℕ → UserEntity → UserEntity
anonymized email username normalised deleted_at u = record u {
  status = AccountStatus.deleted;
  email = email;
  username = username;
  username_normalised = normalised;
  deleted_at = some deleted_at;
}

-- What the UPDATE of a row's email and username breaks: the unique indexes, over the other rows.
unfoldable pub anonymized_violations : String → String → String → Db → List Constraint
anonymized_violations id email normalised db =
    broken_if
      (is_some (select_first (λ u. has_normalised normalised u && not (has_id id u)) db.users))
      (unique "users.username_normalised")
    ++ broken_if (is_some (select_first (λ u. has_email email u && not (has_id id u)) db.users))
        (unique "users.email")

unfoldable pub anonymize_and_mark_deleted :
    (lower : String → String) → String → String → String → ℕ → Db → Db
anonymize_and_mark_deleted lower id email username deleted_at =
    update_user id (anonymized email username (lower username) deleted_at)
