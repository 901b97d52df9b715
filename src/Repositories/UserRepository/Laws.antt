-- ===== src/Repositories/UserRepository/Laws.antt =====
-- What the lookups of user.repository.ts find after an update of one row.
use mathlib.Core.Option
use test_specs_to_code.Common.{String, ◌≡◌, ap, true, some, ◌==◌, if◌then◌else◌}
use test_specs_to_code.Table.{select_first}
use test_specs_to_code.Table.Laws.{select_first-update, select_first-holds}
use test_specs_to_code.Model.{UserEntity, Db}
use test_specs_to_code.Repositories.UserRepository.{
  has_id, has_email, find_by_id, find_by_email, update_user,
}

-- The row as an update of the row `id` leaves it.
abbrev pub at_id : String → (UserEntity → UserEntity) → UserEntity → UserEntity
at_id id f u = if u.id == id then f u else u

pub find_by_id-update :
    (key id : String) (f : UserEntity → UserEntity) (db : Db)
    → ((u : UserEntity) → has_id key (f u) ≡ has_id key u)
    → find_by_id key (update_user id f db) ≡ Option.map (at_id id f) (find_by_id key db)
unfolding find_by_id update_user
find_by_id-update key id f db keeps = select_first-update (has_id key) (has_id id) f db.users keeps

pub find_by_email-update :
    (email id : String) (f : UserEntity → UserEntity) (db : Db)
    → ((u : UserEntity) → has_email email (f u) ≡ has_email email u)
    → find_by_email email (update_user id f db) ≡ Option.map (at_id id f) (find_by_email email db)
unfolding find_by_email update_user
find_by_email-update email id f db keeps =
    select_first-update (has_email email) (has_id id) f db.users keeps

pub find_by_id-id :
    (id : String) (db : Db) (u : UserEntity) → find_by_id id db ≡ some u → (u.id == id) ≡ true
unfolding find_by_id
find_by_id-id id db u h = select_first-holds (has_id id) db.users u h

pub find_by_id-users :
    (id : String) (db db' : Db) → db'.users ≡ db.users → find_by_id id db' ≡ find_by_id id db
unfolding find_by_id
find_by_id-users id db db' same = ap (select_first (has_id id)) same
