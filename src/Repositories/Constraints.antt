-- ===== src/Repositories/Constraints.antt =====
-- The constraints of BACKEND/db/migrations/*.sql that an INSERT can break.
use test_specs_to_code.Common.{String, Bool, true, false, List, [], ◌∷◌, ◌==◌, is_some}
use test_specs_to_code.Model.{Constraint, UserEntity}
use test_specs_to_code.Table.{select_first}

-- The constraint, if the test says that the row breaks it.
abbrev pub broken_if : Bool → Constraint → List Constraint
broken_if true c = c ∷ []
broken_if false c = []

-- REFERENCES users(id)
unfoldable pub user_exists : String → List UserEntity → Bool
user_exists user_id users = is_some (select_first (λ u. u.id == user_id) users)
