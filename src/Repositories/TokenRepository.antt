-- ===== src/Repositories/TokenRepository.antt =====
-- BACKEND/src/repositories/token.repository.ts over the table of 002_create_activation_tokens.sql.
use test_specs_to_code.Common.{ℕ, String, Bool, true, not, Option, some, List, ◌++◌, ◌==◌, is_some}
use test_specs_to_code.Model.{ActivationToken, Db, Constraint, unique, foreign_key}
use test_specs_to_code.Repositories.Constraints.{broken_if, user_exists}
use test_specs_to_code.Table.{select_first, update_where, append_row}

-- WHERE id = ?
abbrev pub has_id : String → ActivationToken → Bool
has_id id t = t.id == id

-- WHERE token_value = ?
abbrev pub has_token_value : String → ActivationToken → Bool
has_token_value token_value t = t.token_value == token_value

-- WHERE user_id = ?
abbrev pub has_user_id : String → ActivationToken → Bool
has_user_id user_id t = t.user_id == user_id

unfoldable pub insert_token : ActivationToken → Db → Db
insert_token t db = record db { activation_tokens = append_row t db.activation_tokens }

-- PRIMARY KEY, user_id UNIQUE, uidx_activation_tokens_token_value, REFERENCES users(id)
unfoldable pub token_violations : ActivationToken → Db → List Constraint
token_violations t db =
    broken_if (is_some (select_first (has_id t.id) db.activation_tokens))
      (unique "activation_tokens.id")
    ++ broken_if (is_some (select_first (has_user_id t.user_id) db.activation_tokens))
        (unique "activation_tokens.user_id")
    ++ broken_if (is_some (select_first (has_token_value t.token_value) db.activation_tokens))
        (unique "activation_tokens.token_value")
    ++ broken_if (not (user_exists t.user_id db.users)) foreign_key

unfoldable pub find_by_token_value : String → Db → Option ActivationToken
find_by_token_value token_value db = select_first (has_token_value token_value) db.activation_tokens

unfoldable pub find_by_user_id : String → Db → Option ActivationToken
find_by_user_id user_id db = select_first (has_user_id user_id) db.activation_tokens

abbrev pub consumed_token : ℕ → ActivationToken → ActivationToken
consumed_token consumed_at t = record t { consumed = true; consumed_at = some consumed_at }

unfoldable pub mark_consumed : String → ℕ → Db → Db
mark_consumed id consumed_at db = record db {
  activation_tokens = update_where (has_id id) (consumed_token consumed_at) db.activation_tokens;
}
