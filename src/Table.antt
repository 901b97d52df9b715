-- ===== src/Table.antt =====
-- SQL tables as lists of rows in insertion order, and the statements that the repositories
-- prepare: SELECT with LIMIT 1, SELECT COUNT, UPDATE and INSERT.
pub mod Laws
pub mod Lasting
pub mod Selected
use test_specs_to_code.Common.{
  ℕ, ◌+◌, Bool, true, Option, none, some, List, [], ◌∷◌, ◌++◌, leb, if◌then◌else◌,
}

module _ {ℓ} {R : Type ℓ} where
  -- SELECT * FROM t WHERE p LIMIT 1
  unfoldable pub select_first : (R → Bool) → List R → Option R
  select_first p [] = none
  select_first p (r ∷ t) = if p r then some r else select_first p t

  -- SELECT * FROM t WHERE p
  unfoldable pub select_all : (R → Bool) → List R → List R
  select_all p [] = []
  select_all p (r ∷ t) = let rest = select_all p t in if p r then r ∷ rest else rest

  -- A row into rows ordered by a key, before those that have the same.
  unfoldable pub insert_by : (R → ℕ) → R → List R → List R
  insert_by key r [] = r ∷ []
  insert_by key r (x ∷ t) =
      let rest = insert_by key r t in if leb (key r) (key x) then r ∷ x ∷ t else x ∷ rest

  -- ORDER BY key ASC; rows with the same key stay in the order of the table.
  unfoldable pub order_by : (R → ℕ) → List R → List R
  unfolding insert_by
  order_by key [] = []
  order_by key (r ∷ t) = insert_by key r (order_by key t)

  -- SELECT COUNT(*) FROM t WHERE p
  unfoldable pub count_where : (R → Bool) → List R → ℕ
  count_where p [] = 0
  count_where p (r ∷ t) = (if p r then 1 else 0) + count_where p t

  -- UPDATE t SET f WHERE p
  unfoldable pub update_where : (R → Bool) → (R → R) → List R → List R
  update_where p f [] = []
  update_where p f (r ∷ t) = (if p r then f r else r) ∷ update_where p f t

  -- INSERT INTO t
  unfoldable pub append_row : R → List R → List R
  append_row r t = t ++ r ∷ []
