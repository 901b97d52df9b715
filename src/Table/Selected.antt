-- ===== src/Table/Selected.antt =====
-- What a key finds among the rows that SELECT * returns, filtered or ordered.
use test_specs_to_code.Common.{
  ℕ, ◌≤◌, ◌≡◌, refl, Bool, true, false, some, List, [], ◌∷◌, arith, Bool-cases, inl, inr,
}
use test_specs_to_code.Table.{select_first, select_all, insert_by, order_by, count_where}

module _ {ℓ} {R : Type ℓ} where
  pub select_first-select_all :
      (p q : R → Bool) (t : List R) (r : R)
      → select_first p t ≡ some r
      → q r ≡ true
      → select_first p (select_all q t) ≡ some r
  unfolding select_first select_all
  select_first-select_all p q [] r found kept = ground arith
  select_first-select_all p q (x ∷ t) r found kept = ground (arith, select_first-select_all p q t r)

  pub count_where-select_all :
      (p q : R → Bool) (t : List R) → count_where p (select_all q t) ≤ count_where p t
  unfolding count_where select_all
  count_where-select_all p q [] = omega arith
  count_where-select_all p q (x ∷ t) = ground (arith, count_where-select_all p q t)

  -- The only row that matches is not among those selected, if it is left out.
  pub count_where-left_out :
      (p q : R → Bool) (t : List R) (r : R)
      → count_where p t ≤ 1
      → select_first p t ≡ some r
      → q r ≡ false
      → count_where p (select_all q t) ≡ 0
  unfolding count_where select_all select_first
  count_where-left_out p q [] r one found out = refl
  count_where-left_out p q (x ∷ t) r one found out = elim (Bool-cases (p x)) [
    | inl hit ↦ ground (arith, count_where-select_all p q t)
    | inr missed ↦
        let rest = count_where-left_out p q t r (ground arith) (ground arith) out in
        ground (arith, rest)
  ]

  count_where-insert_by :
      (p : R → Bool) (key : R → ℕ) (r : R) (t : List R)
      → count_where p (insert_by key r t) ≡ count_where p (r ∷ t)
  unfolding count_where insert_by
  count_where-insert_by p key r [] = refl
  count_where-insert_by p key r (x ∷ t) = ground (arith, count_where-insert_by p key r t)

  pub count_where-order_by :
      (p : R → Bool) (key : R → ℕ) (t : List R) → count_where p (order_by key t) ≡ count_where p t
  unfolding count_where order_by
  count_where-order_by p key [] = refl
  count_where-order_by p key (r ∷ t) =
      ground (arith, count_where-insert_by p key r (order_by key t), count_where-order_by p key t)

  -- The row that a key finds, if no other matches, is found wherever it is sorted in.
  select_first-insert_by :
      (p : R → Bool) (key : R → ℕ) (r a : R) (t : List R)
      → count_where p (r ∷ t) ≤ 1
      → select_first p (r ∷ t) ≡ some a
      → select_first p (insert_by key r t) ≡ some a
  unfolding count_where insert_by select_first
  select_first-insert_by p key r a [] one found = ground arith
  select_first-insert_by p key r a (x ∷ t) one found = elim (Bool-cases (p x)) [
    | inl hit ↦ elim (Bool-cases (p r)) [
      | inl both ↦ absurd (ground arith)
      | inr only ↦ ground arith
    ]
    | inr missed ↦ ground (arith, select_first-insert_by p key r a t)
  ]

  pub select_first-order_by :
      (p : R → Bool) (key : R → ℕ) (a : R) (t : List R)
      → count_where p t ≤ 1
      → select_first p t ≡ some a
      → select_first p (order_by key t) ≡ some a
  unfolding count_where order_by select_first
  select_first-order_by p key a [] one found = ground arith
  select_first-order_by p key a (r ∷ t) one found =
      let counted = count_where-order_by p key t in
      elim (Bool-cases (p r)) [
        | inl hit ↦
            select_first-insert_by p key r a (order_by key t) (ground (arith, counted))
              (ground arith)
        | inr missed ↦
            let rest = select_first-order_by p key a t (ground arith) (ground arith) in
            select_first-insert_by p key r a (order_by key t) (ground (arith, counted))
              (ground (arith, rest))
      ]
