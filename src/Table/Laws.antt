-- ===== src/Table/Laws.antt =====
-- What a SELECT finds after an UPDATE or an INSERT, for any row type and any conditions.
use mathlib.Core.Option
use test_specs_to_code.Common.{
  ◌+◌, ◌≤◌, ◌<◌, ◌≡◌, refl, ◌↔◌, inl, inr, Bool, true, false, Option, none, some, List, [], ◌∷◌,
  arith, Bool-cases, if◌then◌else◌,
}
use test_specs_to_code.Table.{select_first, count_where, update_where, append_row}

-- The first option that holds a value.
abbrev pub or_else {ℓ} : {A : Type ℓ} → Option A → Option A → Option A
or_else none b = b
or_else (some a) b = some a

module _ {ℓ} {R : Type ℓ} where
  -- The row as the UPDATE leaves it.
  abbrev pub updated : (R → Bool) → (R → R) → R → R
  updated q f r = if q r then f r else r

  pub select_first-holds :
      (p : R → Bool) (t : List R) (r : R) → select_first p t ≡ some r → p r ≡ true
  unfolding select_first
  select_first-holds p [] r h = ground arith
  select_first-holds p (x ∷ t) r h = ground (arith, select_first-holds p t r)

  pub select_first-append :
      (p : R → Bool) (r : R) (t : List R)
      → select_first p (append_row r t) ≡ or_else (select_first p t) (if p r then some r else none)
  unfolding select_first append_row
  select_first-append p r [] = refl
  select_first-append p r (x ∷ t) = ground (arith, select_first-append p r t)

  -- An UPDATE that does not touch what the SELECT tests changes the row found and no other.
  pub select_first-update :
      (p q : R → Bool) (f : R → R) (t : List R)
      → ((r : R) → p (f r) ≡ p r)
      → select_first p (update_where q f t) ≡ Option.map (updated q f) (select_first p t)
  unfolding select_first update_where
  select_first-update p q f [] keeps = refl
  select_first-update p q f (x ∷ t) keeps =
      ground (arith, keeps x, select_first-update p q f t keeps)

  pub count_where-append :
      (p : R → Bool) (r : R) (t : List R)
      → count_where p (append_row r t) ≡ count_where p t + (if p r then 1 else 0)
  unfolding count_where append_row
  count_where-append p r [] = ground arith
  count_where-append p r (x ∷ t) = ground (arith, count_where-append p r t)

  -- An UPDATE by which no row comes to match leaves no more rows that match.
  pub count_where-update-le :
      (p q : R → Bool) (f : R → R) (t : List R)
      → ((r : R) → p (f r) ≡ true → p r ≡ true)
      → count_where p (update_where q f t) ≤ count_where p t
  unfolding count_where update_where
  count_where-update-le p q f [] shrinks = ground arith
  count_where-update-le p q f (x ∷ t) shrinks =
      ground (arith, shrinks x, count_where-update-le p q f t shrinks)

  -- If moreover it unmatches the row that a SELECT found, one row fewer matches.
  pub count_where-update-lt :
      (p q : R → Bool) (f : R → R) (t : List R) (r : R)
      → ((x : R) → p (f x) ≡ true → p x ≡ true)
      → select_first p t ≡ some r
      → q r ≡ true
      → p (f r) ≡ false
      → count_where p (update_where q f t) < count_where p t
  unfolding count_where update_where select_first
  count_where-update-lt p q f [] r shrinks found hit out = ground arith
  count_where-update-lt p q f (x ∷ t) r shrinks found hit out = elim (Bool-cases (p x)) [
    | inl h ↦ ground (arith, count_where-update-le p q f t shrinks)
    | inr h ↦
        ground (arith, shrinks x, count_where-update-lt p q f t r shrinks (ground arith) hit out)
  ]

  -- An UPDATE of all rows that match, by which none matches any more, leaves none.
  pub count_where-update_all :
      (p q : R → Bool) (f : R → R) (t : List R)
      → ((r : R) → p r ≡ true → q r ≡ true)
      → ((r : R) → p (f r) ≡ false)
      → count_where p (update_where q f t) ≡ 0
  unfolding count_where update_where
  count_where-update_all p q f [] covers kills = refl
  count_where-update_all p q f (x ∷ t) covers kills =
      ground (arith, covers x, kills x, count_where-update_all p q f t covers kills)

  pub count_where-same :
      (p q : R → Bool) (f : R → R) (t : List R)
      → ((r : R) → p (f r) ≡ p r)
      → count_where p (update_where q f t) ≡ count_where p t
  unfolding count_where update_where
  count_where-same p q f [] keeps = refl
  count_where-same p q f (x ∷ t) keeps = ground (arith, keeps x, count_where-same p q f t keeps)

  pub select_first-none_iff :
      (p : R → Bool) (t : List R) → (select_first p t ≡ none) ↔ (count_where p t ≡ 0)
  unfolding select_first count_where
  select_first-none_iff p [] = (λ _. refl, λ _. refl)
  select_first-none_iff p (x ∷ t) =
      let (to, from) = select_first-none_iff p t in
      elim (Bool-cases (p x)) [
        | inl h ↦ rw h (λ e. absurd (ground arith), λ e. absurd (omega arith))
        | inr h ↦ rw h (λ e. omega (arith, to e), λ e. from (omega arith))
      ]

  -- A row that a SELECT finds after an UPDATE is what the UPDATE made of some row.
  pub select_first-from_update :
      (p q : R → Bool) (f : R → R) (t : List R) (r : R)
      → select_first p (update_where q f t) ≡ some r
      → (x : R) × (r ≡ updated q f x)
  unfolding select_first update_where
  select_first-from_update p q f [] r h = ground arith
  select_first-from_update p q f (x ∷ t) r h = elim (Bool-cases (p (updated q f x))) [
    | inl here ↦ (x, ground arith)
    | inr later ↦ select_first-from_update p q f t r (ground arith)
  ]

  pub count_where-found :
      (p q : R → Bool) (t : List R) (r : R)
      → select_first p t ≡ some r
      → q r ≡ true
      → 1 ≤ count_where q t
  unfolding select_first count_where
  count_where-found p q [] r found hit = ground arith
  count_where-found p q (x ∷ t) r found hit = elim (Bool-cases (p x)) [
    | inl h ↦ ground arith
    | inr h ↦ ground (arith, count_where-found p q t r (ground arith) hit)
  ]

  -- Two rows that match a condition which at most one row matches are the same.
  pub select_first_unique :
      (p p' q : R → Bool) (t : List R) (r s : R)
      → count_where q t ≤ 1
      → select_first p t ≡ some r
      → select_first p' t ≡ some s
      → q r ≡ true
      → q s ≡ true
      → r ≡ s
  unfolding select_first count_where
  select_first_unique p p' q [] r s one found found' hit hit' = ground arith
  select_first_unique p p' q (x ∷ t) r s one found found' hit hit' = elim (Bool-cases (p x)) [
    | inl h ↦ elim (Bool-cases (p' x)) [
      | inl h' ↦ ground arith
      | inr h' ↦ absurd (ground (arith, count_where-found p' q t s (ground arith) hit'))
    ]
    | inr h ↦ elim (Bool-cases (p' x)) [
      | inl h' ↦ absurd (ground (arith, count_where-found p q t r (ground arith) hit))
      | inr h' ↦
          select_first_unique p p' q t r s (ground arith) (ground arith) (ground arith) hit hit'
    ]
  ]
