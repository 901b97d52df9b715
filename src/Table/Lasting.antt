-- ===== src/Table/Lasting.antt =====
-- A fact about the row that a key finds, which the statements of the repositories keep.
use test_specs_to_code.Common.{
  String, Bool, true, false, Option, none, some, List, [], ◌∷◌, ◌≡◌, arith,
}
use test_specs_to_code.Table.{select_first, update_where, append_row}

module _ {ℓ} {R : Type ℓ} where
  -- Whether the key finds a row, and the row has the property.
  abbrev pub holds : (R → Bool) → Option R → Bool
  holds p none = false
  holds p (some r) = p r

  pub holds-append :
      (p key : R → Bool) (x : R) (t : List R)
      → holds p (select_first key t) ≡ true
      → holds p (select_first key (append_row x t)) ≡ true
  unfolding select_first append_row
  holds-append p key x [] h = absurd (ground arith)
  holds-append p key x (r ∷ t) h = ground (arith, holds-append p key x t)

  -- Any update that keeps the key and the property.
  pub holds-update :
      (p key q : R → Bool) (f : R → R) (t : List R)
      → ((r : R) → key (f r) ≡ key r)
      → ((r : R) → p r ≡ true → p (f r) ≡ true)
      → holds p (select_first key t) ≡ true
      → holds p (select_first key (update_where q f t)) ≡ true
  unfolding select_first update_where
  holds-update p key q f [] keeps lasts h = absurd (ground arith)
  holds-update p key q f (r ∷ t) keeps lasts h =
      ground (arith, keeps r, lasts r, holds-update p key q f t keeps lasts)

  -- An update of other rows only: the row that the key finds is not among them.
  pub holds-other :
      (p key q : R → Bool) (f : R → R) (t : List R)
      → ((r : R) → key (f r) ≡ key r)
      → ((r : R) → key r ≡ true → p r ≡ true → q r ≡ false)
      → holds p (select_first key t) ≡ true
      → holds p (select_first key (update_where q f t)) ≡ true
  unfolding select_first update_where
  holds-other p key q f [] keeps apart h = absurd (ground arith)
  holds-other p key q f (r ∷ t) keeps apart h =
      ground (arith, keeps r, apart r, holds-other p key q f t keeps apart)

  -- Whatever row a key finds with the property, it still finds one with it.
  abbrev pub Keeps : (R → Bool) → (String → R → Bool) → List R → List R → Type 0
  Keeps p key t t' =
      (k : String)
      → holds p (select_first (key k) t) ≡ true
      → holds p (select_first (key k) t') ≡ true

  pub Keeps-append :
      (p : R → Bool) (key : String → R → Bool) (x : R) (t : List R) → Keeps p key t (append_row x t)
  Keeps-append p key x t k h = holds-append p (key k) x t h

  pub Keeps-update :
      (p : R → Bool) (key : String → R → Bool) (q : R → Bool) (f : R → R) (t : List R)
      → ((k : String) (r : R) → key k (f r) ≡ key k r)
      → ((r : R) → p r ≡ true → p (f r) ≡ true)
      → Keeps p key t (update_where q f t)
  Keeps-update p key q f t keeps lasts k h = holds-update p (key k) q f t (keeps k) lasts h
