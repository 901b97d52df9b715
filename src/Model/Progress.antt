-- ===== src/Model/Progress.antt =====
-- How a method moves the database along a preorder: one rule for each way to build a method.
use test_specs_to_code.Common.{
  Bool, true, false, Option, none, some, List, [], ◌∷◌, ◌≡◌, refl, if◌then◌else◌,
}
use test_specs_to_code.Model.Entities.{Db, Mail}
use test_specs_to_code.Model.Errors.{Exception, Constraint, constraint_failed}
use test_specs_to_code.Model.Effects.{
  Result, ok, thrown, Exec, World, pure, throw, require, rethrow_as, throw_if, query, command,
  insert, send, with_transaction, ◌>>=◌, ◌>>◌,
}

pub record IsPreorder (R : Db → Db → Type 0) : Type 0 where
  pub reflexive : (db : Db) → R db db
  pub transitive : (a b c : Db) → R a b → R b c → R a c

module _ (R : Db → Db → Type 0) where
  -- Whether it returns or throws, the method leads to a later database.
  pub record Advances {A : Type 0} (m : Exec World A) : Type 0 where
    pub at : (w : World) → R w.db (m w).1.db

module _ {R : Db → Db → Type 0} (order : IsPreorder R) where
  pub Advances-pure : {A : Type 0} (a : A) → Advances R (pure a)
  Advances-pure a = record { at = λ w. order.reflexive w.db }

  pub Advances-throw : {A : Type 0} (e : Exception) → Advances R (throw {A = A} e)
  Advances-throw e = record { at = λ w. order.reflexive w.db }

  pub Advances-require : {A : Type 0} (a : Option A) (e : Exception) → Advances R (require a e)
  Advances-require none e = record { at = λ w. order.reflexive w.db }
  Advances-require (some a) e = record { at = λ w. order.reflexive w.db }

  pub Advances-throw_if : (b : Bool) (e : Exception) → Advances R (throw_if b e)
  Advances-throw_if true e = record { at = λ w. order.reflexive w.db }
  Advances-throw_if false e = record { at = λ w. order.reflexive w.db }

  pub Advances-query : {A : Type 0} (f : Db → A) → Advances R (query f)
  Advances-query f = record { at = λ w. order.reflexive w.db }

  pub Advances-send : (mail : Mail) → Advances R (send mail)
  Advances-send mail = record { at = λ w. order.reflexive w.db }

  pub Advances-bind :
      {A B : Type 0} (m : Exec World A) (f : A → Exec World B)
      → Advances R m
      → ((a : A) → Advances R (f a))
      → Advances R (m >>= f)
  Advances-bind {A} {B} m f first rest = record { at = λ w. go w (m w) (first.at w) }
    where
      go :
          (w : World) (o : Result A × World)
          → R w.db o.1.db
          → R w.db
              (elim o.0 as (λ r. Result B × World) [
                | ok a ↦ f a o.1
                | thrown e ↦ (thrown e, o.1)
              ]).1.db
      go w (ok a, v) moved = order.transitive w.db v.db _ moved ((rest a).at v)
      go w (thrown e, v) moved = moved

  pub Advances-then :
      {A B : Type 0} (m : Exec World A) (n : Exec World B)
      → Advances R m
      → Advances R n
      → Advances R (m >> n)
  Advances-then m n first rest = Advances-bind m (λ _. n) first (λ _. rest)

  pub Advances-with_transaction :
      {A : Type 0} (m : Exec World A) → Advances R m → Advances R (with_transaction m)
  Advances-with_transaction {A} m inner = record { at = λ w. go w (m w) (inner.at w) }
    where
      go :
          (w : World) (o : Result A × World)
          → R w.db o.1.db
          → R w.db
              (elim o.0 as (λ r. Result A × World) [
                | ok a ↦ (ok a, o.1)
                | thrown e ↦ (thrown e, record o.1 { db = w.db })
              ]).1.db
      go w (ok a, v) moved = moved
      go w (thrown e, v) moved = order.reflexive w.db

  pub Advances-rethrow_as :
      {A : Type 0} (e : Exception) (m : Exec World A) → Advances R m → Advances R (rethrow_as e m)
  Advances-rethrow_as {A} e m inner = record { at = λ w. go w (m w) (inner.at w) }
    where
      go :
          (w : World) (o : Result A × World)
          → R w.db o.1.db
          → R w.db
              (elim o.0 as (λ r. Result A × World) [
                | ok a ↦ (ok a, o.1)
                | thrown _ ↦ (thrown e, o.1)
              ]).1.db
      go w (ok a, v) moved = moved
      go w (thrown _, v) moved = moved

  pub Advances-insert :
      (violations : Db → List Constraint) (add : Db → Db)
      → ((db : Db) → violations db ≡ [] → R db (add db))
      → Advances R (insert violations add)
  Advances-insert violations add moves = record { at = λ w. go w (violations w.db) refl }
    where
      go :
          (w : World) (cs : List Constraint)
          → violations w.db ≡ cs
          → R w.db
              (elim cs as (λ r. Result {0} Unit × World) [
                | [] ↦ (ok tt, record w { db = add w.db })
                | c ∷ rest ↦ (thrown (constraint_failed (c ∷ rest)), w)
              ]).1.db
      go w [] clear = moves w.db clear
      go w (c ∷ rest) broken = order.reflexive w.db

pub Advances-command :
    {R : Db → Db → Type 0} (f : Db → Db) → ((db : Db) → R db (f db)) → Advances R (command f)
Advances-command f moves = record { at = λ w. moves w.db }

pub Advances-if :
    {R : Db → Db → Type 0} {A : Type 0} (b : Bool) (m n : Exec World A)
    → Advances R m
    → Advances R n
    → Advances R (if b then m else n)
Advances-if true m n left right = left
Advances-if false m n left right = right

pub Advances-option :
    {R : Db → Db → Type 0} {A B : Type 0} (o : Option A) (m : Exec World B) (f : A → Exec World B)
    → Advances R m
    → ((a : A) → Advances R (f a))
    → Advances R (elim o as (λ x. Exec World B) [ none ↦ m | some a ↦ f a ])
Advances-option none m f left right = left
Advances-option (some a) m f left right = right a
