-- ===== src/Model/Effects.antt =====
-- A method of a service: it reads and writes the state, and returns or throws. What was written
-- before a throw stays written, but for BACKEND/src/db/with-transaction.ts.
use test_specs_to_code.Common.{Bool, true, false, Option, none, some, List, [], ◌∷◌, ◌++◌}
use test_specs_to_code.Model.Entities.{Db, Mail}
use test_specs_to_code.Model.Errors.{Exception, Constraint, constraint_failed}

pub data Result {ℓ} (A : Type ℓ) : Type ℓ where
  ok : A → Result A
  thrown : Exception → Result A

abbrev pub Exec : Type 0 → Type 0 → Type 0
Exec S A = S → Result A × S

module _ {S A : Type 0} where
  abbrev pub pure : A → Exec S A
  pure a s = (ok a, s)

  abbrev pub throw : Exception → Exec S A
  throw e s = (thrown e, s)

  -- The value, or an exception where there is none.
  abbrev pub require : Option A → Exception → Exec S A
  require none e s = (thrown e, s)
  require (some a) e s = (ok a, s)

  -- catch { throw e }
  abbrev pub rethrow_as : Exception → Exec S A → Exec S A
  rethrow_as e m s = let (r, s') = m s in elim r [ ok a ↦ (ok a, s') | thrown _ ↦ (thrown e, s') ]

abbrev pub throw_if : {S : Type 0} → Bool → Exception → Exec S Unit
throw_if true e s = (thrown e, s)
throw_if false e s = (ok tt, s)

infixl 5 ◌>>=◌ ◌>>◌
abbrev pub ◌>>=◌ : {S A B : Type 0} → Exec S A → (A → Exec S B) → Exec S B
◌>>=◌ m f s = let (r, s') = m s in elim r [ ok a ↦ f a s' | thrown e ↦ (thrown e, s') ]

abbrev pub ◌>>◌ : {S A B : Type 0} → Exec S A → Exec S B → Exec S B
m >> n = m >>= λ _. n

-- The database, and the mails handed to the delivery port, oldest first.
pub record World : Type 0 where
  pub db : Db
  pub mails : List Mail

abbrev pub query : {A : Type 0} → (Db → A) → Exec World A
query f w = (ok (f w.db), w)

abbrev pub command : (Db → Db) → Exec World Unit
command f w = (ok tt, record w { db = f w.db })

-- An INSERT or UPDATE: the constraints that it breaks, and the database after it.
abbrev pub insert : (Db → List Constraint) → (Db → Db) → Exec World Unit
insert violations add w = elim (violations w.db) [
  | [] ↦ (ok tt, record w { db = add w.db })
  | c ∷ cs ↦ (thrown (constraint_failed (c ∷ cs)), w)
]

abbrev pub send : Mail → Exec World Unit
send mail w = (ok tt, record w { mails = w.mails ++ mail ∷ [] })

-- A throw rolls the database back.
abbrev pub with_transaction : {A : Type 0} → Exec World A → Exec World A
with_transaction m w =
    let (r, w') = m w in
    elim r [ ok a ↦ (ok a, w') | thrown e ↦ (thrown e, record w' { db = w.db }) ]
