-- ===== src/System/Answers.antt =====
-- Which requests are answered: a handler that rejects sends nothing, since the routes of
-- BACKEND/src/routes drop its promise.
pub mod Registering
pub mod Guards
pub mod Routes
use test_specs_to_code.Common.{if◌then◌else◌}
use test_specs_to_code.Http.{Response, respond}
use test_specs_to_code.Model.{◌>>=◌, ◌>>◌}
use test_specs_to_code.Services.OtpService.{within}
use test_specs_to_code.Common.{ℕ, String, Bool, true, false, ◌≡◌, refl, Option, none, some, arith}
use test_specs_to_code.Model.{Exec, Exception, Result, ok, thrown, pure, World, Db, query, command}

-- The method returns, in every state.
pub record Returns {S A : Type 0} (m : Exec S A) : Type 0 where
  pub at : (s : S) → (a : A) × ((m s).0 ≡ ok a)

pub Returns-pure : {S A : Type 0} (a : A) → Returns {S = S} (pure a)
Returns-pure a = record { at = λ s. (a, refl) }

pub Returns-query : {A : Type 0} (f : Db → A) → Returns (query f)
Returns-query f = record { at = λ w. (f w.db, refl) }

pub Returns-command : (f : Db → Db) → Returns (command f)
Returns-command f = record { at = λ w. (tt, refl) }

pub Returns-bind :
    {S A B : Type 0} (m : Exec S A) (f : A → Exec S B)
    → Returns m
    → ((a : A) → Returns (f a))
    → Returns (m >>= f)
Returns-bind {S} {A} {B} m f first rest = record { at = λ s. go (m s) (first.at s) }
  where
    go :
        (o : Result A × S)
        → ((a : A) × (o.0 ≡ ok a))
        → (b : B) × ((elim o.0 as (λ r. Result B × S) [
          | ok a ↦ f a o.1
          | thrown e ↦ (thrown e, o.1)
        ]).0
            ≡ ok b)
    go (ok a, s) returned = (rest a).at s
    go (thrown e, s) (a, e') = absurd (ground arith)

pub Returns-then :
    {S A B : Type 0} (m : Exec S A) (n : Exec S B) → Returns m → Returns n → Returns (m >> n)
Returns-then m n first rest = Returns-bind m (λ _. n) first (λ _. rest)

pub Returns-respond :
    {S A : Type 0} (m : Exec S A) (f : A → Response) (g : Exception → Response)
    → Returns (respond m f g)
Returns-respond {S} {A} m f g = record { at = λ s. go (m s) }
  where
    go :
        (o : Result A × S)
        → (r : Response) × ((elim o.0 as (λ x. Result Response × S) [
          | ok a ↦ (ok (f a), o.1)
          | thrown e ↦ (ok (g e), o.1)
        ]).0
            ≡ ok r)
    go (ok a, s) = (f a, refl)
    go (thrown e, s) = (g e, refl)

pub Returns-if :
    {S A : Type 0} (b : Bool) (m n : Exec S A)
    → Returns m
    → Returns n
    → Returns (if b then m else n)
Returns-if true m n left right = left
Returns-if false m n left right = right

-- The same, where the first branch needs its condition.
pub Returns-when :
    {S A : Type 0} (b : Bool) (m n : Exec S A)
    → (b ≡ true → Returns m)
    → Returns n
    → Returns (if b then m else n)
Returns-when true m n left right = left refl
Returns-when false m n left right = right

pub Returns-option :
    {S A B : Type 0} (o : Option A) (m : Exec S B) (f : A → Exec S B)
    → Returns m
    → ((a : A) → Returns (f a))
    → Returns (elim o as (λ x. Exec S B) [ none ↦ m | some a ↦ f a ])
Returns-option none m f left right = left
Returns-option (some a) m f left right = right a

pub Returns-within : {K A : Type 0} (m : Exec World A) → Returns m → Returns (within {K = K} m)
Returns-within m inner = record { at = λ s. inner.at s.world }
