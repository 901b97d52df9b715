-- ===== src/System/Advance/Moves.antt =====
-- The rules of Model/Progress again, for a handler that keeps the counters of the rate limit beside
-- the database, and for a handler's try block.
use test_specs_to_code.Common.{if◌then◌else◌}
use test_specs_to_code.Common.{String, ℕ}
use test_specs_to_code.Http.{Response, respond}
use test_specs_to_code.Model.{Exception, pure, throw, throw_if, ◌>>=◌, ◌>>◌}
use test_specs_to_code.Services.OtpService.{OtpState, ask_guard, within}
use test_specs_to_code.Services.RateLimitGuard.{RateLimitGuard}
use test_specs_to_code.Common.{Bool, true, false, Option, none, some}
use test_specs_to_code.Model.{Db, World, Exec, Result, ok, thrown, IsPreorder, Advances}

module _ (R : Db → Db → Type 0) (K : Type 0) where
  pub record Moves {A : Type 0} (m : Exec (OtpState K) A) : Type 0 where
    pub at : (s : OtpState K) → R s.world.db (m s).1.world.db

module _ {R : Db → Db → Type 0} {K : Type 0} (order : IsPreorder R) where
  pub Moves-within : {A : Type 0} (m : Exec World A) → Advances R m → Moves R K (within m)
  Moves-within m inner = record { at = λ s. inner.at s.world }

  pub Moves-pure : {A : Type 0} (a : A) → Moves R K (pure a)
  Moves-pure a = record { at = λ s. order.reflexive s.world.db }

  pub Moves-throw : {A : Type 0} (e : Exception) → Moves R K (throw {A = A} e)
  Moves-throw e = record { at = λ s. order.reflexive s.world.db }

  pub Moves-throw_if : (b : Bool) (e : Exception) → Moves R K (throw_if b e)
  Moves-throw_if true e = Moves-throw e
  Moves-throw_if false e = Moves-pure tt

  pub Moves-ask_guard :
      (guard : RateLimitGuard K) (user_id : String) (now : ℕ)
      → Moves R K (ask_guard guard user_id now)
  Moves-ask_guard guard user_id now = record { at = λ s. order.reflexive s.world.db }

  pub Moves-bind :
      {A B : Type 0} (m : Exec (OtpState K) A) (f : A → Exec (OtpState K) B)
      → Moves R K m
      → ((a : A) → Moves R K (f a))
      → Moves R K (m >>= f)
  Moves-bind {A} {B} m f first rest = record { at = λ s. go s (m s) (first.at s) }
    where
      go :
          (s : OtpState K) (o : Result A × OtpState K)
          → R s.world.db o.1.world.db
          → R s.world.db
              (elim o.0 as (λ r. Result B × OtpState K) [
                | ok a ↦ f a o.1
                | thrown e ↦ (thrown e, o.1)
              ]).1.world.db
      go s (ok a, t) moved = order.transitive s.world.db t.world.db _ moved ((rest a).at t)
      go s (thrown e, t) moved = moved

  pub Moves-then :
      {A B : Type 0} (m : Exec (OtpState K) A) (n : Exec (OtpState K) B)
      → Moves R K m
      → Moves R K n
      → Moves R K (m >> n)
  Moves-then m n first rest = Moves-bind m (λ _. n) first (λ _. rest)

  pub Moves-respond :
      {A : Type 0} (m : Exec (OtpState K) A) (f : A → Response) (g : Exception → Response)
      → Moves R K m
      → Moves R K (respond m f g)
  Moves-respond {A} m f g inner = record { at = λ s. go s (m s) (inner.at s) }
    where
      go :
          (s : OtpState K) (o : Result A × OtpState K)
          → R s.world.db o.1.world.db
          → R s.world.db
              (elim o.0 as (λ r. Result Response × OtpState K) [
                | ok a ↦ (ok (f a), o.1)
                | thrown e ↦ (ok (g e), o.1)
              ]).1.world.db
      go s (ok a, t) moved = moved
      go s (thrown e, t) moved = moved

pub Moves-if :
    {R : Db → Db → Type 0} {K A : Type 0} (b : Bool) (m n : Exec (OtpState K) A)
    → Moves R K m
    → Moves R K n
    → Moves R K (if b then m else n)
Moves-if true m n left right = left
Moves-if false m n left right = right

pub Moves-option :
    {R : Db → Db → Type 0} {K A B : Type 0} (o : Option A) (m : Exec (OtpState K) B)
    (f : A → Exec (OtpState K) B)
    → Moves R K m
    → ((a : A) → Moves R K (f a))
    → Moves R K (elim o as (λ x. Exec (OtpState K) B) [ none ↦ m | some a ↦ f a ])
Moves-option none m f left right = left
Moves-option (some a) m f left right = right a

pub Advances-respond :
    {R : Db → Db → Type 0} {A : Type 0} (m : Exec World A) (f : A → Response)
    (g : Exception → Response)
    → Advances R m
    → Advances R (respond m f g)
Advances-respond {R} {A} m f g inner = record { at = λ w. go w (m w) (inner.at w) }
  where
    go :
        (w : World) (o : Result A × World)
        → R w.db o.1.db
        → R w.db
            (elim o.0 as (λ r. Result Response × World) [
              | ok a ↦ (ok (f a), o.1)
              | thrown e ↦ (ok (g e), o.1)
            ]).1.db
    go w (ok a, v) moved = moved
    go w (thrown e, v) moved = moved
