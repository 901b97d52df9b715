-- ===== src/Model/Inversion.antt =====
-- What a returned result shows of the steps of a method.
use test_specs_to_code.Common.{◌⊎◌, inl, inr, refl}
use test_specs_to_code.Model.Errors.{Exception}
use test_specs_to_code.Common.{◌≡◌, refl, arith}
use test_specs_to_code.Model.Effects.{Result, ok, thrown, Exec, ◌>>=◌}

pub >>=-eq-ok :
    {S A B : Type 0} (m : Exec S A) (f : A → Exec S B) (s s' : S) (b : B)
    → (m >>= f) s ≡ (ok b, s')
    → (a : A) × (v : S) × (m s ≡ (ok a, v)) × (f a v ≡ (ok b, s'))
>>=-eq-ok {S} {A} {B} m f s s' b e = go (m s) refl
  where
    go : (o : Result A × S) → m s ≡ o → (a : A) × (v : S) × (m s ≡ (ok a, v)) × (f a v ≡ (ok b, s'))
    go (ok a, v) h = (a, v, h, ground arith)
    go (thrown x, v) h = ground arith

pub Result-cases :
    {A : Type 0} → (r : Result A) → ((a : A) × (r ≡ ok a)) ⊎ ((x : Exception) × (r ≡ thrown x))
Result-cases (ok a) = inl (a, refl)
Result-cases (thrown x) = inr (x, refl)
