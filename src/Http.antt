-- ===== src/Http.antt =====
-- What the controllers of BACKEND/src/controllers read from a request and write to the response.
use test_specs_to_code.Common.{
  ℕ, String, Bool, Option, none, some, List, [], ◌∷◌, ◌==◌, if◌then◌else◌,
}
use test_specs_to_code.Common.Text.{trim}
use test_specs_to_code.Model.{Exception, Exec, ok, thrown}
use test_specs_to_code.Validators.RegistrationValidator.{FieldError}

-- A field of a JSON body: missing or null, a string, or another value.
pub data Field : Type 0 where
  absent : Field
  text : String → Field
  other : Field

-- `!x || typeof x !== 'string' || x.trim() === ''` holds where there is none.
unfoldable pub filled : Field → Option String
filled absent = none
filled (text s) = if trim s == "" then none else some s
filled other = none

-- The same with `x === ''`.
unfoldable pub nonempty : Field → Option String
nonempty absent = none
nonempty (text s) = if s == "" then none else some s
nonempty other = none

-- The values of the JSON objects that are sent.
pub data Value : Type 0 where
  str : String → Value
  num : ℕ → Value
  flag : Bool → Value
  null : Value
  strs : List String → Value
  field_errors : List FieldError → Value

-- res.status(status).json(body)
pub record Response : Type 0 where
  pub status : ℕ
  pub body : List (String × Value)

abbrev pub response : ℕ → List (String × Value) → Response
response status body = record { status = status; body = body }

-- { error }
abbrev pub error_response : ℕ → String → Response
error_response status error = response status (("error", str error) ∷ [])

-- { error_code, message } under the key that the controller uses
abbrev pub coded_response : ℕ → String → String → String → Response
coded_response status key code message =
    response status ((key, str code) ∷ ("message", str message) ∷ [])

-- try { ... } catch (err) { ... }, where both blocks end in a response
abbrev pub respond :
    {S A : Type 0} → Exec S A → (A → Response) → (Exception → Response) → Exec S Response
respond m on_return on_throw s =
    let (r, s') = m s in elim r [ ok a ↦ (ok (on_return a), s') | thrown e ↦ (ok (on_throw e), s') ]
