-- ===== src/System/Answers/Registering.antt =====
-- Which registrations are answered.
use test_specs_to_code.Model.{type_error}
use test_specs_to_code.Controllers.RegistrationController.{
  check_formats, email_error, invalid_response, policy_response, post_registration,
  unavailable_response,
}
use test_specs_to_code.Http.{Response, respond}
use test_specs_to_code.Model.{pure, throw}
use test_specs_to_code.Services.OtpService.{OtpState}
use test_specs_to_code.Validators.PasswordPolicy.{evaluate}
use test_specs_to_code.Validators.RegistrationValidator.{validate}
use test_specs_to_code.Common.{List, not, ◌==◌, ◌||◌}
use test_specs_to_code.Common.Text.{has_class, is_space, is_unit}
use test_specs_to_code.Controllers.RegistrationController.{
  RegistrationInputs, claim_username, create_user, created_response, registration_error,
  registration_of,
}
use test_specs_to_code.Services.OtpService.{OtpConfig}
use test_specs_to_code.Services.RateLimitGuard.{RateLimitGuard}
use test_specs_to_code.Validators.EmailValidator.{is_email, is_local}
use test_specs_to_code.Validators.PasswordPolicy.{PasswordPolicy}
use test_specs_to_code.Validators.RegistrationValidator.{RegistrationRequestDto}
use test_specs_to_code.Http.{text}
use test_specs_to_code.Common.{eq_iff, inl, inr, ◌&&◌, ◌≢◌, ◌⊎◌}
use test_specs_to_code.Common.Text.{trim}
use test_specs_to_code.Controllers.RegistrationController.{
  RegistrationBody, read_body, text_field, text_or_empty,
}
use test_specs_to_code.Http.{Field, absent, text}
use test_specs_to_code.Model.{username_conflict, validation_error}
use test_specs_to_code.Validators.EmailValidator.{validate_format}
use test_specs_to_code.Validators.RegistrationValidator.{trimmed}
use test_specs_to_code.Validators.UsernameUniquenessValidator.{check_uniqueness, normalise}
use test_specs_to_code.Validators.RegistrationValidator.Accepted.{validate_iff}
use test_specs_to_code.Common.{if◌then◌else◌}
use test_specs_to_code.Common.{String, Bool, true, false, ◌≡◌, refl, Option, none, some, arith}
use test_specs_to_code.Model.{Crypto, Constraint, Exec, World, Result, ok, thrown}
use test_specs_to_code.System.Answers.{
  Returns, Returns-pure, Returns-bind, Returns-when, Returns-if, Returns-respond,
}

-- Whether the field is missing or a string.
abbrev pub is_text : Field → Bool
is_text absent = true
is_text (text s) = true
is_text Field.other = false

abbrev pub is_textual : RegistrationBody → Bool
is_textual body =
    is_text body.username
    && is_text body.email_address
    && is_text body.password
    && is_text body.password_confirmation

text_field-Returns :
    {S : Type 0} (field : Field) → is_text field ≡ true → Returns {S = S} (text_field field)
unfolding text_field
text_field-Returns absent h = Returns-pure none
text_field-Returns (text s) h = Returns-pure (some s)
text_field-Returns Field.other h = absurd (ground arith)

read_body-Returns :
    {S : Type 0} (body : RegistrationBody)
    → is_textual body ≡ true
    → Returns {S = S} (read_body body)
unfolding read_body
read_body-Returns body h =
    Returns-bind _ _ (text_field-Returns body.username (ground arith)) (λ username.
      Returns-bind _ _ (text_field-Returns body.email_address (ground arith)) (λ email_address.
        Returns-bind _ _ (text_field-Returns body.password (ground arith)) (λ password.
          Returns-bind _ _ (text_field-Returns body.password_confirmation (ground arith))
            (λ password_confirmation. Returns-pure (record {
              username = username;
              email_address = email_address;
              password = password;
              password_confirmation = password_confirmation;
            })))))

-- With a username, the check fails only on a conflict.
check_uniqueness-throws :
    (lower : String → String) (username : Option String) (w : World)
    → trimmed username ≢ ""
    → ((check_uniqueness lower username w).0 ≡ ok tt)
      ⊎ ((check_uniqueness lower username w).0
          ≡ thrown (username_conflict (normalise lower (text_or_empty username))))
unfolding check_uniqueness trimmed
check_uniqueness-throws lower none w named = absurd (named refl)
check_uniqueness-throws lower (some s) w named = ground (arith, eq_iff (trim s) "")

-- The check of the form throws nothing but a ValidationError.
abbrev pub Judges : Result Bool → Type 0
Judges r =
    ((b : Bool) × (r ≡ ok b))
    ⊎ ((error : String) × (code : String) × (r ≡ thrown (validation_error error code)))

Judges-if : (b : Bool) (x y : Result Bool) → Judges x → Judges y → Judges (if b then x else y)
Judges-if true x y left right = left
Judges-if false x y left right = right

validate_format-Judges : (email : Option String) → Judges (validate_format email)
unfolding validate_format
validate_format-Judges none = inl (false, refl)
validate_format-Judges (some email) = Judges-if (email == "") _ _ (inl (false, refl)) (
    Judges-if (is_email email) _ _ (inl (true, refl)) (
      Judges-if (not (has_class (is_unit b'@') email)) _ _ (inr (_, _, refl)) (
        Judges-if
          (has_class is_space email || has_class (λ n. not (is_local n || is_unit b'@' n)) email) _
          _ (inr (_, _, refl)) (inr (_, _, refl)))))

module _ (crypto : Crypto) (config : OtpConfig) (policy : PasswordPolicy) (lower : String → String)
    (named : List Constraint → Constraint) {K : Type 0} (guard : RateLimitGuard K) where
  claim_username-Returns :
      (dto : RegistrationRequestDto) (inputs : RegistrationInputs)
      → trimmed dto.username ≢ ""
      → Returns (claim_username crypto config policy lower named guard dto inputs)
  unfolding claim_username
  claim_username-Returns dto inputs has_name = record {
    at = λ s.
        go s (check_uniqueness lower dto.username s.world)
          (check_uniqueness-throws lower dto.username s.world has_name);
  }
    where
      go :
          (s : OtpState K) (o : Result {0} Unit × World)
          → ((o.0 ≡ ok tt)
              ⊎ (o.0 ≡ thrown (username_conflict (normalise lower (text_or_empty dto.username)))))
          → (r : Response) × ((elim o.0 as (λ x. Result Response × OtpState K) [
            | ok done ↦
                respond
                  (create_user crypto config policy lower named guard (registration_of dto) inputs)
                  created_response
                  registration_error
                  (record s { world = o.1 })
            | thrown (username_conflict username) ↦
                (ok (unavailable_response username), record s { world = o.1 })
            | thrown e ↦ (thrown e, record s { world = o.1 })
          ]).0
              ≡ ok r)
      go s (ok done, w) h =
          (Returns-respond
              (create_user crypto config policy lower named guard (registration_of dto) inputs)
              created_response registration_error).at
            (record s { world = w })
      go s (thrown (username_conflict username), w) h = (unavailable_response username, refl)
      go s (thrown e, w) h = absurd (ground arith)

  check_formats-Returns :
      (dto : RegistrationRequestDto) (inputs : RegistrationInputs)
      → trimmed dto.username ≢ ""
      → Returns (check_formats crypto config policy lower named guard dto inputs)
  unfolding check_formats
  check_formats-Returns dto inputs has_name =
      go (validate_format dto.email_address) (validate_format-Judges dto.email_address)
    where
      go :
          (r : Result Bool)
          → Judges r
          → Returns (elim r as (λ x. Exec (OtpState K) Response) [
            | thrown (validation_error error code) ↦ pure (invalid_response (email_error error))
            | thrown e ↦ throw e
            | ok accepted ↦
                if (evaluate (text_or_empty dto.password) policy).valid
                then claim_username crypto config policy lower named guard dto inputs
                else pure
                    (policy_response (evaluate (text_or_empty dto.password) policy).violations)
          ])
      go (thrown (validation_error error code)) h = Returns-pure _
      go (thrown e) h = absurd (ground arith)
      go (ok accepted) h =
          Returns-if (evaluate (text_or_empty dto.password) policy).valid _ _
            (claim_username-Returns dto inputs has_name)
            (Returns-pure
              (policy_response (evaluate (text_or_empty dto.password) policy).violations))

  pub post_registration-Returns :
      (body : RegistrationBody) (inputs : RegistrationInputs)
      → is_textual body ≡ true
      → Returns (post_registration crypto config policy lower named guard body inputs)
  unfolding post_registration
  post_registration-Returns body inputs h = Returns-bind _ _ (read_body-Returns body h) (λ dto.
      Returns-when (validate dto).is_valid _ _
        (λ accepted. check_formats-Returns dto inputs ((validate_iff dto).0 accepted).named)
        (Returns-pure (invalid_response (validate dto).field_errors)))

  -- One field that is neither missing nor a string, and nothing is sent.
  read_body-rejects :
      (body : RegistrationBody) (s : OtpState K)
      → is_textual body ≡ false
      → read_body body s ≡ (thrown type_error, s)
  unfolding read_body text_field
  read_body-rejects body s h = ground arith

  -- A registration in which the username, the email address, the password or its confirmation is
  -- neither missing nor a string is not answered: the handler throws a TypeError before it reads or
  -- writes anything.
  pub post_registration-rejects :
      (body : RegistrationBody) (inputs : RegistrationInputs) (s : OtpState K)
      → is_textual body ≡ false
      → post_registration crypto config policy lower named guard body inputs s
        ≡ (thrown type_error, s)
  unfolding post_registration
  post_registration-rejects body inputs s h = ground (arith, read_body-rejects body s h)
