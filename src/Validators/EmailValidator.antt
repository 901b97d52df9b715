-- ===== src/Validators/EmailValidator.antt =====
-- BACKEND/src/validators/email.validator.ts
use test_specs_to_code.Common.{
  ℕ, String, Bool, true, false, not, ◌||◌, Option, none, some, ◌==◌, if◌then◌else◌,
}
use test_specs_to_code.Common.Text.{units, has_class, is_unit, is_space}
use test_specs_to_code.Common.Regex.{Regex, seq, unit, star, plus, matches}
use test_specs_to_code.Model.{Result, ok, thrown, validation_error}
use test_specs_to_code.Validators.PasswordPolicy.{is_upper, is_lower, is_digit}

-- [A-Za-z]
abbrev pub is_letter : ℕ → Bool
is_letter n = is_upper n || is_lower n

-- [A-Za-z0-9._%+-]
abbrev pub is_local : ℕ → Bool
is_local n =
    is_letter n
    || is_digit n
    || is_unit b'.' n
    || is_unit b'_' n
    || is_unit b'%' n
    || is_unit b'+' n
    || is_unit b'-' n

-- [A-Za-z0-9.-]
abbrev pub is_domain : ℕ → Bool
is_domain n = is_letter n || is_digit n || is_unit b'.' n || is_unit b'-' n

-- /^[A-Za-z0-9._%+-]+@[A-Za-z0-9.-]+\.[A-Za-z]{2,}$/, also EMAIL_PATTERN of
-- BACKEND/src/validators/registration.validator.ts
unfoldable pub email_regex : Regex
unfolding plus
email_regex = seq (plus (unit is_local)) (
    seq (unit (is_unit b'@')) (
      seq (plus (unit is_domain)) (
        seq (unit (is_unit b'.'))
          (seq (unit is_letter) (seq (unit is_letter) (star (unit is_letter)))))))

unfoldable pub is_email : String → Bool
unfolding email_regex
is_email s = matches email_regex (units s)

-- null, undefined and '' are false
unfoldable pub validate_format : Option String → Result Bool
unfolding is_email
validate_format none = ok false
validate_format (some email) =
    if email == ""
    then ok false
    else if is_email email
    then ok true
    else if not (has_class (is_unit b'@') email)
    then thrown (validation_error "Invalid email format: missing @ symbol" "MISSING_AT_SYMBOL")
    else if has_class is_space email || has_class (λ n. not (is_local n || is_unit b'@' n)) email
    then thrown (validation_error "Invalid email format: invalid character" "INVALID_CHARACTER")
    else thrown (validation_error "Invalid email format" "INVALID_EMAIL_FORMAT")
