-- ===== src/Validators/PasswordPolicy.antt =====
-- BACKEND/src/validators/password-policy.evaluator.ts
pub mod Rules
use Prim.Native.String
use test_specs_to_code.Common.{
  ℕ, String, Bool, true, false, not, ◌&&◌, ◌||◌, List, [], ◌∷◌, ◌++◌, ◌==◌, ltb, if◌then◌else◌,
}
use test_specs_to_code.Common.Text.{length_of, has_class, trim, to_string, is_between}

pub record PasswordPolicy : Type 0 where
  pub minimum_length : ℕ
  pub maximum_length : ℕ
  pub requires_uppercase : Bool
  pub requires_lowercase : Bool
  pub requires_digit : Bool
  pub requires_special_character : Bool

pub record PasswordValidationResult : Type 0 where
  pub valid : Bool
  pub violations : List String

-- /[A-Z]/, /[a-z]/, /[0-9]/ and /[^A-Za-z0-9]/
abbrev pub is_upper : ℕ → Bool
is_upper = is_between b'A' b'Z'

abbrev pub is_lower : ℕ → Bool
is_lower = is_between b'a' b'z'

abbrev pub is_digit : ℕ → Bool
is_digit = is_between b'0' b'9'

abbrev pub is_special : ℕ → Bool
is_special n = not (is_upper n || is_lower n || is_digit n)

-- violations.push(message), if the rule is broken
abbrev pub violation_if : Bool → String → List String
violation_if true message = message ∷ []
violation_if false message = []

abbrev pub is_empty : List String → Bool
is_empty [] = true
is_empty (v ∷ vs) = false

abbrev pub too_long : PasswordPolicy → String
too_long policy =
    String.◌++◌ "Password exceeds maximum length of "
      (String.◌++◌ (to_string policy.maximum_length) " characters.")

abbrev pub too_short : PasswordPolicy → String
too_short policy =
    String.◌++◌ "Password must be at least "
      (String.◌++◌ (to_string policy.minimum_length) " characters.")

-- The rules of steps 3a to 3e, in the order of the source.
unfoldable pub collect_violations : String → PasswordPolicy → List String
collect_violations password policy =
    violation_if (ltb (length_of password) policy.minimum_length) (too_short policy)
    ++ violation_if (policy.requires_uppercase && not (has_class is_upper password))
        "Password must contain at least one uppercase letter."
    ++ violation_if (policy.requires_lowercase && not (has_class is_lower password))
        "Password must contain at least one lowercase letter."
    ++ violation_if (policy.requires_digit && not (has_class is_digit password))
        "Password must contain at least one numeric digit."
    ++ violation_if (policy.requires_special_character && not (has_class is_special password))
        "Password must contain at least one special character."

unfoldable pub evaluate : String → PasswordPolicy → PasswordValidationResult
unfolding collect_violations
evaluate password policy =
    if trim password == ""
    then record { valid = false; violations = "Password is required." ∷ [] }
    else if ltb policy.maximum_length (length_of password)
    then record { valid = false; violations = too_long policy ∷ [] }
    else record {
      valid = is_empty (collect_violations password policy);
      violations = collect_violations password policy;
    }
