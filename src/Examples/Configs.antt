-- ===== src/Examples/Configs.antt =====
-- A configuration read from an environment that sets one variable, and two numbers as parseInt reads
-- them.
use test_specs_to_code.Config.{read_digits}
use test_specs_to_code.Config.{parse_bool}
use test_specs_to_code.Config.{parse_unsigned}
use test_specs_to_code.Common.Text.{is_space}
use test_specs_to_code.Config.{skip_space}
use test_specs_to_code.Config.{parse_signed}
use test_specs_to_code.Config.{parse_positive_int}
use test_specs_to_code.Common.{◌≤◌, none, some, ◌≡◌, ◌==◌, refl, true, if◌then◌else◌}
use test_specs_to_code.Common.Text.{units}
use test_specs_to_code.Validators.PasswordPolicy.{PasswordPolicy}
use test_specs_to_code.Config.{Env, pos, negsuc, parse_int, load_password_policy}
use test_specs_to_code.Config.Bounds.{load_password_policy-bounds}

abbrev pub long_passwords : Env
long_passwords key = if key == "PASSWORD_MIN_LENGTH" then some " 12" else none

abbrev pub long_policy : PasswordPolicy
long_policy = record {
  minimum_length = 12;
  maximum_length = 128;
  requires_uppercase = true;
  requires_lowercase = true;
  requires_digit = true;
  requires_special_character = true;
}

load_password_policy-bounds_example : (1 ≤ 12) × (12 ≤ 128) × (128 ≤ 1024)
unfolding load_password_policy parse_positive_int parse_int parse_signed skip_space units is_space
    parse_unsigned parse_bool read_digits
load_password_policy-bounds_example =
    load_password_policy-bounds (λ s. s) long_passwords long_policy refl

-- What follows the digits is ignored.
parse_int-minutes : parse_int "10min" ≡ some (pos 10)
unfolding parse_int parse_signed skip_space units is_space parse_unsigned read_digits
parse_int-minutes = refl

-- A negative number is accepted.
parse_int-negative : parse_int "-5" ≡ some (negsuc 4)
unfolding parse_int parse_signed skip_space units is_space parse_unsigned read_digits
parse_int-negative = refl
