-- ===== src/Config.antt =====
-- The files of BACKEND/src/config: how a value is read from the environment, and the configurations
-- that are checked when they are loaded. `lower` is JavaScript's toLowerCase(). Numbers from 2 ^ 53
-- on, which JavaScript rounds, are not modelled.
pub mod Bounds
use test_specs_to_code.Common.{
  ℕ, zero, suc, ◌+◌, ◌-◌, ◌*◌, String, Bool, true, false, not, ◌||◌, Option, none, some, List, [],
  ◌∷◌, ◌==◌, ltb, leb, if◌then◌else◌,
}
use test_specs_to_code.Common.Text.{units, is_unit, is_space, trim}
use test_specs_to_code.Validators.PasswordPolicy.{PasswordPolicy}
use test_specs_to_code.Services.LoginGuard.{LockoutConfig}

-- What parseInt returns but NaN.
pub data ℤ : Type 0 where
  pos : ℕ → ℤ
  -- -1 - n
  negsuc : ℕ → ℤ

abbrev pub negated : ℕ → ℤ
negated zero = pos 0
negated (suc n) = negsuc n

-- n < bound
abbrev pub below : ℤ → ℕ → Bool
below (pos n) bound = ltb n bound
below (negsuc n) bound = true

-- n > bound
abbrev pub above : ℤ → ℕ → Bool
above (pos n) bound = ltb bound n
above (negsuc n) bound = false

-- m > n
abbrev pub exceeds : ℤ → ℤ → Bool
exceeds (pos m) (pos n) = ltb n m
exceeds (pos m) (negsuc n) = true
exceeds (negsuc m) (pos n) = false
exceeds (negsuc m) (negsuc n) = ltb m n

-- A number that is not negative.
abbrev pub magnitude : ℤ → ℕ
magnitude (pos n) = n
magnitude (negsuc n) = 0

-- The errors that the files throw, each with the variable and the value that its text shows.
pub data ConfigError : Type 0 where
  not_an_integer : String → String → ConfigError
  not_a_boolean : String → String → ConfigError
  absent_or_empty : String → ConfigError
  too_small : String → ℤ → ConfigError
  too_large : String → ℤ → ConfigError
  not_ordered : ℤ → ℤ → ConfigError

-- What loading a file gives: its object, or an error that ends the start of the server.
pub data Loaded (A : Type 0) : Type 0 where
  loaded : A → Loaded A
  failed : ConfigError → Loaded A

infixl 5 ◌>>=◌
abbrev pub ◌>>=◌ : {A B : Type 0} → Loaded A → (A → Loaded B) → Loaded B
loaded a >>= f = f a
failed e >>= f = failed e

-- throw, under a condition
abbrev pub fail_if : Bool → ConfigError → Loaded (Unit {0})
fail_if true e = failed e
fail_if false e = loaded tt

-- process.env
abbrev pub Env : Type 0
Env = String → Option String

-- [0-9]
abbrev pub is_decimal : ℕ → Bool
is_decimal u = not (ltb u 48 || ltb 57 u)

-- White space at the beginning is skipped.
unfoldable pub skip_space : List ℕ → List ℕ
skip_space [] = []
skip_space (u ∷ us) = let rest = skip_space us in if is_space u then rest else u ∷ us

-- The number that the digits at the beginning continue.
unfoldable pub read_digits : ℕ → List ℕ → ℕ
read_digits n [] = n
read_digits n (u ∷ us) =
    let rest = read_digits (n * 10 + (u - 48)) us in if is_decimal u then rest else n

abbrev pub starts_decimal : List ℕ → Bool
starts_decimal [] = false
starts_decimal (u ∷ us) = is_decimal u

-- parseInt(s, 10), none for NaN: a sign, then digits; what follows them is ignored.
unfoldable pub parse_unsigned : (ℕ → ℤ) → List ℕ → Option ℤ
parse_unsigned sign us = if starts_decimal us then some (sign (read_digits 0 us)) else none

unfoldable pub parse_signed : List ℕ → Option ℤ
parse_signed [] = none
parse_signed (u ∷ us) =
    if is_unit b'-' u
    then parse_unsigned negated us
    else if is_unit b'+' u
    then parse_unsigned pos us
    else parse_unsigned pos (u ∷ us)

unfoldable pub parse_int : String → Option ℤ
parse_int s = parse_signed (skip_space (units s))

module _ (env : Env) where
  unfoldable pub parse_positive_int : String → ℕ → Loaded ℤ
  parse_positive_int key default_value = elim (env key) [
    | none ↦ loaded (pos default_value)
    | some raw ↦
        if raw == ""
        then loaded (pos default_value)
        else elim (parse_int raw) [ none ↦ failed (not_an_integer key raw) | some n ↦ loaded n ]
  ]

  unfoldable pub require_env_string : String → Loaded String
  require_env_string key = elim (env key) [
    | none ↦ failed (absent_or_empty key)
    | some value ↦ if trim value == "" then failed (absent_or_empty key) else loaded (trim value)
  ]

  -- session.config.ts
  unfoldable pub load_session_expiry : Loaded ℕ
  load_session_expiry = do
    seconds ← parse_positive_int "SESSION_EXPIRY_SECONDS" 3600
    done ← fail_if (below seconds 1) (too_small "SESSION_EXPIRY_SECONDS" seconds)
    loaded (magnitude seconds)

  -- lockout.config.ts
  unfoldable pub load_lockout : Loaded LockoutConfig
  load_lockout = do
    threshold ← parse_positive_int "LOGIN_LOCKOUT_THRESHOLD" 5
    minutes ← parse_positive_int "LOGIN_LOCKOUT_DURATION_MINUTES" 15
    many ← fail_if (below threshold 1) (too_small "LOGIN_LOCKOUT_THRESHOLD" threshold)
    long ← fail_if (below minutes 1) (too_small "LOGIN_LOCKOUT_DURATION_MINUTES" minutes)
    loaded (record {
      login_lockout_threshold = magnitude threshold;
      login_lockout_duration_minutes = magnitude minutes;
    })

  module _ (lower : String → String) where
    -- parseBool of password-policy.config.ts
    unfoldable pub parse_bool : String → Bool → Loaded Bool
    parse_bool key default_value = elim (env key) [
      | none ↦ loaded default_value
      | some raw ↦
          if raw == ""
          then loaded default_value
          else if lower (trim raw) == "true" || lower (trim raw) == "1"
          then loaded true
          else if lower (trim raw) == "false" || lower (trim raw) == "0"
          then loaded false
          else failed (not_a_boolean key raw)
    ]

    -- password-policy.config.ts
    unfoldable pub load_password_policy : Loaded PasswordPolicy
    load_password_policy = do
      minimum ← parse_positive_int "PASSWORD_MIN_LENGTH" 8
      maximum ← parse_positive_int "PASSWORD_MAX_LENGTH" 128
      uppercase ← parse_bool "PASSWORD_REQUIRES_UPPERCASE" true
      lowercase ← parse_bool "PASSWORD_REQUIRES_LOWERCASE" true
      digit ← parse_bool "PASSWORD_REQUIRES_DIGIT" true
      special ← parse_bool "PASSWORD_REQUIRES_SPECIAL" true
      long ← fail_if (below minimum 1) (too_small "PASSWORD_MIN_LENGTH" minimum)
      short ← fail_if (above maximum 1024) (too_large "PASSWORD_MAX_LENGTH" maximum)
      ordered ← fail_if (exceeds minimum maximum) (not_ordered minimum maximum)
      loaded (record {
        minimum_length = magnitude minimum;
        maximum_length = magnitude maximum;
        requires_uppercase = uppercase;
        requires_lowercase = lowercase;
        requires_digit = digit;
        requires_special_character = special;
      })
