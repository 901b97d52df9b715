-- ===== src/Validators/PasswordPolicy/Rules.antt =====
-- The password policy as rules on the code units of a password.
use test_specs_to_code.Common.{
  ℕ, zero, suc, ◌≤◌, String, ◌≡◌, refl, ◌≢◌, ◌↔◌, Bool, true, false, not, ◌&&◌, ◌||◌, Option, none,
  some, List, [], ◌∷◌, ◌==◌, arith, eq_iff, ltb, Bool-cases, inl, inr,
}
use test_specs_to_code.Common.Text.{units, length_of, has_unit, has_class, trim}
use test_specs_to_code.Validators.PasswordPolicy.{
  PasswordPolicy, is_upper, is_lower, is_digit, is_special, is_empty, collect_violations, evaluate,
}

-- The code unit at a position.
abbrev pub unit_at : List ℕ → ℕ → Option ℕ
unit_at [] i = none
unit_at (u ∷ us) zero = some u
unit_at (u ∷ us) (suc i) = unit_at us i

-- Some position holds a code unit of the class.
abbrev pub Contains : (ℕ → Bool) → List ℕ → Type 0
Contains p us = (i : ℕ) × (u : ℕ) × (unit_at us i ≡ some u) × (p u ≡ true)

has_unit_sound : (p : ℕ → Bool) (us : List ℕ) → has_unit p us ≡ true → Contains p us
unfolding has_unit
has_unit_sound p [] h = absurd (ground arith)
has_unit_sound p (u ∷ us) h = elim (Bool-cases (p u)) [
  | inl here ↦ (0, u, refl, here)
  | inr later ↦ let (i, v, at, hit) = has_unit_sound p us (ground arith) in (suc i, v, at, hit)
]

has_unit_complete :
    (p : ℕ → Bool) (us : List ℕ) (i u : ℕ)
    → unit_at us i ≡ some u
    → p u ≡ true
    → has_unit p us ≡ true
unfolding has_unit
has_unit_complete p [] i u at hit = absurd (ground arith)
has_unit_complete p (v ∷ us) zero u at hit = ground arith
has_unit_complete p (v ∷ us) (suc i) u at hit = ground (arith, has_unit_complete p us i u at hit)

has_class_iff :
    (p : ℕ → Bool) (password : String) → (has_class p password ≡ true) ↔ Contains p (units password)
unfolding has_class
has_class_iff p password =
    (has_unit_sound p (units password), λ c. has_unit_complete p (units password) c.0 c.1 c.2 c.3)

-- What the policy asks of a password.
pub record Conforms (password : String) (policy : PasswordPolicy) : Type 0 where
  pub not_blank : trim password ≢ ""
  pub short_enough : length_of password ≤ policy.maximum_length
  pub long_enough : policy.minimum_length ≤ length_of password
  pub upper : policy.requires_uppercase ≡ true → Contains is_upper (units password)
  pub lower : policy.requires_lowercase ≡ true → Contains is_lower (units password)
  pub digit : policy.requires_digit ≡ true → Contains is_digit (units password)
  pub special : policy.requires_special_character ≡ true → Contains is_special (units password)

-- The tests of the evaluator, read as one condition.
collect_violations-empty :
    (password : String) (policy : PasswordPolicy)
    → is_empty (collect_violations password policy) ≡ (
        not (ltb (length_of password) policy.minimum_length)
        && (not policy.requires_uppercase || has_class is_upper password)
        && (not policy.requires_lowercase || has_class is_lower password)
        && (not policy.requires_digit || has_class is_digit password)
        && (not policy.requires_special_character || has_class is_special password))
unfolding collect_violations
collect_violations-empty password policy = ground arith

-- One requirement of the policy, as a test and as a condition.
required_iff :
    (required : Bool) (p : ℕ → Bool) (password : String)
    → ((not required || has_class p password) ≡ true)
      ↔ (required ≡ true → Contains p (units password))
required_iff true p password =
    (λ h _. (has_class_iff p password).0 (ground arith), λ c. (has_class_iff p password).1 (c refl))
required_iff false p password = (λ _ h. absurd (ground arith), λ _. refl)

-- The result of the evaluator as one condition.
valid-evaluate :
    (password : String) (policy : PasswordPolicy)
    → (evaluate password policy).valid ≡ (
        not (trim password == "")
        && not (ltb policy.maximum_length (length_of password))
        && is_empty (collect_violations password policy))
unfolding evaluate
valid-evaluate password policy = ground arith

-- The evaluator accepts exactly the passwords that conform to the policy.
pub evaluate_iff :
    (password : String) (policy : PasswordPolicy)
    → ((evaluate password policy).valid ≡ true) ↔ Conforms password policy
evaluate_iff password policy =
    let facts = valid-evaluate password policy in
    let rules = collect_violations-empty password policy in
    let blank = eq_iff (trim password) "" in
    let upper = required_iff policy.requires_uppercase is_upper password in
    let lower = required_iff policy.requires_lowercase is_lower password in
    let digit = required_iff policy.requires_digit is_digit password in
    let special = required_iff policy.requires_special_character is_special password in
    (
      λ h. record {
        not_blank = λ e. ground (arith, facts, blank, e);
        short_enough = ground (arith, facts);
        long_enough = ground (arith, facts, rules);
        upper = upper.0 (ground (arith, facts, rules));
        lower = lower.0 (ground (arith, facts, rules));
        digit = digit.0 (ground (arith, facts, rules));
        special = special.0 (ground (arith, facts, rules));
      },
      λ c. ground (
        arith,
        facts,
        rules,
        blank,
        c.not_blank,
        upper.1 c.upper,
        lower.1 c.lower,
        digit.1 c.digit,
        special.1 c.special,
      ),
    )
