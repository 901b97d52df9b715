-- ===== src/Validators/RegistrationValidator/Accepted.antt =====
-- Which registration requests are accepted.
use test_specs_to_code.Common.{◌≡◌, ◌≢◌, ◌↔◌, true, arith, eq_iff}
use test_specs_to_code.Validators.EmailValidator.{is_email}
use test_specs_to_code.Validators.RegistrationValidator.{
  RegistrationRequestDto, trimmed, presence_errors, structural_errors, validate,
}

-- What the four fields of a request must be once they are trimmed.
pub record Acceptable (request : RegistrationRequestDto) : Type 0 where
  pub named : trimmed request.username ≢ ""
  pub email : is_email (trimmed request.email_address) ≡ true
  pub addressed : trimmed request.email_address ≢ ""
  pub guarded : trimmed request.password ≢ ""
  pub repeated : trimmed request.password ≡ trimmed request.password_confirmation

-- The validator accepts exactly the requests with a username, an email address of the required
-- form, and a password that the confirmation repeats, all compared without surrounding white space.
pub validate_iff :
    (request : RegistrationRequestDto) → ((validate request).is_valid ≡ true) ↔ Acceptable request
unfolding validate presence_errors structural_errors
validate_iff request =
    let name = eq_iff (trimmed request.username) "" in
    let address = eq_iff (trimmed request.email_address) "" in
    let password = eq_iff (trimmed request.password) "" in
    let confirmation = eq_iff (trimmed request.password_confirmation) "" in
    let same = eq_iff (trimmed request.password) (trimmed request.password_confirmation) in
    (
      λ h. record {
        named = λ e. ground (arith, name, e);
        email = ground (arith);
        addressed = λ e. ground (arith, address, e);
        guarded = λ e. ground (arith, password, e);
        repeated = ground (arith, same);
      },
      λ a. ground (
        arith, name, address, password, confirmation, same, a.named, a.email, a.addressed,
        a.guarded, a.repeated,
      ),
    )
