-- ===== src/Examples/Registrations.antt =====
-- Registrations: carol, a second carol, and which requests and addresses are accepted.
use test_specs_to_code.Common.{ℕ}
use test_specs_to_code.Controllers.RegistrationController.{
  RegistrationInputs, create_user, created_response, registration_error,
}
use test_specs_to_code.Controllers.RegistrationController.Stored.{create_user-refused}
use test_specs_to_code.Http.{Response, error_response, respond}
use test_specs_to_code.Model.{Result, is_pending}
use test_specs_to_code.Services.OtpService.{OtpState}
use test_specs_to_code.Services.RateLimitGuard.{RateLimitGuard}
use test_specs_to_code.Examples.Codes.{inputs, at_first}
use test_specs_to_code.Examples.Fixtures.{one_time_codes, default_policy}
use test_specs_to_code.Services.AuthService.{login}
use test_specs_to_code.Common.{none}
use test_specs_to_code.Model.{UserEntity, account_not_active, username_conflict}
use test_specs_to_code.Repositories.UserRepository.{insert_user}
use test_specs_to_code.Table.{append_row}
use test_specs_to_code.Repositories.UserRepository.{user_violations}
use test_specs_to_code.Table.{select_first}
use test_specs_to_code.Repositories.UserRepository.{find_by_normalised_username}
use test_specs_to_code.Common.Text.{trim}
use test_specs_to_code.Common.Text.{units}
use test_specs_to_code.Common.Regex.{matches}
use test_specs_to_code.Common.{String, ◌≡◌, ◌↔◌, refl, true, false, some, List, [], ◌∷◌}
use test_specs_to_code.Model.{Constraint, foreign_key, World, ok, thrown}
use test_specs_to_code.Repositories.UserRepository.{find_by_email, find_by_id}
use test_specs_to_code.Validators.EmailValidator.{is_email}
use test_specs_to_code.Validators.RegistrationValidator.{RegistrationRequestDto, validate}
use test_specs_to_code.Validators.RegistrationValidator.Accepted.{Acceptable, validate_iff}
use test_specs_to_code.Validators.UsernameUniquenessValidator.{check_uniqueness}
use test_specs_to_code.Services.RegistrationService.{Registration, registered_message, register}
use test_specs_to_code.Services.RegistrationService.Register.{
  register-pending, register-overlapping,
}
use test_specs_to_code.Examples.Fixtures.{
  demo_crypto, demo-AcceptsOwnHash, start, at_time, three_strikes,
}

abbrev pub lower : String → String
lower s = s

abbrev pub named : List Constraint → Constraint
named [] = foreign_key
named (c ∷ cs) = c

abbrev pub carol : Registration
carol = record { username = "carol"; email_address = "carol@example.com"; password = "Secret-3" }

abbrev pub second_carol : Registration
second_carol = record {
  username = " carol ";
  email_address = "carol@example.org";
  password = "Secret-4";
}

abbrev pub carol_request : RegistrationRequestDto
carol_request = record {
  username = some "carol";
  email_address = some " carol@example.com";
  password = some "Secret-3";
  password_confirmation = some "Secret-3";
}

carol_is_email : is_email "carol.x+y@mail.example.com" ≡ true
unfolding is_email matches units
carol_is_email = refl

no_top_level : is_email "carol@example.c" ≡ false
unfolding is_email matches units
no_top_level = refl

validate_iff_example : ((validate carol_request).is_valid ≡ true) ↔ Acceptable carol_request
validate_iff_example = validate_iff carol_request

abbrev pub with_carol : World
with_carol = (register demo_crypto lower named carol "salt" "u3" 1000 start).1

register-pending_example :
    ((register demo_crypto lower named carol "salt" "u3" 1000 start).0
      ≡ ok (record { user_id = "u3"; message = registered_message }))
    × ((u : UserEntity) × (find_by_email "carol@example.com" with_carol.db ≡ some u)
        × (find_by_normalised_username "carol" with_carol.db ≡ some u)
        × (u.id ≡ "u3")
        × (u.username ≡ "carol")
        × (u.email ≡ "carol@example.com")
        × (u.failed_login_count ≡ 0)
        × (u.locked_until ≡ none)
        × (demo_crypto.compare_password "Secret-3" u.password_hash ≡ true))
    × (login demo_crypto three_strikes 60 "carol@example.com" "Secret-3" (at_time 2000) with_carol
        ≡ (thrown (account_not_active "pending"), with_carol))
    × (check_uniqueness lower (some "carol") with_carol
        ≡ (thrown (username_conflict "carol"), with_carol))
unfolding find_by_email find_by_id trim find_by_normalised_username select_first
register-pending_example =
    register-pending demo_crypto lower named demo-AcceptsOwnHash three_strikes 60 (at_time 2000)
      carol "salt" "u3" 1000 start with_carol refl refl refl refl refl

register-overlapping_example :
    (check_uniqueness lower (some " carol ") start ≡ (ok tt, start))
    × (register demo_crypto lower named second_carol "salt" "u4" 2000 with_carol
        ≡ (thrown (username_conflict "carol"), with_carol))
unfolding register user_violations select_first trim find_by_email find_by_id insert_user append_row
register-overlapping_example =
    register-overlapping demo_crypto lower named carol second_carol "salt" "salt" "u3" "u4" 1000
      2000 start with_carol (record { user_id = "u3"; message = registered_message }) (λ c. refl)
      refl refl refl refl refl

abbrev pub full : RateLimitGuard ℕ
full = record { allow = λ user_id now n. (false, n) }

abbrev pub carol_inputs : RegistrationInputs
carol_inputs = record { salt = "salt"; user_id = "u3"; now = 1000; otp = inputs }

abbrev pub carol_answer : Result Response × OtpState ℕ
carol_answer =
    respond
      (create_user demo_crypto one_time_codes default_policy lower named full carol carol_inputs)
      created_response registration_error at_first

create_user-refused_example :
    (carol_answer.0 ≡ ok (error_response 500 "An unexpected error occurred during registration."))
    × ((u : UserEntity) × (find_by_id "u3" carol_answer.1.world.db ≡ some u)
        × (is_pending u.status ≡ true)
        × (u.username ≡ "carol")
        × (u.email ≡ "carol@example.com"))
    × ((check_uniqueness lower (some "carol") carol_answer.1.world).0
        ≡ thrown (username_conflict "carol"))
unfolding register user_violations select_first trim insert_user
create_user-refused_example =
    create_user-refused demo_crypto one_time_codes default_policy lower named full carol
      carol_inputs at_first carol_answer.1 with_carol
      (record { user_id = "u3"; message = registered_message }) refl refl refl refl
