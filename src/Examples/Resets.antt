-- ===== src/Examples/Resets.antt =====
-- Password resets with the token that alice requested.
use test_specs_to_code.Common.{arith}
use test_specs_to_code.Services.PasswordRecoveryService.Complete.{request_recovery-reset}
use test_specs_to_code.Common.{none}
use test_specs_to_code.Common.{false}
use test_specs_to_code.Model.{Result}
use test_specs_to_code.Common.Text.{has_class}
use test_specs_to_code.Common.Text.{length_of}
use test_specs_to_code.Common.Text.{trim}
use test_specs_to_code.Validators.PasswordPolicy.{evaluate}
use test_specs_to_code.Table.{append_row}
use test_specs_to_code.Repositories.PasswordRecoveryRequestRepository.{insert_recovery_request}
use test_specs_to_code.Repositories.Constraints.{user_exists}
use test_specs_to_code.Repositories.PasswordRecoveryRequestRepository.{recovery_request_violations}
use test_specs_to_code.Table.{select_first}
use test_specs_to_code.Common.{◌≡◌, refl, true, some}
use test_specs_to_code.Model.{UserEntity, PasswordRecoveryRequestEntity, World, ok}
use test_specs_to_code.Repositories.UserRepository.{find_by_email, find_by_id, set_password_hash}
use test_specs_to_code.Repositories.PasswordRecoveryRequestRepository.{find_by_token}
use test_specs_to_code.Repositories.SessionRepository.{count_active_for_user}
use test_specs_to_code.Services.PasswordRecoveryService.{
  request_recovery, check_reset, commit_reset, reset_password,
}
use test_specs_to_code.Services.PasswordRecoveryService.Reset.{
  MayReset, reset_password-effect, overlapping_resets,
}
use test_specs_to_code.Examples.Fixtures.{
  demo_crypto, demo-AcceptsOwnHash, alice, start, default_policy, recovery,
}

abbrev pub requested : World
requested = (request_recovery recovery "alice@example.com" "recover" "r1" 1000 start).1

abbrev pub the_request : PasswordRecoveryRequestEntity
the_request = record {
  id = "r1";
  user_id = "u1";
  token = "recover";
  requested_at = 1000;
  expires_at = 3601000;
  consumed = false;
  consumed_at = none;
}

abbrev pub reset_done : World
reset_done =
    (reset_password demo_crypto default_policy "recover" "Chang3d-it" "salt" 2000 requested).1

request_recovery-reset_example :
    (reset_password demo_crypto default_policy "recover" "Chang3d-it" "salt" 2000 requested).0
    ≡ ok tt
unfolding find_by_email find_by_token find_by_id select_first evaluate trim length_of has_class
request_recovery-reset_example =
    request_recovery-reset demo_crypto default_policy recovery "alice@example.com" "recover" "r1"
      "Chang3d-it" "salt" 1000 2000 start alice refl refl refl refl refl (omega arith)

reset_password-effect_example :
    MayReset demo_crypto default_policy "recover" "Chang3d-it" 2000 requested the_request
    × (count_active_for_user "u1" 3000 reset_done.db ≡ 0)
    × (v : UserEntity) × (find_by_email "alice@example.com" reset_done.db ≡ some v)
    × (demo_crypto.compare_password "Chang3d-it" v.password_hash ≡ true)
    × (v.status ≡ alice.status)
unfolding reset_password request_recovery find_by_email find_by_token select_first
    recovery_request_violations user_exists insert_recovery_request append_row evaluate trim
    length_of has_class
reset_password-effect_example =
    reset_password-effect demo_crypto default_policy demo-AcceptsOwnHash "recover" "Chang3d-it"
      "salt" "alice@example.com" 2000 3000 requested reset_done the_request alice refl refl refl
      refl

abbrev pub first_commit : Result {0} Unit × World
first_commit =
    commit_reset the_request (demo_crypto.hash_password "salt" "Chang3d-it") 2000 requested

abbrev pub second_commit : Result {0} Unit × World
second_commit =
    commit_reset the_request (demo_crypto.hash_password "salt" "An0ther-one") 2001 first_commit.1

overlapping_resets_example :
    (first_commit.0 ≡ ok tt)
    × (second_commit.0 ≡ ok tt)
    × (find_by_email "alice@example.com" first_commit.1.db
        ≡ some (set_password_hash "bcrypt:Chang3d-it" alice))
    × (find_by_email "alice@example.com" second_commit.1.db
        ≡ some (set_password_hash "bcrypt:An0ther-one" alice))
unfolding check_reset request_recovery find_by_email find_by_token select_first
    recovery_request_violations user_exists insert_recovery_request append_row evaluate trim
    length_of has_class
overlapping_resets_example =
    overlapping_resets demo_crypto default_policy "recover" "Chang3d-it" "An0ther-one" "salt" "salt"
      "alice@example.com" 2000 2001 requested the_request alice refl refl refl refl
