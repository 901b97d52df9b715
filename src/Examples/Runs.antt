-- ===== src/Examples/Runs.antt =====
-- Runs of the server: what alice and bob have done, followed by a login of alice.
use test_specs_to_code.Repositories.UserRepository.{update_user}
use test_specs_to_code.Repositories.DeletionRequestRepository.{update_request_status}
use test_specs_to_code.Repositories.SessionRepository.{invalidate_all_for_user}
use test_specs_to_code.Repositories.DeletionNotificationRecordRepository.{notification_violations}
use test_specs_to_code.Repositories.UserRepository.{anonymized_violations}
use test_specs_to_code.Repositories.DeletionRequestRepository.{insert_deletion_request}
use test_specs_to_code.Repositories.DeletionRequestRepository.{deletion_request_violations}
use test_specs_to_code.Services.AccountDeletionService.{request_deletion}
use test_specs_to_code.Repositories.DeletionRequestRepository.{find_pending_by_user_id}
use test_specs_to_code.Repositories.TokenRepository.{find_by_token_value}
use test_specs_to_code.Common.Text.{has_class}
use test_specs_to_code.Common.Text.{length_of}
use test_specs_to_code.Common.Text.{trim}
use test_specs_to_code.Validators.PasswordPolicy.{evaluate}
use test_specs_to_code.Repositories.PasswordRecoveryRequestRepository.{insert_recovery_request}
use test_specs_to_code.Repositories.PasswordRecoveryRequestRepository.{recovery_request_violations}
use test_specs_to_code.Repositories.UserRepository.{find_by_email}
use test_specs_to_code.Services.PasswordRecoveryService.{request_recovery}
use test_specs_to_code.Repositories.PasswordRecoveryRequestRepository.{find_by_token}
use test_specs_to_code.Table.{append_row}
use test_specs_to_code.Repositories.SessionRepository.{insert_session}
use test_specs_to_code.Repositories.Constraints.{user_exists}
use test_specs_to_code.Repositories.SessionRepository.{session_violations}
use test_specs_to_code.Services.SessionService.{create_session}
use test_specs_to_code.Repositories.SessionRepository.{find_by_token_hash}
use test_specs_to_code.Common.{true}
use test_specs_to_code.Repositories.UserRepository.{find_by_id}
use test_specs_to_code.Common.{ℕ, ◌≡◌, ◌≢◌, refl}
use test_specs_to_code.Table.{select_first}
use test_specs_to_code.Table.Lasting.{holds}
use test_specs_to_code.Model.{World, ok, thrown, foreign_key, token_expired}
use test_specs_to_code.Http.{text}
use test_specs_to_code.Services.SessionService.{valid, validate_session, invalidate_session}
use test_specs_to_code.Services.PasswordRecoveryService.{reset_password}
use test_specs_to_code.Services.ActivationService.{activate}
use test_specs_to_code.Services.AccountDeletionService.{confirm_deletion}
use test_specs_to_code.Services.OtpService.{OtpState}
use test_specs_to_code.System.{Setup, Request, handle, Reach, here, next, request, login}
use test_specs_to_code.System.Rules.{is_deleted}
use test_specs_to_code.System.Invariants.{Single, run-Single}
use test_specs_to_code.System.Refusals.{
  logout-forever, reset-forever, deletion-forever, activation-forever,
}
use test_specs_to_code.Examples.Fixtures.{
  demo_crypto, start, invited, default_policy, three_strikes, at_time, recovery, deletion,
  one_time_codes,
}
use test_specs_to_code.Examples.Codes
use test_specs_to_code.Examples.Codes.{three_requests}
use test_specs_to_code.Examples.Deletions
use test_specs_to_code.Examples.Deletions.{asked, confirmed, confirmation, lower}
use test_specs_to_code.Examples.Sessions.{with_session}
use test_specs_to_code.Examples.Resets.{requested, reset_done}
use test_specs_to_code.Examples.Mails.{activated}

abbrev pub demo_setup : Setup ℕ
demo_setup = record {
  crypto = demo_crypto;
  lower = lower;
  iso = λ t. "a date";
  named = λ cs. foreign_key;
  guard = three_requests;
  policy = default_policy;
  lockout = three_strikes;
  expiry_seconds = 60;
  otp = one_time_codes;
  recovery = recovery;
  deletion = deletion;
  outbox = record { outbox_max_retries = 3; activation_base_url = ""; sendgrid_template_id = "t" };
  admin_bearer_token = "admin";
}

abbrev pub at_world : World → OtpState ℕ
at_world w = record { world = w; counters = 0 }

abbrev pub alice_logs_in : Request
alice_logs_in = login (text "alice@example.com") (text "Secret-1") (at_time 4000)

-- The state after the login of alice.
abbrev pub after_login : World → OtpState ℕ
after_login w = (handle demo_setup alice_logs_in (at_world w)).1

pub login_run : (w : World) → Reach demo_setup (at_world w) (after_login w)
login_run w = next here (request alice_logs_in)

abbrev pub logged_out : World
logged_out = (invalidate_session demo_crypto "token" 2000 2000 with_session).1

logout-forever_example :
    (validate_session demo_crypto "token" 5000 5000 (after_login logged_out).world).0
    ≢ ok (valid "u1")
unfolding invalidate_session find_by_token_hash select_first create_session session_violations
    user_exists insert_session append_row
logout-forever_example =
    logout-forever demo_crypto demo_setup "token" "u1" 2000 2000 5000 5000 (at_world with_session)
      (after_login logged_out) logged_out refl (login_run logged_out)

reset-forever_example :
    reset_password demo_crypto default_policy "recover" "An0ther-one" "salt" 5000
      (after_login reset_done).world
    ≡ (thrown token_expired, (after_login reset_done).world)
unfolding reset_password find_by_token select_first request_recovery find_by_email
    recovery_request_violations user_exists insert_recovery_request append_row evaluate trim
    length_of has_class
reset-forever_example =
    reset-forever demo_crypto demo_setup default_policy "recover" "Chang3d-it" "salt" "An0ther-one"
      "salt" 2000 5000 (at_world requested) (after_login reset_done) reset_done refl
      (login_run reset_done)

deletion-forever_example :
    (holds is_deleted (find_by_id "u1" (after_login confirmed).world.db) ≡ true)
    × ((validate_session demo_crypto "token" 5000 5000 (after_login confirmed).world).0
        ≢ ok (valid "u1"))
unfolding confirm_deletion find_pending_by_user_id select_first request_deletion find_by_id
    create_session session_violations user_exists insert_session deletion_request_violations
    insert_deletion_request append_row anonymized_violations notification_violations
    invalidate_all_for_user update_request_status update_user
deletion-forever_example =
    deletion-forever demo_crypto demo_setup lower "u1" "123456" "n1" "token" 3000 5000 5000
      (at_world asked) (after_login confirmed) confirmed confirmation refl (login_run confirmed)

activation-forever_example :
    (activate "activate-bob" 5000 5000 (after_login activated).world).0
    ≢ ok (record { user_id = "u2"; activated_at = 5000 })
unfolding activate find_by_token_value select_first find_by_id
activation-forever_example =
    activation-forever demo_crypto demo_setup "activate-bob" 1000 5000 1001 5000 (at_world invited)
      (after_login activated) activated (record { user_id = "u2"; activated_at = 1001 })
      (record { user_id = "u2"; activated_at = 5000 }) refl (login_run activated)

run-Single_example : Single (after_login start).world.db
run-Single_example =
    run-Single demo_setup (at_world start) (after_login start) (login_run start)
      (Deletions.start-AtMostOne, Codes.start-AtMostOne)
