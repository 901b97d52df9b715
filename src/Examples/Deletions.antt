-- ===== src/Examples/Deletions.antt =====
-- Account deletion: alice requests, confirms and cancels.
use test_specs_to_code.Common.{◌≤◌}
use test_specs_to_code.Model.{DeletionRequestEntity, DeliveryStatus}
use test_specs_to_code.Repositories.SessionRepository.{count_active_for_user}
use test_specs_to_code.Services.AccountDeletionService.Anonymised.{
  find_notice, confirm_deletion-anonymises,
}
use test_specs_to_code.Examples.Fixtures.{alice}
use test_specs_to_code.Services.AccountDeletionService.Complete.{request_deletion-confirm}
use test_specs_to_code.Repositories.UserRepository.{anonymized_violations}
use test_specs_to_code.Repositories.UserRepository.{reset_failed_login_count}
use test_specs_to_code.Repositories.UserRepository.{update_last_login_at}
use test_specs_to_code.Services.LoginGuard.{check_lockout}
use test_specs_to_code.Repositories.DeletionNotificationRecordRepository.{insert_notification}
use test_specs_to_code.Table.{update_where}
use test_specs_to_code.Model.{AccountStatus}
use test_specs_to_code.Repositories.UserRepository.{update_user}
use test_specs_to_code.Repositories.DeletionRequestRepository.{update_request_status}
use test_specs_to_code.Repositories.SessionRepository.{invalidate_all_for_user}
use test_specs_to_code.Repositories.DeletionNotificationRecordRepository.{notification_violations}
use test_specs_to_code.Table.{append_row}
use test_specs_to_code.Repositories.DeletionRequestRepository.{insert_deletion_request}
use test_specs_to_code.Repositories.DeletionRequestRepository.{deletion_request_violations}
use test_specs_to_code.Repositories.DeletionRequestRepository.{find_pending_by_user_id}
use test_specs_to_code.Repositories.UserRepository.{find_by_id}
use test_specs_to_code.Repositories.SessionRepository.{insert_session}
use test_specs_to_code.Repositories.Constraints.{user_exists}
use test_specs_to_code.Table.{select_first}
use test_specs_to_code.Repositories.SessionRepository.{session_violations}
use test_specs_to_code.Table.{count_where}
use test_specs_to_code.Services.AuthService.{LoginInputs}
use test_specs_to_code.Repositories.UserRepository.{update_status}
use test_specs_to_code.Common.{arith, ◌≡◌, ◌≢◌, String, refl, some}
use test_specs_to_code.Model.{UserEntity, World, ok, thrown, deletion_request_not_found}
use test_specs_to_code.Repositories.UserRepository.{find_by_email}
use test_specs_to_code.Services.SessionService.{create_session}
use test_specs_to_code.Services.AuthService.{login}
use test_specs_to_code.Services.AccountDeletionService.{
  DeletionRequestResult, DeletionConfirmationResult, request_deletion, confirm_deletion,
  cancel_deletion,
}
use test_specs_to_code.Services.AccountDeletionService.Requests.{
  AtMostOnePending, request_deletion-AtMostOne, cancel_deletion-again,
}
use test_specs_to_code.Services.AccountDeletionService.Confirm.{confirm_deletion-again}
use test_specs_to_code.Accounts.Deleted.{confirm_deletion-login}
use test_specs_to_code.Examples.Fixtures.{demo_crypto, start, deletion, three_strikes, at_time}

abbrev pub lower : String → String
lower s = s

-- Alice has a session, and has asked for the deletion.
abbrev pub asked : World
asked =
    (request_deletion demo_crypto deletion "u1" "123456" "d1" 2000
      (create_session demo_crypto 60 "u1" "token" "s1" 1000 start).1).1

abbrev pub answer : DeletionRequestResult
answer = record { request_id = "d1"; expires_at = 602000 }

abbrev pub confirmed : World
confirmed = (confirm_deletion demo_crypto lower "u1" "123456" "n1" 3000 asked).1

abbrev pub confirmation : DeletionConfirmationResult
confirmation = record { user_id = "u1"; deleted_at = 3000 }

pub start-AtMostOne : AtMostOnePending start.db
unfolding count_where
start-AtMostOne user_id = omega arith

pub asked-AtMostOne : AtMostOnePending asked.db
unfolding create_session session_violations select_first user_exists insert_session
asked-AtMostOne =
    request_deletion-AtMostOne demo_crypto deletion "u1" "123456" "d1" 2000
      (create_session demo_crypto 60 "u1" "token" "s1" 1000 start).1 start-AtMostOne

cancel_deletion-again_example :
    AtMostOnePending (cancel_deletion "u1" 3000 asked).1.db
    × (cancel_deletion "u1" 3001 (cancel_deletion "u1" 3000 asked).1
        ≡ (thrown (deletion_request_not_found "u1"), (cancel_deletion "u1" 3000 asked).1))
unfolding cancel_deletion request_deletion create_session find_pending_by_user_id select_first
    find_by_id session_violations user_exists insert_session deletion_request_violations
    insert_deletion_request append_row
cancel_deletion-again_example =
    cancel_deletion-again "u1" 3000 3001 asked (cancel_deletion "u1" 3000 asked).1 asked-AtMostOne
      refl

request_deletion-confirm_example :
    (confirm_deletion demo_crypto lower "u1" "123456" "n1" 3000 asked).0 ≡ ok confirmation
unfolding request_deletion create_session find_by_id notification_violations anonymized_violations
    select_first session_violations user_exists insert_session find_pending_by_user_id
    deletion_request_violations insert_deletion_request
request_deletion-confirm_example =
    request_deletion-confirm demo_crypto deletion lower "u1" "123456" "d1" "n1" 2000 3000
      (create_session demo_crypto 60 "u1" "token" "s1" 1000 start).1 asked answer alice refl refl
      refl refl (omega arith)

confirm_deletion-anonymises_example :
    (request : DeletionRequestEntity) × (user : UserEntity) × (find_pending_by_user_id "u1" asked.db
      ≡ some request)
    × (3000 ≤ request.expires_at)
    × (demo_crypto.hash_code "123456" ≡ request.code_hash)
    × (find_by_id "u1" asked.db ≡ some user)
    × (find_by_id "u1" confirmed.db
        ≡ some (record user {
          status = AccountStatus.deleted;
          email = "deleted-u1@deleted.invalid";
          username = "deleted-user-u1";
          username_normalised = lower "deleted-user-u1";
          deleted_at = some 3000;
        }))
    × (count_active_for_user "u1" 3500 confirmed.db ≡ 0)
    × (find_notice "n1" confirmed.db
        ≡ some (record {
          record_id = "n1";
          user_id = "u1";
          recipient_address = user.email;
          deletion_date = 3000;
          dispatch_timestamp = 3000;
          delivery_status = DeliveryStatus.queued;
          retry_count = 0;
        }))
unfolding confirm_deletion request_deletion create_session find_pending_by_user_id select_first
    find_by_id session_violations user_exists insert_session deletion_request_violations
    insert_deletion_request append_row notification_violations invalidate_all_for_user
    update_request_status update_user anonymized_violations
confirm_deletion-anonymises_example =
    confirm_deletion-anonymises demo_crypto lower "u1" "123456" "n1" 3000 3500 asked confirmed
      confirmation refl

confirm_deletion-again_example :
    AtMostOnePending confirmed.db
    × (confirm_deletion demo_crypto lower "u1" "123456" "n2" 3001 confirmed
        ≡ (thrown (deletion_request_not_found "u1"), confirmed))
    × (cancel_deletion "u1" 3001 confirmed ≡ (thrown (deletion_request_not_found "u1"), confirmed))
unfolding confirm_deletion request_deletion create_session find_pending_by_user_id select_first
    find_by_id session_violations user_exists insert_session deletion_request_violations
    insert_deletion_request append_row notification_violations invalidate_all_for_user
    update_request_status update_user anonymized_violations
confirm_deletion-again_example =
    confirm_deletion-again demo_crypto lower "u1" "123456" "n1" 3000 asked confirmed confirmation
      asked-AtMostOne refl "123456" "n2" 3001

-- Bob, made active by an earlier verification, logs in after alice is gone.
abbrev pub bob_active : World
bob_active = record asked { db = update_status "u2" AccountStatus.active 2500 asked.db }

abbrev pub alice_gone : World
alice_gone = (confirm_deletion demo_crypto lower "u1" "123456" "n1" 3000 bob_active).1

abbrev pub bob_inputs : LoginInputs
bob_inputs = record (at_time 4000) { raw_token = "token2"; session_id = "s2" }

confirm_deletion-login_example :
    (u : UserEntity) × (find_by_email "bob@example.com" alice_gone.db ≡ some u) × (u.id ≢ "u1")
unfolding confirm_deletion request_deletion create_session login find_pending_by_user_id
    select_first update_status update_user find_by_id session_violations user_exists insert_session
    deletion_request_violations insert_deletion_request append_row update_where
    notification_violations invalidate_all_for_user update_request_status find_by_email
    insert_notification check_lockout update_last_login_at reset_failed_login_count
    anonymized_violations
confirm_deletion-login_example =
    confirm_deletion-login demo_crypto lower three_strikes 60 "u1" "123456" "n1" "bob@example.com"
      "Secret-2" 3000 bob_inputs bob_active alice_gone
      (login demo_crypto three_strikes 60 "bob@example.com" "Secret-2" bob_inputs alice_gone).1
      confirmation (record { token = "token2"; expires_at = 64000 }) refl refl
