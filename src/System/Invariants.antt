-- ===== src/System/Invariants.antt =====
-- The number of active codes and of pending deletion requests of an account, over the runs of the
-- server.
use test_specs_to_code.Common.{false}
use test_specs_to_code.Model.{
  AccountStatus, DeletionRequestEntity, DeletionStatus, OtpRequestEntity, is_pending_deletion,
}
use test_specs_to_code.Repositories.TokenRepository
use test_specs_to_code.Repositories.UserRepository.{update_status}
use test_specs_to_code.Repositories.PasswordRecoveryRequestRepository
use test_specs_to_code.Repositories.EmailRecordRepository
use test_specs_to_code.Repositories.DeletionNotificationRecordRepository
use test_specs_to_code.Repositories.DeletionRequestRepository.{insert_deletion_request}
use test_specs_to_code.Repositories.DeletionRequestRepository.{update_request_status}
use test_specs_to_code.Repositories.OtpRequestRepository.{create_otp_request}
use test_specs_to_code.Repositories.OtpRequestRepository.{invalidate_active_by_user_id}
use test_specs_to_code.Repositories.OtpRequestRepository.{mark_failed}
use test_specs_to_code.Repositories.OtpRequestRepository.{mark_delivered}
use test_specs_to_code.Repositories.SessionRepository.{invalidate_all_for_user}
use test_specs_to_code.Repositories.SessionRepository.{mark_invalidated}
use test_specs_to_code.Repositories.SessionRepository.{insert_session}
use test_specs_to_code.Repositories.UserRepository.{insert_user}
use test_specs_to_code.Common.{arith}
use test_specs_to_code.Model.{OtpStatus}
use test_specs_to_code.Repositories.OtpRequestRepository.{
  invalidate_otp, invalidated_otp, is_active_for, with_otp_status,
}
use test_specs_to_code.Repositories.UserRepository.{update_user}
use test_specs_to_code.Services.OtpService.{OtpState}
use test_specs_to_code.Table.{update_where}
use test_specs_to_code.Common.{ℕ, String, ◌≡◌, refl}
use test_specs_to_code.Repositories.OtpRequestRepository.{has_id}
use test_specs_to_code.Table.Laws.{count_where-update-le, count_where-same}
use test_specs_to_code.Model.{Db, IsPreorder}
use test_specs_to_code.Services.AccountDeletionService.Requests.{
  AtMostOnePending, request_deletion-AtMostOne, update_request_status-AtMostOne,
}
use test_specs_to_code.Services.OtpService.Issue.{AtMostOneActive, store_otp-AtMostOne}
use test_specs_to_code.System.{Setup, Reach}
use test_specs_to_code.System.Rules.{Rules}
use test_specs_to_code.System.Advance.Steps.{run-Moves}
use test_specs_to_code.System.Advance.Statements.{
  store_otp-Advances, request_deletion-Advances, verify_otp-Advances, activate-Advances,
}

-- If the invariant holds before, it holds after.
abbrev pub Preserves : (Db → Type 0) → Db → Db → Type 0
Preserves I a b = I a → I b

Preserves-order : (I : Db → Type 0) → IsPreorder (Preserves I)
Preserves-order I = record { reflexive = λ db h. h; transitive = λ a b c ab bc h. bc (ab h) }

-- Closing a code opens none.
invalidate_otp-AtMostOne :
    (id : String) (at : ℕ) (db : Db)
    → AtMostOneActive db
    → AtMostOneActive (invalidate_otp id at db)
unfolding invalidate_otp
invalidate_otp-AtMostOne id at db h user_id = omega (
  arith,
  h user_id,
  count_where-update-le (is_active_for user_id) (has_id id) (invalidated_otp at) db.otp_requests
      (λ r open_code. ground arith),
)

with_status-AtMostOne :
    (id : String) (status : OtpStatus) (db : Db)
    → AtMostOneActive db
    → AtMostOneActive (record db {
      otp_requests = update_where (has_id id) (with_otp_status status) db.otp_requests;
    })
with_status-AtMostOne id status db h user_id = omega (
  arith,
  h user_id,
  count_where-same (is_active_for user_id) (has_id id) (with_otp_status status) db.otp_requests
      (λ r. refl),
)

settle-Single :
    (id : String) (status : DeletionStatus) (at : ℕ) (db : Db)
    → is_pending_deletion status ≡ false
    → AtMostOnePending db × AtMostOneActive db
    → AtMostOnePending (update_request_status id status at db)
      × AtMostOneActive (update_request_status id status at db)
unfolding update_request_status
settle-Single id status at db over h =
    (update_request_status-AtMostOne id status at db over h.0, h.1)

new_deletion-active :
    (row : DeletionRequestEntity) (db : Db)
    → AtMostOneActive db
    → AtMostOneActive (insert_deletion_request row db)
unfolding insert_deletion_request
new_deletion-active row db h = h

sweep-pending :
    (user_id : String) (at : ℕ) (db : Db)
    → AtMostOnePending db
    → AtMostOnePending (invalidate_active_by_user_id user_id at db)
unfolding invalidate_active_by_user_id
sweep-pending user_id at db h = h

new_code-pending :
    (row : OtpRequestEntity) (db : Db)
    → AtMostOnePending db
    → AtMostOnePending (create_otp_request row db)
unfolding create_otp_request
new_code-pending row db h = h

activation-Single :
    (id : String) (at : ℕ) (db : Db)
    → AtMostOnePending db × AtMostOneActive db
    → AtMostOnePending (update_status id AccountStatus.active at db)
      × AtMostOneActive (update_status id AccountStatus.active at db)
unfolding update_status update_user
activation-Single id at db h = h

close-Single :
    (id : String) (at : ℕ) (db : Db)
    → AtMostOnePending db × AtMostOneActive db
    → AtMostOnePending (invalidate_otp id at db) × AtMostOneActive (invalidate_otp id at db)
unfolding invalidate_otp
close-Single id at db h = (h.0, invalidate_otp-AtMostOne id at db h.1)

consume-Single :
    (id : String) (at : ℕ) (db : Db)
    → AtMostOnePending db × AtMostOneActive db
    → AtMostOnePending (TokenRepository.mark_consumed id at db)
      × AtMostOneActive (TokenRepository.mark_consumed id at db)
unfolding TokenRepository.mark_consumed
consume-Single id at db h = h

-- At most one pending deletion request and one active code for each account.
abbrev pub Single : Db → Type 0
Single db = AtMostOnePending db × AtMostOneActive db

Single-Rules : Rules (Preserves Single)
unfolding update_user insert_user insert_session mark_invalidated invalidate_all_for_user
    PasswordRecoveryRequestRepository.insert_recovery_request
    PasswordRecoveryRequestRepository.mark_consumed EmailRecordRepository.insert_email_record
    EmailRecordRepository.update_status EmailRecordRepository.increment_retry_count
    DeletionNotificationRecordRepository.insert_notification
    DeletionNotificationRecordRepository.update_status
    DeletionNotificationRecordRepository.increment_retry_count mark_delivered mark_failed
Single-Rules = record {
  order = Preserves-order Single;
  new_user = λ u db h. h;
  user = λ id f db lasting h. h;
  new_session = λ s db h. h;
  close_session = λ id at db h. h;
  close_sessions = λ user_id at db h. h;
  new_recovery = λ r db h. h;
  use_recovery = λ id at db h. h;
  new_mail = λ r db h. h;
  mail_status = λ id status db h. h;
  mail_retry = λ id db h. h;
  new_notice = λ r db h. h;
  notice_status = λ id status db h. h;
  notice_retry = λ id db h. h;
  settle = settle-Single;
  code_delivered = λ id db h. (h.0, with_status-AtMostOne id OtpStatus.delivered db h.1);
  code_failed = λ id db h. (h.0, with_status-AtMostOne id OtpStatus.failed db h.1);
  deletion_requested = λ crypto config user_id code id issued_at. record {
    at = λ w h. (
      request_deletion-AtMostOne crypto config user_id code id issued_at w h.0,
      (request_deletion-Advances (Preserves-order AtMostOneActive) crypto config user_id code id
            issued_at (λ row db a. new_deletion-active row db a)).at
          w h.1,
    );
  };
  code_stored = λ crypto config user_id user inputs. record {
    at = λ w h. (
      (store_otp-Advances (Preserves-order AtMostOnePending) crypto config user_id user inputs
            (sweep-pending user_id inputs.invalidated_at) new_code-pending).at
          w h.0,
      store_otp-AtMostOne crypto config user_id user inputs w h.1,
    );
  };
  code_verified = λ crypto user_id passcode checked_at activated_at.
      verify_otp-Advances (Preserves-order Single) crypto user_id passcode checked_at activated_at
        (λ db. activation-Single user_id activated_at db)
        (λ id db. close-Single id activated_at db);
  activated = λ token_value now activated_at.
      activate-Advances (Preserves-order Single) token_value now activated_at
        (λ id db. activation-Single id activated_at db)
        (λ id db. consume-Single id activated_at db);
}

-- No run of the server leads from a state in which each account has at most one pending deletion
-- request and at most one active code to one in which an account has two of either, whatever the
-- requests, their order and the ticks of the workers between them.
pub run-Single :
    {K : Type 0} (setup : Setup K) (s t : OtpState K)
    → Reach setup s t
    → Single s.world.db
    → Single t.world.db
run-Single setup s t run = run-Moves Single-Rules setup run
