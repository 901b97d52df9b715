-- ===== src/System/Lifecycle/Forever.antt =====
-- The rules for what lasts, and what they give for every run of the server.
use test_specs_to_code.Repositories.OtpRequestRepository.{mark_failed}
use test_specs_to_code.Repositories.OtpRequestRepository.{mark_delivered}
use test_specs_to_code.Repositories.SessionRepository.{invalidate_all_for_user}
use test_specs_to_code.Repositories.SessionRepository.{mark_invalidated}
use test_specs_to_code.Repositories.SessionRepository.{insert_session}
use test_specs_to_code.Common.{String, arith, false, ℕ}
use test_specs_to_code.Model.{DeletionStatus, is_pending_deletion}
use test_specs_to_code.Repositories.DeletionRequestRepository.{update_request_status}
use test_specs_to_code.Services.OtpService.{OtpState}
use test_specs_to_code.Common.{◌≡◌, refl}
use test_specs_to_code.Table.Lasting.{Keeps-append, Keeps-update}
use test_specs_to_code.Model.{Db, UserEntity}
use test_specs_to_code.Repositories.UserRepository.{update_user, insert_user}
use test_specs_to_code.Repositories.EmailRecordRepository
use test_specs_to_code.Repositories.DeletionNotificationRecordRepository
use test_specs_to_code.Repositories.PasswordRecoveryRequestRepository
use test_specs_to_code.System.{Setup, Reach}
use test_specs_to_code.System.Rules.{Rules, IsLasting}
use test_specs_to_code.System.Advance.Steps.{run-Moves}
use test_specs_to_code.System.Lifecycle.{
  Later, Later-order, Later-users, Later-sessions, Later-recoveries, Later-deletions, Later-codes,
  Later-mails, Later-notices,
}
use test_specs_to_code.System.Advance.Statements.{store_otp-Advances, request_deletion-Advances}
use test_specs_to_code.System.Lifecycle.Guarded.{
  activate-Later, verify_otp-Later, sweep-Later, new_code-Later, new_deletion-Later,
}

user-Later :
    (id : String) (f : UserEntity → UserEntity) (db : Db)
    → IsLasting f
    → Later db (update_user id f db)
unfolding update_user
user-Later id f db lasting =
    Later-users db _
      (Keeps-update _ _ _ _ db.users (λ k u. rw (lasting.keeps_id u) refl) lasting.keeps_deleted)

settle-Later :
    (id : String) (status : DeletionStatus) (at : ℕ) (db : Db)
    → is_pending_deletion status ≡ false
    → Later db (update_request_status id status at db)
unfolding update_request_status
settle-Later id status at db h =
    Later-deletions db _ (
      Keeps-update _ _ _ _ db.account_deletion_requests (λ k r. ground arith) (λ r _. ground arith))

Later-Rules : Rules Later
unfolding insert_user insert_session mark_invalidated invalidate_all_for_user
    PasswordRecoveryRequestRepository.insert_recovery_request
    PasswordRecoveryRequestRepository.mark_consumed EmailRecordRepository.insert_email_record
    EmailRecordRepository.update_status EmailRecordRepository.increment_retry_count
    DeletionNotificationRecordRepository.insert_notification
    DeletionNotificationRecordRepository.update_status
    DeletionNotificationRecordRepository.increment_retry_count mark_delivered mark_failed
Later-Rules = record {
  order = Later-order;
  new_user = λ u db. Later-users db _ (Keeps-append _ _ u db.users);
  user = user-Later;
  new_session = λ s db. Later-sessions db _ (Keeps-append _ _ s db.sessions);
  close_session = λ id at db.
      Later-sessions db _ (Keeps-update _ _ _ _ db.sessions (λ k s. refl) (λ s h. refl));
  close_sessions = λ user_id at db.
      Later-sessions db _ (Keeps-update _ _ _ _ db.sessions (λ k s. refl) (λ s h. refl));
  new_recovery = λ r db. Later-recoveries db _ (Keeps-append _ _ r db.password_recovery_requests);
  use_recovery = λ id at db.
      Later-recoveries db _
        (Keeps-update _ _ _ _ db.password_recovery_requests (λ k r. refl) (λ r h. refl));
  new_mail = λ r db. Later-mails db _;
  mail_status = λ id status db. Later-mails db _;
  mail_retry = λ id db. Later-mails db _;
  new_notice = λ r db. Later-notices db _;
  notice_status = λ id status db. Later-notices db _;
  notice_retry = λ id db. Later-notices db _;
  settle = settle-Later;
  code_delivered =
      λ id db. Later-codes db _ (Keeps-update _ _ _ _ db.otp_requests (λ k r. refl) (λ r h. h));
  code_failed =
      λ id db. Later-codes db _ (Keeps-update _ _ _ _ db.otp_requests (λ k r. refl) (λ r h. h));
  deletion_requested = λ crypto config user_id code id issued_at.
      request_deletion-Advances Later-order crypto config user_id code id issued_at
        new_deletion-Later;
  code_stored = λ crypto config user_id user inputs.
      store_otp-Advances Later-order crypto config user_id user inputs
        (sweep-Later user_id inputs.invalidated_at) new_code-Later;
  code_verified = verify_otp-Later;
  activated = activate-Later;
}

-- Through every run of the server, whatever the requests, their order and the ticks of the workers
-- between them: an account that is deleted stays deleted under its id, a closed session stays
-- closed under the hash of its token, a used recovery link and a consumed activation token stay so
-- under their value, a confirmed or cancelled deletion request stays so under its id, and a closed
-- code stays closed under its id.
pub run-Later :
    {K : Type 0} (setup : Setup K) (s t : OtpState K)
    → Reach setup s t
    → Later s.world.db t.world.db
run-Later setup s t run = run-Moves Later-Rules setup run
