-- ===== src/System/Rules.antt =====
-- What a preorder on databases must allow for every step of the server to move along it: a rule for
-- each statement of the repositories, and for the four methods whose statements need their guards.
use test_specs_to_code.Common.{ℕ, String, Bool, true, false, ◌≡◌}
use test_specs_to_code.Model.{
  AccountStatus, UserEntity, SessionEntity, PasswordRecoveryRequestEntity, RegistrationEmailRecord,
  DeletionNotificationRecord, DeliveryStatus, DeletionStatus, is_pending_deletion, Crypto, Db,
  IsPreorder, Advances,
}
use test_specs_to_code.Repositories.UserRepository.{update_user, insert_user}
use test_specs_to_code.Repositories.EmailRecordRepository
use test_specs_to_code.Repositories.EmailRecordRepository.{insert_email_record}
use test_specs_to_code.Repositories.OtpRequestRepository.{mark_delivered, mark_failed}
use test_specs_to_code.Repositories.SessionRepository.{
  insert_session, mark_invalidated, invalidate_all_for_user,
}
use test_specs_to_code.Repositories.PasswordRecoveryRequestRepository
use test_specs_to_code.Repositories.PasswordRecoveryRequestRepository.{insert_recovery_request}
use test_specs_to_code.Repositories.DeletionRequestRepository.{update_request_status}
use test_specs_to_code.Repositories.DeletionNotificationRecordRepository
use test_specs_to_code.Repositories.DeletionNotificationRecordRepository.{insert_notification}
use test_specs_to_code.Services.AccountDeletionService.{AccountDeletionConfig, request_deletion}
use test_specs_to_code.Services.ActivationService.{activate}
use test_specs_to_code.Services.OtpService.{OtpConfig, OtpInputs, store_otp, verify_otp}

abbrev pub is_deleted : UserEntity → Bool
is_deleted u = elim u.status [ AccountStatus.deleted ↦ true | _ ↦ false ]

-- An update of a user that changes no id and revives no deleted account.
pub record IsLasting (f : UserEntity → UserEntity) : Type 0 where
  pub keeps_id : (u : UserEntity) → (f u).id ≡ u.id
  pub keeps_deleted : (u : UserEntity) → is_deleted u ≡ true → is_deleted (f u) ≡ true

pub record Rules (R : Db → Db → Type 0) : Type 0 where
  pub order : IsPreorder R
  pub new_user : (u : UserEntity) (db : Db) → R db (insert_user u db)
  pub user :
      (id : String) (f : UserEntity → UserEntity) (db : Db)
      → IsLasting f
      → R db (update_user id f db)
  pub new_session : (s : SessionEntity) (db : Db) → R db (insert_session s db)
  pub close_session : (id : String) (at : ℕ) (db : Db) → R db (mark_invalidated id at db)
  pub close_sessions :
      (user_id : String) (at : ℕ) (db : Db) → R db (invalidate_all_for_user user_id at db)
  pub new_recovery :
      (r : PasswordRecoveryRequestEntity) (db : Db) → R db (insert_recovery_request r db)
  pub use_recovery :
      (id : String) (at : ℕ) (db : Db)
      → R db (PasswordRecoveryRequestRepository.mark_consumed id at db)
  pub new_mail : (r : RegistrationEmailRecord) (db : Db) → R db (insert_email_record r db)
  pub mail_status :
      (id : String) (status : DeliveryStatus) (db : Db)
      → R db (EmailRecordRepository.update_status id status db)
  pub mail_retry :
      (id : String) (db : Db) → R db (EmailRecordRepository.increment_retry_count id db)
  pub new_notice : (r : DeletionNotificationRecord) (db : Db) → R db (insert_notification r db)
  pub notice_status :
      (id : String) (status : DeliveryStatus) (db : Db)
      → R db (DeletionNotificationRecordRepository.update_status id status db)
  pub notice_retry :
      (id : String) (db : Db)
      → R db (DeletionNotificationRecordRepository.increment_retry_count id db)
  pub settle :
      (id : String) (status : DeletionStatus) (at : ℕ) (db : Db)
      → is_pending_deletion status ≡ false
      → R db (update_request_status id status at db)
  pub code_delivered : (id : String) (db : Db) → R db (mark_delivered id db)
  pub code_failed : (id : String) (db : Db) → R db (mark_failed id db)
  pub deletion_requested :
      (crypto : Crypto) (config : AccountDeletionConfig) (user_id code id : String) (issued_at : ℕ)
      → Advances R (request_deletion crypto config user_id code id issued_at)
  pub code_stored :
      (crypto : Crypto) (config : OtpConfig) (user_id : String) (user : UserEntity)
      (inputs : OtpInputs)
      → Advances R (store_otp crypto config user_id user inputs)
  pub code_verified :
      (crypto : Crypto) (user_id passcode : String) (checked_at activated_at : ℕ)
      → Advances R (verify_otp crypto user_id passcode checked_at activated_at)
  pub activated :
      (token_value : String) (now activated_at : ℕ)
      → Advances R (activate token_value now activated_at)

-- Most updates of a user leave the id and the status alone.
pub IsLasting-same :
    (f : UserEntity → UserEntity)
    → ((u : UserEntity) → (f u).id ≡ u.id)
    → ((u : UserEntity) → (f u).status ≡ u.status)
    → IsLasting f
IsLasting-same f id status = record { keeps_id = id; keeps_deleted = λ u h. rw (status u) h }
