-- ===== src/Model/Entities.antt =====
-- BACKEND/src/types/*.types.ts and the tables of BACKEND/db/migrations/*.sql. A Date is its number
-- of milliseconds, so that a column written by toISOString() reads back as the same number.
use test_specs_to_code.Common.{ℕ, String, Bool, true, false, Option, List}

pub data AccountStatus : Type 0 where
  pending active suspended deleted : AccountStatus

abbrev pub is_active : AccountStatus → Bool
is_active AccountStatus.active = true
is_active _ = false

abbrev pub is_pending : AccountStatus → Bool
is_pending AccountStatus.pending = true
is_pending _ = false

-- The status as the exceptions print it.
abbrev pub status_text : AccountStatus → String
status_text AccountStatus.pending = "pending"
status_text AccountStatus.active = "active"
status_text AccountStatus.suspended = "suspended"
status_text AccountStatus.deleted = "deleted"

pub record UserEntity : Type 0 where
  pub id : String
  pub username : String
  pub username_normalised : String
  pub email : String
  pub password_hash : String
  pub status : AccountStatus
  pub registration_timestamp : ℕ
  pub activated_at : Option ℕ
  pub failed_login_count : ℕ
  pub locked_until : Option ℕ
  pub last_login_at : Option ℕ
  pub deleted_at : Option ℕ

pub record ActivationToken : Type 0 where
  pub id : String
  pub user_id : String
  pub token_value : String
  pub issued_at : ℕ
  pub expires_at : ℕ
  pub consumed : Bool
  pub consumed_at : Option ℕ

pub data DeliveryStatus : Type 0 where
  queued sent failed : DeliveryStatus

abbrev pub is_queued : DeliveryStatus → Bool
is_queued DeliveryStatus.queued = true
is_queued _ = false

abbrev pub is_same_status : DeliveryStatus → DeliveryStatus → Bool
is_same_status DeliveryStatus.queued DeliveryStatus.queued = true
is_same_status DeliveryStatus.sent DeliveryStatus.sent = true
is_same_status DeliveryStatus.failed DeliveryStatus.failed = true
is_same_status _ _ = false

pub record RegistrationEmailRecord : Type 0 where
  pub record_id : String
  pub user_id : String
  pub recipient_address : String
  pub dispatch_timestamp : ℕ
  pub delivery_status : DeliveryStatus
  pub retry_count : ℕ
  pub activation_token_id : Option String

pub data OtpStatus : Type 0 where
  pending delivered failed : OtpStatus

pub record OtpRequestEntity : Type 0 where
  pub id : String
  pub user_id : String
  pub email_address : String
  pub code_hash : String
  pub status : OtpStatus
  pub created_at : ℕ
  pub expires_at : ℕ
  pub invalidated_at : Option ℕ
  pub attempt_sequence : ℕ

pub record SessionEntity : Type 0 where
  pub id : String
  pub user_id : String
  pub token_hash : String
  pub created_at : ℕ
  pub expires_at : ℕ
  pub invalidated : Bool
  pub invalidated_at : Option ℕ

pub record PasswordRecoveryRequestEntity : Type 0 where
  pub id : String
  pub user_id : String
  pub token : String
  pub requested_at : ℕ
  pub expires_at : ℕ
  pub consumed : Bool
  pub consumed_at : Option ℕ

pub data DeletionStatus : Type 0 where
  pending confirmed cancelled : DeletionStatus

abbrev pub is_pending_deletion : DeletionStatus → Bool
is_pending_deletion DeletionStatus.pending = true
is_pending_deletion _ = false

pub record DeletionRequestEntity : Type 0 where
  pub id : String
  pub user_id : String
  pub code_hash : String
  pub issued_at : ℕ
  pub expires_at : ℕ
  pub status : DeletionStatus
  pub confirmed_at : Option ℕ
  pub cancelled_at : Option ℕ

pub record DeletionNotificationRecord : Type 0 where
  pub record_id : String
  pub user_id : String
  pub recipient_address : String
  pub deletion_date : ℕ
  pub dispatch_timestamp : ℕ
  pub delivery_status : DeliveryStatus
  pub retry_count : ℕ

-- The database: a list of rows for each table.
pub record Db : Type 0 where
  pub users : List UserEntity
  pub activation_tokens : List ActivationToken
  pub registration_email_records : List RegistrationEmailRecord
  pub otp_requests : List OtpRequestEntity
  pub sessions : List SessionEntity
  pub password_recovery_requests : List PasswordRecoveryRequestEntity
  pub account_deletion_requests : List DeletionRequestEntity
  pub account_deletion_notification_records : List DeletionNotificationRecord

-- One call of EmailDeliveryPort.sendTransactional.
pub record Mail : Type 0 where
  pub address : String
  pub name : String
  pub subject : String
  pub template_id : String
  pub template_vars : List (String × String)
