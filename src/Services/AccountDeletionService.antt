-- ===== src/Services/AccountDeletionService.antt =====
-- BACKEND/src/services/account-deletion.service.ts. `lower` is JavaScript's toLowerCase().
pub mod Requests
pub mod Confirm
pub mod Anonymised
pub mod Complete
use Prim.Native.String
use test_specs_to_code.Common.{
  ℕ, ◌+◌, ◌*◌, String, Bool, not, Option, none, some, [], ◌∷◌, ◌==◌, ltb, is_some,
}
use test_specs_to_code.Common.Text.{to_string}
use test_specs_to_code.Model.{
  UserEntity, DeletionStatus, Mail, is_active, status_text, account_not_active,
  deletion_request_already_pending, deletion_request_not_found, deletion_otp_expired,
  deletion_otp_invalid, Crypto, Exec, World, pure, throw, require, throw_if, query, command, insert,
  send, with_transaction, ◌>>=◌, ◌>>◌,
}
use test_specs_to_code.Repositories.UserRepository.{
  find_by_id, anonymized, anonymized_violations, update_user,
}
use test_specs_to_code.Repositories.DeletionRequestRepository.{
  new_deletion_request, insert_deletion_request, deletion_request_violations,
  find_pending_by_user_id, update_request_status,
}
use test_specs_to_code.Repositories.DeletionNotificationRecordRepository.{
  new_notification, insert_notification, notification_violations,
}
use test_specs_to_code.Repositories.SessionRepository.{invalidate_all_for_user}

-- BACKEND/src/config/account-deletion.config.ts
pub record AccountDeletionConfig : Type 0 where
  pub otp_expiry_minutes : ℕ
  pub request_email_template_id : String
  pub notice_email_template_id : String

pub record DeletionRequestResult : Type 0 where
  pub request_id : String
  pub expires_at : ℕ

pub record DeletionConfirmationResult : Type 0 where
  pub user_id : String
  pub deleted_at : ℕ

-- `user === null || user.status !== 'active'`
unfoldable pub require_active : Option UserEntity → Exec World UserEntity
require_active none = throw (account_not_active "unknown")
require_active (some user) = do
  throw_if (not (is_active user.status)) (account_not_active (status_text user.status))
  pure user

abbrev pub deletion_mail : AccountDeletionConfig → UserEntity → String → Mail
deletion_mail config user code = record {
  address = user.email;
  name = user.username;
  subject = "Confirm your account deletion";
  template_id = config.request_email_template_id;
  template_vars =
      ("code", code)
      ∷ ("displayName", user.username)
      ∷ ("expiry_minutes", to_string config.otp_expiry_minutes)
      ∷ [];
}

abbrev pub anonymized_email : UserEntity → String
anonymized_email user = String.◌++◌ "deleted-" (String.◌++◌ user.id "@deleted.invalid")

abbrev pub anonymized_username : UserEntity → String
anonymized_username user = String.◌++◌ "deleted-user-" user.id

module _ (crypto : Crypto) where
  -- `code` is what generateNumericCode drew and `id` the row's uuid.
  unfoldable pub request_deletion :
      AccountDeletionConfig → String → String → String → ℕ → Exec World DeletionRequestResult
  unfolding require_active
  request_deletion config user_id code id issued_at = do
    found ← query (find_by_id user_id)
    user ← require_active found
    existing ← query (find_pending_by_user_id user_id)
    throw_if (is_some existing) (deletion_request_already_pending user_id)
    let expires_at = issued_at + config.otp_expiry_minutes * 60 * 1000
    let row = new_deletion_request id user_id (crypto.hash_code code) issued_at expires_at
    insert (deletion_request_violations row) (insert_deletion_request row)
    send (deletion_mail config user code)
    pure (record { request_id = id; expires_at = expires_at })

  -- `record_id` is the uuid of the notification.
  unfoldable pub confirm_deletion :
      (String → String) → String → String → String → ℕ → Exec World DeletionConfirmationResult
  confirm_deletion lower user_id code record_id now = do
    pending ← query (find_pending_by_user_id user_id)
    request ← require pending (deletion_request_not_found user_id)
    throw_if (ltb request.expires_at now) (deletion_otp_expired user_id)
    throw_if (not (crypto.hash_code code == request.code_hash)) (deletion_otp_invalid user_id)
    found ← query (find_by_id user_id)
    user ← require found (deletion_request_not_found user_id)
    let notice = new_notification record_id user.id user.email now now
    let username = anonymized_username user
    with_transaction (do
      insert (anonymized_violations user.id (anonymized_email user) (lower username))
          (update_user user.id (anonymized (anonymized_email user) username (lower username) now))
      command (update_request_status request.id DeletionStatus.confirmed now)
      command (invalidate_all_for_user user.id now)
      insert (notification_violations notice) (insert_notification notice))
    pure (record { user_id = user.id; deleted_at = now })

unfoldable pub cancel_deletion : String → ℕ → Exec World Unit
cancel_deletion user_id now = do
  pending ← query (find_pending_by_user_id user_id)
  request ← require pending (deletion_request_not_found user_id)
  command (update_request_status request.id DeletionStatus.cancelled now)
