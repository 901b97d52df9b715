-- ===== src/Services/EmailDispatchService.antt =====
-- BACKEND/src/services/email-dispatch.service.ts
pub mod Resend
use test_specs_to_code.Common.{ℕ, String, Bool, false, not, ◌&&◌, Option, none, some, if◌then◌else◌}
use test_specs_to_code.Model.{
  UserEntity, ActivationToken, RegistrationEmailRecord, DeliveryStatus, is_pending, is_queued,
  status_text, user_not_found, account_not_pending, duplicate_dispatch, Exec, World, pure, require,
  throw_if, query, insert, ◌>>=◌, ◌>>◌,
}
use test_specs_to_code.Repositories.UserRepository.{find_by_id}
use test_specs_to_code.Repositories.TokenRepository
use test_specs_to_code.Repositories.EmailRecordRepository
use test_specs_to_code.Repositories.EmailRecordRepository.{
  insert_email_record, email_record_violations,
}

-- `token?.id ?? ''`
abbrev pub id_or_empty : Option ActivationToken → String
id_or_empty none = ""
id_or_empty (some token) = token.id

-- The row that both methods insert.
abbrev pub queued_record : String → UserEntity → String → String → ℕ → RegistrationEmailRecord
queued_record record_id user user_id activation_token_id now = record {
  record_id = record_id;
  user_id = user_id;
  recipient_address = user.email;
  dispatch_timestamp = now;
  delivery_status = DeliveryStatus.queued;
  retry_count = 0;
  activation_token_id = some activation_token_id;
}

-- `existing !== null && existing.deliveryStatus === 'queued'`
abbrev pub has_queued : Option RegistrationEmailRecord → Bool
has_queued none = false
has_queued (some r) = is_queued r.delivery_status

-- `record_id` is the uuid of the row.
unfoldable pub enqueue_confirmation_email : String → String → ℕ → Exec World Unit
enqueue_confirmation_email user_id record_id now = do
  found ← query (find_by_id user_id)
  user ← require found (user_not_found user_id)
  throw_if (not (is_pending user.status)) (account_not_pending (status_text user.status))
  existing ← query (EmailRecordRepository.find_by_user_id user_id)
  throw_if (has_queued existing) (duplicate_dispatch user_id)
  token ← query (TokenRepository.find_by_user_id user_id)
  let row = queued_record record_id user user_id (id_or_empty token) now
  insert (email_record_violations row) (insert_email_record row)

unfoldable pub resend_confirmation : String → String → ℕ → Exec World Unit
resend_confirmation user_id record_id now = do
  found ← query (find_by_id user_id)
  user ← require found (user_not_found user_id)
  throw_if (not (is_pending user.status)) (account_not_pending (status_text user.status))
  token ← query (TokenRepository.find_by_user_id user_id)
  let row = queued_record record_id user user_id (id_or_empty token) now
  insert (email_record_violations row) (insert_email_record row)
