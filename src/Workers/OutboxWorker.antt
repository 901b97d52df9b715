-- ===== src/Workers/OutboxWorker.antt =====
-- BACKEND/src/workers/outbox.worker.ts. One polling tick is `process_queued_records`; `accepts` says
-- for which records the mail provider accepts the mail, a provider that throws counting as one that
-- refuses. The timer of start() and stop() and the log are left out.
pub mod Records
pub mod Retries
use Prim.Native.String
use test_specs_to_code.Common.{
  ℕ, String, Bool, Option, none, some, List, [], ◌∷◌, ltb, if◌then◌else◌,
}
use test_specs_to_code.Model.{
  UserEntity, ActivationToken, RegistrationEmailRecord, DeliveryStatus, Mail, Exec, World, pure,
  query, command, send, ◌>>=◌, ◌>>◌,
}
use test_specs_to_code.Repositories.UserRepository.{find_by_id}
use test_specs_to_code.Repositories.TokenRepository
use test_specs_to_code.Repositories.EmailRecordRepository.{
  find_by_status, update_status, increment_retry_count,
}

-- The part of BACKEND/src/config/app.config.ts that the worker reads.
pub record OutboxConfig : Type 0 where
  pub outbox_max_retries : ℕ
  pub activation_base_url : String
  pub sendgrid_template_id : String

abbrev pub activation_mail :
    OutboxConfig → RegistrationEmailRecord → UserEntity → ActivationToken → Mail
activation_mail config r user token = record {
  address = r.recipient_address;
  name = user.username;
  subject = "Activate your account";
  template_id = config.sendgrid_template_id;
  template_vars =
      (
        "activationLink",
        String.◌++◌ config.activation_base_url (String.◌++◌ "/activate?token=" token.token_value),
      )
      ∷ ("displayName", user.username)
      ∷ [];
}

module _ (config : OutboxConfig) (accepts : String → Bool) where
  unfoldable pub handle_failure : RegistrationEmailRecord → Exec World Unit
  handle_failure r =
      if ltb r.retry_count config.outbox_max_retries
      then command (increment_retry_count r.record_id)
      else command (update_status r.record_id DeliveryStatus.failed)

  -- The body of the loop, once the token and the user are looked up.
  unfoldable pub dispatch_record :
      RegistrationEmailRecord → Option ActivationToken → Option UserEntity → Exec World Unit
  unfolding handle_failure
  dispatch_record r none user = command (update_status r.record_id DeliveryStatus.failed)
  dispatch_record r (some token) none = command (update_status r.record_id DeliveryStatus.failed)
  dispatch_record r (some token) (some user) = do
    send (activation_mail config r user token)
    if accepts r.record_id
        then command (update_status r.record_id DeliveryStatus.sent)
        else handle_failure r

  unfoldable pub process_record : RegistrationEmailRecord → Exec World Unit
  unfolding dispatch_record
  process_record r = do
    token ← query (TokenRepository.find_by_user_id r.user_id)
    user ← query (find_by_id r.user_id)
    dispatch_record r token user

  unfoldable pub process_all : List RegistrationEmailRecord → Exec World Unit
  unfolding process_record
  process_all [] = pure tt
  process_all (r ∷ records) = do process_record r; process_all records

  unfoldable pub process_queued_records : Exec World Unit
  unfolding process_all
  process_queued_records = do
    records ← query (find_by_status DeliveryStatus.queued)
    process_all records
