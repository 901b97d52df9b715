-- ===== src/System/Advance/Workers.antt =====
-- A tick of either worker.
use test_specs_to_code.Repositories.UserRepository.{find_by_id}
use test_specs_to_code.Common.{ltb}
use test_specs_to_code.Workers.OutboxWorker.{activation_mail}
use test_specs_to_code.Workers.AccountDeletionNotificationWorker.{notice_mail}
use test_specs_to_code.Workers.OutboxWorker.{process_queued_records}
use test_specs_to_code.Workers.OutboxWorker.{process_all}
use test_specs_to_code.Workers.AccountDeletionNotificationWorker.{process_queued_notices}
use test_specs_to_code.Workers.OutboxWorker.{dispatch_record}
use test_specs_to_code.Model.{command}
use test_specs_to_code.Workers.AccountDeletionNotificationWorker.{process_notices}
use test_specs_to_code.Workers.AccountDeletionNotificationWorker.{
  handle_notice_failure, process_notice,
}
use test_specs_to_code.Workers.OutboxWorker.{OutboxConfig, handle_failure, process_record}
use test_specs_to_code.Common.{ℕ, String, Bool, Option, none, some, List, [], ◌∷◌}
use test_specs_to_code.Model.{
  UserEntity, ActivationToken, RegistrationEmailRecord, DeletionNotificationRecord, DeliveryStatus,
  Db, Advances, Advances-pure, Advances-query, Advances-send, Advances-bind, Advances-then,
  Advances-command, Advances-if,
}
use test_specs_to_code.Repositories.TokenRepository
use test_specs_to_code.Repositories.EmailRecordRepository
use test_specs_to_code.Repositories.DeletionNotificationRecordRepository
use test_specs_to_code.System.Rules.{Rules}

module _ {R : Db → Db → Type 0} (rules : Rules R) (accepts : String → Bool) where
  open rules use {order}

  mail_status-Advances :
      (id : String) (status : DeliveryStatus)
      → Advances R (command (EmailRecordRepository.update_status id status))
  mail_status-Advances id status = Advances-command _ (λ db. rules.mail_status id status db)

  dispatch_record-Advances :
      (config : OutboxConfig) (r : RegistrationEmailRecord) (token : Option ActivationToken)
      (user : Option UserEntity)
      → Advances R (dispatch_record config accepts r token user)
  unfolding dispatch_record handle_failure
  dispatch_record-Advances config r none user = mail_status-Advances _ _
  dispatch_record-Advances config r (some token) none = mail_status-Advances _ _
  dispatch_record-Advances config r (some token) (some user) =
      Advances-then order _ _ (Advances-send order (activation_mail config r user token)) (
        Advances-if (accepts r.record_id) _ _ (mail_status-Advances _ _) (
          Advances-if (ltb r.retry_count config.outbox_max_retries) _ _
            (Advances-command _ (λ db. rules.mail_retry r.record_id db))
            (mail_status-Advances _ _)))

  records-Advances :
      (config : OutboxConfig) (records : List RegistrationEmailRecord)
      → Advances R (process_all config accepts records)
  unfolding process_all process_record
  records-Advances config [] = Advances-pure order tt
  records-Advances config (r ∷ records) =
      Advances-then order _ _
        (Advances-bind order _ _ (Advances-query order (TokenRepository.find_by_user_id r.user_id))
          (λ token.
            Advances-bind order _ _ (Advances-query order (find_by_id r.user_id))
              (λ user. dispatch_record-Advances config r token user)))
        (records-Advances config records)

  pub outbox-Advances : (config : OutboxConfig) → Advances R (process_queued_records config accepts)
  unfolding process_queued_records
  outbox-Advances config =
      Advances-bind order _ _
        (Advances-query order (EmailRecordRepository.find_by_status DeliveryStatus.queued))
        (λ records. records-Advances config records)

  notice_status-Advances :
      (id : String) (status : DeliveryStatus)
      → Advances R (command (DeletionNotificationRecordRepository.update_status id status))
  notice_status-Advances id status = Advances-command _ (λ db. rules.notice_status id status db)

  notices-Advances :
      (max_retries : ℕ) (template_id : String) (iso : ℕ → String)
      (records : List DeletionNotificationRecord)
      → Advances R (process_notices max_retries template_id iso accepts records)
  unfolding process_notices process_notice handle_notice_failure
  notices-Advances max_retries template_id iso [] = Advances-pure order tt
  notices-Advances max_retries template_id iso (r ∷ records) =
      Advances-then order _ _
        (Advances-then order _ _
          (Advances-send order (notice_mail max_retries template_id iso accepts r))
          (Advances-if (accepts r.record_id) _ _ (notice_status-Advances _ _) (
            Advances-if (ltb r.retry_count max_retries) _ _
              (Advances-command _ (λ db. rules.notice_retry r.record_id db))
              (notice_status-Advances _ _))))
        (notices-Advances max_retries template_id iso records)

  pub notice_tick-Advances :
      (max_retries : ℕ) (template_id : String) (iso : ℕ → String)
      → Advances R (process_queued_notices max_retries template_id iso accepts)
  unfolding process_queued_notices
  notice_tick-Advances max_retries template_id iso =
      Advances-bind order _ _
        (Advances-query order
          (DeletionNotificationRecordRepository.find_by_status DeliveryStatus.queued))
        (λ records. notices-Advances max_retries template_id iso records)
