-- ===== src/Workers/AccountDeletionNotificationWorker.antt =====
-- BACKEND/src/workers/account-deletion-notification.worker.ts, with the same conventions as the
-- outbox worker. `iso` is Date's toISOString().
use test_specs_to_code.Common.{ℕ, String, Bool, List, [], ◌∷◌, ltb, if◌then◌else◌}
use test_specs_to_code.Model.{
  DeletionNotificationRecord, DeliveryStatus, Mail, Exec, World, pure, query, command, send, ◌>>=◌,
  ◌>>◌,
}
use test_specs_to_code.Repositories.DeletionNotificationRecordRepository.{
  find_by_status, update_status, increment_retry_count,
}

module _ (max_retries : ℕ) (template_id : String) (iso : ℕ → String) (accepts : String → Bool) where
  abbrev pub notice_mail : DeletionNotificationRecord → Mail
  notice_mail r = record {
    address = r.recipient_address;
    name = "User";
    subject = "Your account has been deleted";
    template_id = template_id;
    template_vars = ("deletionDate", iso r.deletion_date) ∷ [];
  }

  unfoldable pub handle_notice_failure : DeletionNotificationRecord → Exec World Unit
  handle_notice_failure r =
      if ltb r.retry_count max_retries
      then command (increment_retry_count r.record_id)
      else command (update_status r.record_id DeliveryStatus.failed)

  unfoldable pub process_notice : DeletionNotificationRecord → Exec World Unit
  unfolding handle_notice_failure
  process_notice r = do
    send (notice_mail r)
    if accepts r.record_id
        then command (update_status r.record_id DeliveryStatus.sent)
        else handle_notice_failure r

  unfoldable pub process_notices : List DeletionNotificationRecord → Exec World Unit
  unfolding process_notice
  process_notices [] = pure tt
  process_notices (r ∷ records) = do process_notice r; process_notices records

  unfoldable pub process_queued_notices : Exec World Unit
  unfolding process_notices
  process_queued_notices = do
    records ← query (find_by_status DeliveryStatus.queued)
    process_notices records
