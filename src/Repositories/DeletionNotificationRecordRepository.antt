-- ===== src/Repositories/DeletionNotificationRecordRepository.antt =====
-- BACKEND/src/repositories/deletion-notification-record.repository.ts over the table of
-- 008_create_account_deletion_notification_records.sql.
use test_specs_to_code.Common.{ℕ, ◌+◌, Bool}
use test_specs_to_code.Model.{DeliveryStatus, is_same_status}
use test_specs_to_code.Table.{select_all, order_by, update_where}
use test_specs_to_code.Common.{ℕ, String, Bool, List, ◌==◌, is_some}
use test_specs_to_code.Model.{DeletionNotificationRecord, DeliveryStatus, Db, Constraint, unique}
use test_specs_to_code.Repositories.Constraints.{broken_if}
use test_specs_to_code.Table.{select_first, append_row}

-- WHERE record_id = ?
abbrev pub has_record_id : String → DeletionNotificationRecord → Bool
has_record_id record_id r = r.record_id == record_id

-- The row that an INSERT writes.
abbrev pub new_notification : String → String → String → ℕ → ℕ → DeletionNotificationRecord
new_notification record_id user_id recipient_address deletion_date dispatch_timestamp = record {
  record_id = record_id;
  user_id = user_id;
  recipient_address = recipient_address;
  deletion_date = deletion_date;
  dispatch_timestamp = dispatch_timestamp;
  delivery_status = DeliveryStatus.queued;
  retry_count = 0;
}

unfoldable pub insert_notification : DeletionNotificationRecord → Db → Db
insert_notification r db = record db {
  account_deletion_notification_records = append_row r db.account_deletion_notification_records;
}

-- PRIMARY KEY
unfoldable pub notification_violations : DeletionNotificationRecord → Db → List Constraint
notification_violations r db =
    broken_if
      (is_some (select_first (has_record_id r.record_id) db.account_deletion_notification_records))
      (unique "account_deletion_notification_records.record_id")

-- WHERE delivery_status = ?
abbrev pub has_status : DeliveryStatus → DeletionNotificationRecord → Bool
has_status status r = is_same_status r.delivery_status status

-- ORDER BY dispatch_timestamp ASC
unfoldable pub find_by_status : DeliveryStatus → Db → List DeletionNotificationRecord
find_by_status status db =
    order_by (λ (r : DeletionNotificationRecord). r.dispatch_timestamp)
      (select_all (has_status status) db.account_deletion_notification_records)

abbrev pub with_delivery_status :
    DeliveryStatus → DeletionNotificationRecord → DeletionNotificationRecord
with_delivery_status status r = record r { delivery_status = status }

unfoldable pub update_status : String → DeliveryStatus → Db → Db
update_status record_id status db = record db {
  account_deletion_notification_records =
      update_where (has_record_id record_id) (with_delivery_status status)
        db.account_deletion_notification_records;
}

abbrev pub retried : DeletionNotificationRecord → DeletionNotificationRecord
retried r = record r { retry_count = r.retry_count + 1 }

unfoldable pub increment_retry_count : String → Db → Db
increment_retry_count record_id db = record db {
  account_deletion_notification_records =
      update_where (has_record_id record_id) retried db.account_deletion_notification_records;
}
