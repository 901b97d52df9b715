-- ===== src/Repositories/EmailRecordRepository.antt =====
-- BACKEND/src/repositories/email-record.repository.ts over the table of
-- 003_create_registration_email_records.sql.
use test_specs_to_code.Common.{◌+◌, Bool}
use test_specs_to_code.Model.{DeliveryStatus, is_same_status}
use test_specs_to_code.Table.{select_all, order_by, update_where}
use test_specs_to_code.Common.{
  String, Bool, false, not, Option, none, some, List, ◌++◌, ◌==◌, is_some,
}
use test_specs_to_code.Model.{
  RegistrationEmailRecord, ActivationToken, Db, Constraint, unique, foreign_key,
}
use test_specs_to_code.Repositories.Constraints.{broken_if, user_exists}
use test_specs_to_code.Table.{select_first, append_row}

-- WHERE record_id = ?
abbrev pub has_record_id : String → RegistrationEmailRecord → Bool
has_record_id record_id r = r.record_id == record_id

-- WHERE user_id = ?
abbrev pub has_user_id : String → RegistrationEmailRecord → Bool
has_user_id user_id r = r.user_id == user_id

unfoldable pub insert_email_record : RegistrationEmailRecord → Db → Db
insert_email_record r db = record db {
  registration_email_records = append_row r db.registration_email_records;
}

-- REFERENCES activation_tokens(id), which NULL satisfies
abbrev pub token_is_missing : Option String → List ActivationToken → Bool
token_is_missing none tokens = false
token_is_missing (some id) tokens = not (is_some (select_first (λ t. t.id == id) tokens))

-- PRIMARY KEY, user_id UNIQUE, REFERENCES users(id), REFERENCES activation_tokens(id)
unfoldable pub email_record_violations : RegistrationEmailRecord → Db → List Constraint
email_record_violations r db =
    broken_if (is_some (select_first (has_record_id r.record_id) db.registration_email_records))
      (unique "registration_email_records.record_id")
    ++ broken_if (is_some (select_first (has_user_id r.user_id) db.registration_email_records))
        (unique "registration_email_records.user_id")
    ++ broken_if (not (user_exists r.user_id db.users)) foreign_key
    ++ broken_if (token_is_missing r.activation_token_id db.activation_tokens) foreign_key

unfoldable pub find_by_user_id : String → Db → Option RegistrationEmailRecord
find_by_user_id user_id db = select_first (has_user_id user_id) db.registration_email_records

-- WHERE delivery_status = ?
abbrev pub has_status : DeliveryStatus → RegistrationEmailRecord → Bool
has_status status r = is_same_status r.delivery_status status

-- ORDER BY dispatch_timestamp ASC
unfoldable pub find_by_status : DeliveryStatus → Db → List RegistrationEmailRecord
find_by_status status db =
    order_by (λ (r : RegistrationEmailRecord). r.dispatch_timestamp)
      (select_all (has_status status) db.registration_email_records)

abbrev pub with_delivery_status : DeliveryStatus → RegistrationEmailRecord → RegistrationEmailRecord
with_delivery_status status r = record r { delivery_status = status }

unfoldable pub update_status : String → DeliveryStatus → Db → Db
update_status record_id status db = record db {
  registration_email_records =
      update_where (has_record_id record_id) (with_delivery_status status)
        db.registration_email_records;
}

abbrev pub retried : RegistrationEmailRecord → RegistrationEmailRecord
retried r = record r { retry_count = r.retry_count + 1 }

unfoldable pub increment_retry_count : String → Db → Db
increment_retry_count record_id db = record db {
  registration_email_records =
      update_where (has_record_id record_id) retried db.registration_email_records;
}
