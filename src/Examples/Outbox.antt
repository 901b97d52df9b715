-- ===== src/Examples/Outbox.antt =====
-- The outbox with bob's confirmation, which the provider always refuses.
use test_specs_to_code.Table.{select_first}
use test_specs_to_code.Common.{arith, ◌≡◌, refl, false, some, none, [], ◌∷◌, String, Bool}
use test_specs_to_code.Model.{RegistrationEmailRecord, DeliveryStatus, World}
use test_specs_to_code.Repositories.UserRepository.{find_by_id}
use test_specs_to_code.Repositories.TokenRepository
use test_specs_to_code.Workers.OutboxWorker.{OutboxConfig}
use test_specs_to_code.Table.{count_where}
use test_specs_to_code.Workers.OutboxWorker.Records.{Waiting, find_record}
use test_specs_to_code.Workers.OutboxWorker.Retries.{ticks, ticks-bound}
use test_specs_to_code.Examples.Fixtures.{bob, invited}

abbrev pub waiting_mail : RegistrationEmailRecord
waiting_mail = record {
  record_id = "e1";
  user_id = "u2";
  recipient_address = "bob@example.com";
  dispatch_timestamp = 40;
  delivery_status = DeliveryStatus.queued;
  retry_count = 1;
  activation_token_id = some "t1";
}

abbrev pub outbox : World
outbox = record {
  db = record (invited.db) { registration_email_records = waiting_mail ∷ [] };
  mails = [];
}

abbrev pub three_retries : OutboxConfig
three_retries = record {
  outbox_max_retries = 3;
  activation_base_url = "https://app.example.com";
  sendgrid_template_id = "activation";
}

abbrev pub refuse : String → Bool
refuse record_id = false

pub bob_waits : Waiting waiting_mail 1 outbox
unfolding find_by_id TokenRepository.find_by_user_id select_first count_where
bob_waits = record {
  row = refl;
  one = omega arith;
  token = record {
    id = "t1";
    user_id = "u2";
    token_value = "activate-bob";
    issued_at = 30;
    expires_at = 5000;
    consumed = false;
    consumed_at = none;
  };
  has_token = refl;
  user = bob;
  has_user = refl;
}

ticks-bound_example :
    Waiting waiting_mail 2 (ticks three_retries refuse 1 outbox)
    × (find_record "e1" (ticks three_retries refuse 5 (ticks three_retries refuse 3 outbox)).db
        ≡ some (record waiting_mail { retry_count = 3; delivery_status = DeliveryStatus.failed }))
ticks-bound_example =
    ticks-bound three_retries refuse waiting_mail 1 2 5 outbox refl refl bob_waits (omega arith)
      refl
