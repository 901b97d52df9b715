-- ===== src/Examples/Fixtures.antt =====
-- The accounts, databases and settings that the examples share. The hash functions are stand-ins
-- that prefix their argument.
use Prim.Native.String
use test_specs_to_code.Common.{ℕ, true, false, none, some, [], ◌∷◌, ◌==◌, eq_refl}
use test_specs_to_code.Model.{
  AccountStatus, UserEntity, DeliveryStatus, Db, World, Crypto, AcceptsOwnHash,
}
use test_specs_to_code.Validators.PasswordPolicy.{PasswordPolicy}
use test_specs_to_code.Services.LoginGuard.{LockoutConfig}
use test_specs_to_code.Services.AuthService.{LoginInputs}
use test_specs_to_code.Services.AccountDeletionService.{AccountDeletionConfig}
use test_specs_to_code.Services.OtpService.{OtpConfig}
use test_specs_to_code.Services.PasswordRecoveryService.{RecoveryConfig}

abbrev pub demo_crypto : Crypto
demo_crypto = record {
  hash_token = String.◌++◌ "sha256:";
  hash_code = String.◌++◌ "hmac:";
  hash_password = λ salt password. String.◌++◌ "bcrypt:" password;
  compare_password = λ password hash. String.◌++◌ "bcrypt:" password == hash;
}

pub demo-AcceptsOwnHash : AcceptsOwnHash demo_crypto
demo-AcceptsOwnHash salt password = eq_refl (String.◌++◌ "bcrypt:" password)

abbrev pub alice : UserEntity
alice = record {
  id = "u1";
  username = "Alice";
  username_normalised = "alice";
  email = "alice@example.com";
  password_hash = "bcrypt:Secret-1";
  status = AccountStatus.active;
  registration_timestamp = 10;
  activated_at = some 20;
  failed_login_count = 0;
  locked_until = none;
  last_login_at = none;
  deleted_at = none;
}

abbrev pub bob : UserEntity
bob = record {
  id = "u2";
  username = "Bob";
  username_normalised = "bob";
  email = "bob@example.com";
  password_hash = "bcrypt:Secret-2";
  status = AccountStatus.pending;
  registration_timestamp = 30;
  activated_at = none;
  failed_login_count = 0;
  locked_until = none;
  last_login_at = none;
  deleted_at = none;
}

abbrev pub empty_db : Db
empty_db = record {
  users = alice ∷ bob ∷ [];
  activation_tokens = [];
  registration_email_records = [];
  otp_requests = [];
  sessions = [];
  password_recovery_requests = [];
  account_deletion_requests = [];
  account_deletion_notification_records = [];
}

-- Two accounts and nothing else.
abbrev pub start : World
start = record { db = empty_db; mails = [] }

-- Bob has an activation token.
abbrev pub invited : World
invited = record {
  db = record empty_db {
    activation_tokens =
        record {
          id = "t1";
          user_id = "u2";
          token_value = "activate-bob";
          issued_at = 30;
          expires_at = 5000;
          consumed = false;
          consumed_at = none;
        }
        ∷ [];
  };
  mails = [];
}

-- Bob's confirmation has been sent.
abbrev pub notified : World
notified = record {
  db = record empty_db {
    registration_email_records =
        record {
          record_id = "e1";
          user_id = "u2";
          recipient_address = "bob@example.com";
          dispatch_timestamp = 40;
          delivery_status = DeliveryStatus.sent;
          retry_count = 0;
          activation_token_id = none;
        }
        ∷ [];
  };
  mails = [];
}

abbrev pub default_policy : PasswordPolicy
default_policy = record {
  minimum_length = 8;
  maximum_length = 128;
  requires_uppercase = true;
  requires_lowercase = true;
  requires_digit = true;
  requires_special_character = true;
}

abbrev pub three_strikes : LockoutConfig
three_strikes = record { login_lockout_threshold = 3; login_lockout_duration_minutes = 15 }

abbrev pub at_time : ℕ → LoginInputs
at_time now = record {
  checked_at = now;
  failed_at = now;
  logged_in_at = now;
  created_at = now;
  raw_token = "token";
  session_id = "s1";
}

abbrev pub recovery : RecoveryConfig
recovery = record {
  token_expiry_hours = 1;
  base_url = "https://app.example.com";
  email_template_id = "recovery";
}

abbrev pub deletion : AccountDeletionConfig
deletion = record {
  otp_expiry_minutes = 10;
  request_email_template_id = "deletion";
  notice_email_template_id = "notice";
}

abbrev pub one_time_codes : OtpConfig
one_time_codes = record {
  otp_ttl_minutes = 10;
  otp_delivery_enabled = true;
  otp_email_template_id = "otp";
  from_name = "App";
}
