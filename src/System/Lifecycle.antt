-- ===== src/System/Lifecycle.antt =====
-- The relation of a database to a later one, about deleted accounts, closed sessions, used recovery
-- links and activation tokens, settled deletion requests and closed codes.
pub mod Guarded
pub mod Forever
use test_specs_to_code.Common.{List}
use test_specs_to_code.Model.{DeletionNotificationRecord, RegistrationEmailRecord}
use test_specs_to_code.Common.{String, Bool, not, ◌≡◌, refl, is_some}
use test_specs_to_code.Table.Lasting.{Keeps, Keeps-append, Keeps-update}
use test_specs_to_code.Model.{
  SessionEntity, PasswordRecoveryRequestEntity, ActivationToken, DeletionRequestEntity,
  OtpRequestEntity, UserEntity, Db, IsPreorder, is_pending_deletion,
}
use test_specs_to_code.Repositories.UserRepository
use test_specs_to_code.Repositories.SessionRepository
use test_specs_to_code.Repositories.PasswordRecoveryRequestRepository
use test_specs_to_code.Repositories.TokenRepository
use test_specs_to_code.Repositories.DeletionRequestRepository
use test_specs_to_code.Repositories.OtpRequestRepository
use test_specs_to_code.System.Rules.{is_deleted}

abbrev pub is_settled : DeletionRequestEntity → Bool
is_settled r = not (is_pending_deletion r.status)

abbrev pub is_closed : OtpRequestEntity → Bool
is_closed r = is_some r.invalidated_at

-- What the first database has of these the second one has too: accounts by id, sessions by the
-- hash of their token, recovery links and activation tokens by their value, deletion requests and
-- codes by id.
pub record Later (a b : Db) : Type 0 where
  pub deleted : Keeps is_deleted UserRepository.has_id a.users b.users
  pub closed :
      Keeps
        (λ (s : SessionEntity). s.invalidated)
        SessionRepository.has_token_hash
        a.sessions
        b.sessions
  pub used :
      Keeps
        (λ (r : PasswordRecoveryRequestEntity). r.consumed)
        PasswordRecoveryRequestRepository.has_token
        a.password_recovery_requests
        b.password_recovery_requests
  pub consumed :
      Keeps
        (λ (t : ActivationToken). t.consumed)
        TokenRepository.has_token_value
        a.activation_tokens
        b.activation_tokens
  pub settled :
      Keeps is_settled DeletionRequestRepository.has_id a.account_deletion_requests
        b.account_deletion_requests
  pub spent : Keeps is_closed OtpRequestRepository.has_id a.otp_requests b.otp_requests

pub Later-order : IsPreorder Later
Later-order = record {
  reflexive = λ db. record {
    deleted = λ k h. h;
    closed = λ k h. h;
    used = λ k h. h;
    consumed = λ k h. h;
    settled = λ k h. h;
    spent = λ k h. h;
  };
  transitive = λ a b c ab bc. record {
    deleted = λ k h. bc.deleted k (ab.deleted k h);
    closed = λ k h. bc.closed k (ab.closed k h);
    used = λ k h. bc.used k (ab.used k h);
    consumed = λ k h. bc.consumed k (ab.consumed k h);
    settled = λ k h. bc.settled k (ab.settled k h);
    spent = λ k h. bc.spent k (ab.spent k h);
  };
}

-- A statement that writes one table.
module _ (db : Db) where
  pub Later-users :
      (t : List UserEntity)
      → Keeps is_deleted UserRepository.has_id db.users t
      → Later db (record db { users = t })
  Later-users t keeps = record {
    deleted = keeps;
    closed = λ k h. h;
    used = λ k h. h;
    consumed = λ k h. h;
    settled = λ k h. h;
    spent = λ k h. h;
  }

  pub Later-sessions :
      (t : List SessionEntity)
      → Keeps (λ (s : SessionEntity). s.invalidated) SessionRepository.has_token_hash db.sessions t
      → Later db (record db { sessions = t })
  Later-sessions t keeps = record {
    deleted = λ k h. h;
    closed = keeps;
    used = λ k h. h;
    consumed = λ k h. h;
    settled = λ k h. h;
    spent = λ k h. h;
  }

  pub Later-recoveries :
      (t : List PasswordRecoveryRequestEntity)
      → Keeps
          (λ (r : PasswordRecoveryRequestEntity). r.consumed)
          PasswordRecoveryRequestRepository.has_token
          db.password_recovery_requests
          t
      → Later db (record db { password_recovery_requests = t })
  Later-recoveries t keeps = record {
    deleted = λ k h. h;
    closed = λ k h. h;
    used = keeps;
    consumed = λ k h. h;
    settled = λ k h. h;
    spent = λ k h. h;
  }

  pub Later-tokens :
      (t : List ActivationToken)
      → Keeps
          (λ (x : ActivationToken). x.consumed)
          TokenRepository.has_token_value
          db.activation_tokens
          t
      → Later db (record db { activation_tokens = t })
  Later-tokens t keeps = record {
    deleted = λ k h. h;
    closed = λ k h. h;
    used = λ k h. h;
    consumed = keeps;
    settled = λ k h. h;
    spent = λ k h. h;
  }

  pub Later-deletions :
      (t : List DeletionRequestEntity)
      → Keeps is_settled DeletionRequestRepository.has_id db.account_deletion_requests t
      → Later db (record db { account_deletion_requests = t })
  Later-deletions t keeps = record {
    deleted = λ k h. h;
    closed = λ k h. h;
    used = λ k h. h;
    consumed = λ k h. h;
    settled = keeps;
    spent = λ k h. h;
  }

  pub Later-codes :
      (t : List OtpRequestEntity)
      → Keeps is_closed OtpRequestRepository.has_id db.otp_requests t
      → Later db (record db { otp_requests = t })
  Later-codes t keeps = record {
    deleted = λ k h. h;
    closed = λ k h. h;
    used = λ k h. h;
    consumed = λ k h. h;
    settled = λ k h. h;
    spent = keeps;
  }

  -- The tables of mails hold nothing of these.
  pub Later-mails :
      (t : List RegistrationEmailRecord) → Later db (record db { registration_email_records = t })
  Later-mails t = record {
    deleted = λ k h. h;
    closed = λ k h. h;
    used = λ k h. h;
    consumed = λ k h. h;
    settled = λ k h. h;
    spent = λ k h. h;
  }

  pub Later-notices :
      (t : List DeletionNotificationRecord)
      → Later db (record db { account_deletion_notification_records = t })
  Later-notices t = record {
    deleted = λ k h. h;
    closed = λ k h. h;
    used = λ k h. h;
    consumed = λ k h. h;
    settled = λ k h. h;
    spent = λ k h. h;
  }
