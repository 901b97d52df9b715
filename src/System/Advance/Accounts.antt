-- ===== src/System/Advance/Accounts.antt =====
-- Registration, codes, deletions and mails: the methods of RegistrationService, OtpService,
-- AccountDeletionService and EmailDispatchService.
use test_specs_to_code.Repositories.SessionRepository.{invalidate_all_for_user}
use test_specs_to_code.Repositories.UserRepository.{anonymized_violations, update_user}
use test_specs_to_code.Model.{status_text}
use test_specs_to_code.Repositories.DeletionNotificationRecordRepository.{new_notification}
use test_specs_to_code.Common.{is_some}
use test_specs_to_code.Model.{is_pending}
use test_specs_to_code.Common.{ltb}
use test_specs_to_code.Validators.UsernameUniquenessValidator.{normalise}
use test_specs_to_code.Services.EmailDispatchService.{resend_confirmation}
use test_specs_to_code.Services.RegistrationService.{register}
use test_specs_to_code.Common.{if◌then◌else◌}
use test_specs_to_code.Services.OtpService.{otp_mail}
use test_specs_to_code.Services.AccountDeletionService.{confirm_deletion}
use test_specs_to_code.Common.{not, some}
use test_specs_to_code.Common.Text.{trim}
use test_specs_to_code.Model.{
  account_not_pending, deletion_otp_expired, deletion_otp_invalid, deletion_request_not_found,
  insert, user_not_found, username_conflict, with_transaction,
}
use test_specs_to_code.Repositories.DeletionNotificationRecordRepository.{
  insert_notification, notification_violations,
}
use test_specs_to_code.Repositories.DeletionRequestRepository.{
  find_pending_by_user_id, update_request_status,
}
use test_specs_to_code.Repositories.EmailRecordRepository.{
  email_record_violations, insert_email_record,
}
use test_specs_to_code.Repositories.UserRepository.{
  anonymized, find_by_id, find_by_normalised_username, insert_user, user_violations,
}
use test_specs_to_code.Services.AccountDeletionService.{anonymized_email, anonymized_username}
use test_specs_to_code.Services.EmailDispatchService.{id_or_empty}
use test_specs_to_code.Services.OtpService.{deliver_otp}
use test_specs_to_code.Services.RegistrationService.{is_username_conflict_error, on_conflict}
use test_specs_to_code.Validators.UsernameUniquenessValidator.{check_uniqueness}
use test_specs_to_code.Common.{false, none, true, ◌==◌}
use test_specs_to_code.Model.{DeletionNotificationRecord, DeletionStatus, OtpStatus, command}
use test_specs_to_code.Services.EmailDispatchService.{queued_record}
use test_specs_to_code.Services.OtpService.{OtpConfig, OtpInputs, dispatch}
use test_specs_to_code.Services.RegistrationService.{
  Registration, UserCreatedResult, pending_user, registered_message,
}
use test_specs_to_code.Common.{ℕ, String, Bool, Option, List, refl}
use test_specs_to_code.Model.{
  UserEntity, Crypto, Db, World, Exec, Result, ok, thrown, Exception, Constraint, Advances,
  Advances-pure, Advances-throw, Advances-require, Advances-throw_if, Advances-query, Advances-send,
  Advances-bind, Advances-then, Advances-with_transaction, Advances-insert, Advances-command,
  Advances-if,
}
use test_specs_to_code.Repositories.TokenRepository.{find_by_user_id}
use test_specs_to_code.Model.{◌>>◌}
use test_specs_to_code.System.Rules.{Rules, IsLasting}

module _ {R : Db → Db → Type 0} (rules : Rules R) where
  open rules use {order}

  conflict-Advances :
      {A : Type 0} (named : List Constraint → Constraint) (normalised : String) (m : Exec World A)
      → Advances R m
      → Advances R (on_conflict named normalised m)
  conflict-Advances {A} named normalised m inner = record { at = λ w. go w (m w) (inner.at w) }
    where
      sorted :
          (w w' : World) (e : Exception) (b : Bool)
          → R w.db w'.db
          → R w.db (
              let o : Result A × World =
                if b then (thrown (username_conflict normalised), w') else (thrown e, w') in
              o.1.db)
      sorted w w' e true moved = moved
      sorted w w' e false moved = moved

      go :
          (w : World) (o : Result A × World)
          → R w.db o.1.db
          → R w.db
              (elim o.0 as (λ r. Result A × World) [
                | ok a ↦ (ok a, o.1)
                | thrown e ↦
                    if is_username_conflict_error named e
                    then (thrown (username_conflict normalised), o.1)
                    else (thrown e, o.1)
              ]).1.db
      go w (ok a, v) moved = moved
      go w (thrown e, v) moved = sorted w v e (is_username_conflict_error named e) moved

  pub register-Advances :
      (crypto : Crypto) (lower : String → String) (named : List Constraint → Constraint)
      (dto : Registration) (salt id : String) (now : ℕ)
      → Advances R (register crypto lower named dto salt id now)
  unfolding register
  register-Advances crypto lower named dto salt id now = record {
    at = λ w. go w (insertion w) (inner.at w);
  }
    where
      row : UserEntity
      row = pending_user lower dto id (crypto.hash_password salt dto.password) now

      insertion : Exec World Unit
      insertion =
          on_conflict named (normalise lower dto.username)
            (with_transaction (insert (user_violations row) (insert_user row)))

      inner : Advances R (
          on_conflict named
            (normalise lower dto.username)
            (with_transaction (insert (user_violations row) (insert_user row))))
      inner = conflict-Advances named _ _ (
          Advances-with_transaction order _
            (Advances-insert order _ _ (λ db clear. rules.new_user row db)))

      go :
          (w : World) (o : Result {0} Unit × World)
          → R w.db o.1.db
          → R w.db
              (elim o.0 as (λ r. Result UserCreatedResult × World) [
                | ok done ↦ (ok (record { user_id = id; message = registered_message }), o.1)
                | thrown e ↦ (thrown e, o.1)
              ]).1.db
      go w (ok done, v) moved = moved
      go w (thrown e, v) moved = moved

  pub uniqueness-Advances :
      (lower : String → String) (username : Option String)
      → Advances R (check_uniqueness lower username)
  unfolding check_uniqueness
  uniqueness-Advances lower none = Advances-throw order _
  uniqueness-Advances lower (some username) =
      Advances-if (trim username == "") _ _ (Advances-throw order _) (
        Advances-bind order _ _
          (Advances-query order (find_by_normalised_username (normalise lower username)))
          (λ existing.
            Advances-throw_if order (is_some existing)
              (username_conflict (normalise lower username))))

  pub deliver-Advances :
      (crypto : Crypto) (config : OtpConfig) (user : UserEntity) (inputs : OtpInputs)
      → Advances R (deliver_otp crypto config user inputs)
  unfolding deliver_otp dispatch
  deliver-Advances crypto config user inputs =
      Advances-bind order _ _
        (Advances-if config.otp_delivery_enabled _ _
          (Advances-then order _ _ (Advances-send order (otp_mail config user.email inputs.code))
            (Advances-pure order inputs.provider_accepts))
          (Advances-pure order false))
        (λ delivered.
          Advances-if delivered _ _
            (Advances-then order _ _
              (Advances-command _ (λ db. rules.code_delivered inputs.request_id db))
              (Advances-pure order (record { accepted = true; status = OtpStatus.delivered })))
            (Advances-then order _ _
              (Advances-command _ (λ db. rules.code_failed inputs.request_id db))
              (Advances-pure order (record { accepted = true; status = OtpStatus.failed }))))

  anonymized-IsLasting :
      (email username lowered : String) (now : ℕ)
      → IsLasting (anonymized email username lowered now)
  anonymized-IsLasting email username lowered now = record {
    keeps_id = λ u. refl;
    keeps_deleted = λ u h. refl;
  }

  erase-Advances :
      (user : UserEntity) (request_id username lowered : String)
      (notice : DeletionNotificationRecord) (now : ℕ)
      → Advances R (
          with_transaction (do
            insert
                (anonymized_violations user.id (anonymized_email user) lowered)
                (update_user user.id (anonymized (anonymized_email user) username lowered now))
            command (update_request_status request_id DeletionStatus.confirmed now)
            command (invalidate_all_for_user user.id now)
            insert (notification_violations notice) (insert_notification notice)))
  erase-Advances user request_id username lowered notice now = Advances-with_transaction order _ (
      Advances-then order _ _
        (Advances-insert order (anonymized_violations user.id (anonymized_email user) lowered)
          (update_user user.id (anonymized (anonymized_email user) username lowered now))
          (λ db clear.
            rules.user user.id _ db
              (anonymized-IsLasting (anonymized_email user) username lowered now)))
        (Advances-then order _ _
          (Advances-command _ (λ db. rules.settle request_id DeletionStatus.confirmed now db refl))
          (Advances-then order _ _ (Advances-command _ (λ db. rules.close_sessions user.id now db))
            (Advances-insert order (notification_violations notice) (insert_notification notice)
              (λ db clear. rules.new_notice notice db)))))

  pub confirm-Advances :
      (crypto : Crypto) (lower : String → String) (user_id code record_id : String) (now : ℕ)
      → Advances R (confirm_deletion crypto lower user_id code record_id now)
  unfolding confirm_deletion
  confirm-Advances crypto lower user_id code record_id now =
      Advances-bind order _ _ (Advances-query order (find_pending_by_user_id user_id)) (λ pending.
        Advances-bind order _ _
          (Advances-require order pending (deletion_request_not_found user_id))
          (λ request.
            Advances-then order _ _
              (Advances-throw_if order (ltb request.expires_at now) (deletion_otp_expired user_id))
              (Advances-then order _ _
                (Advances-throw_if order (not (crypto.hash_code code == request.code_hash))
                  (deletion_otp_invalid user_id))
                (Advances-bind order _ _ (Advances-query order (find_by_id user_id)) (λ found.
                  Advances-bind order _ _
                    (Advances-require order found (deletion_request_not_found user_id))
                    (λ user.
                      Advances-then order _ _
                        (erase-Advances user request.id (anonymized_username user)
                          (lower (anonymized_username user))
                          (new_notification record_id user.id user.email now now) now)
                        (Advances-pure order (record { user_id = user.id; deleted_at = now }))))))))

  pub resend-Advances :
      (user_id record_id : String) (now : ℕ)
      → Advances R (resend_confirmation user_id record_id now)
  unfolding resend_confirmation
  resend-Advances user_id record_id now =
      Advances-bind order _ _ (Advances-query order (find_by_id user_id)) (λ found.
        Advances-bind order _ _ (Advances-require order found (user_not_found user_id)) (λ user.
          Advances-then order _ _
            (Advances-throw_if order (not (is_pending user.status))
              (account_not_pending (status_text user.status)))
            (Advances-bind order _ _ (Advances-query order (find_by_user_id user_id)) (λ token.
              let row = queued_record record_id user user_id (id_or_empty token) now in
              Advances-insert order (email_record_violations row) (insert_email_record row)
                (λ db clear. rules.new_mail row db)))))
