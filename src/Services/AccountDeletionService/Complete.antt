-- ===== src/Services/AccountDeletionService/Complete.antt =====
-- A deletion from the request to its confirmation.
use test_specs_to_code.Common.{ℕ, ◌≤◌, String, ◌≡◌, [], some, arith, eq_refl}
use test_specs_to_code.Table.Laws.{select_first-append}
use test_specs_to_code.Model.{UserEntity, Crypto, World, ok}
use test_specs_to_code.Repositories.UserRepository.{find_by_id, anonymized_violations}
use test_specs_to_code.Repositories.DeletionRequestRepository.{
  is_pending_for, new_deletion_request, find_pending_by_user_id, insert_deletion_request,
  deletion_request_violations,
}
use test_specs_to_code.Repositories.DeletionNotificationRecordRepository.{
  new_notification, notification_violations,
}
use test_specs_to_code.Services.AccountDeletionService.{
  AccountDeletionConfig, DeletionRequestResult, require_active, request_deletion, confirm_deletion,
  anonymized_email, anonymized_username,
}
use test_specs_to_code.Services.AccountDeletionService.Confirm.{confirm_deletion-checks}

module _ (crypto : Crypto) (config : AccountDeletionConfig) (lower : String → String) where
  request_deletion-find :
      (user_id code id : String) (issued_at : ℕ) (w w' : World) (r : DeletionRequestResult)
      → request_deletion crypto config user_id code id issued_at w ≡ (ok r, w')
      → find_pending_by_user_id user_id w'.db
        ≡ some (new_deletion_request id user_id (crypto.hash_code code) issued_at r.expires_at)
  unfolding request_deletion require_active find_pending_by_user_id insert_deletion_request
      deletion_request_violations
  request_deletion-find user_id code id issued_at w w' r e = ground (
    arith,
    eq_refl user_id,
    select_first-append (is_pending_for user_id)
        (new_deletion_request id user_id (crypto.hash_code code) issued_at r.expires_at)
        w.db.account_deletion_requests,
  )

  -- A deletion that was requested is confirmed by its code up to its expiry, if the account is
  -- still on file, the notice has a fresh id, and no other account holds the email or the username
  -- of the anonymised row: the confirmation returns the account's id and its own time.
  pub request_deletion-confirm :
      (user_id code id record_id : String) (issued_at now : ℕ) (w w' : World)
      (r : DeletionRequestResult) (user : UserEntity)
      → request_deletion crypto config user_id code id issued_at w ≡ (ok r, w')
      → find_by_id user_id w'.db ≡ some user
      → notification_violations (new_notification record_id user.id user.email now now) w'.db ≡ []
      → anonymized_violations user.id
          (anonymized_email user)
          (lower (anonymized_username user))
          w'.db
        ≡ []
      → now ≤ r.expires_at
      → (confirm_deletion crypto lower user_id code record_id now w').0
        ≡ ok (record { user_id = user.id; deleted_at = now })
  request_deletion-confirm user_id code id record_id issued_at now w w' r user e listed fresh free
        early =
      let pending = request_deletion-find user_id code id issued_at w w' r e in
      ground (
        arith,
        eq_refl (crypto.hash_code code),
        confirm_deletion-checks crypto lower user_id code record_id now w'
            (new_deletion_request id user_id (crypto.hash_code code) issued_at r.expires_at) user
            pending listed,
      )
