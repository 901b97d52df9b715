-- ===== src/Services/AccountDeletionService/Anonymised.antt =====
-- What a confirmed deletion leaves of the account, read by the repositories' own lookups.
use Prim.Native.String
use test_specs_to_code.Common.{
  ℕ, ◌≤◌, String, ◌≡◌, refl, Option, none, some, arith, eq_refl, Option-cases, inl, inr,
}
use test_specs_to_code.Table.{select_first}
use test_specs_to_code.Table.Laws.{select_first-append}
use test_specs_to_code.Model.{
  AccountStatus, UserEntity, DeletionRequestEntity, DeletionNotificationRecord, DeliveryStatus, ok,
  Crypto, World, Db,
}
use test_specs_to_code.Repositories.UserRepository.{find_by_id, update_user, anonymized}
use test_specs_to_code.Repositories.UserRepository.Laws.{find_by_id-update, find_by_id-users}
use test_specs_to_code.Repositories.DeletionRequestRepository.{
  find_pending_by_user_id, update_request_status,
}
use test_specs_to_code.Repositories.SessionRepository.{
  invalidate_all_for_user, count_active_for_user,
}
use test_specs_to_code.Repositories.DeletionNotificationRecordRepository.{
  has_record_id, new_notification, insert_notification, notification_violations,
}
use test_specs_to_code.Services.AccountDeletionService.{
  DeletionConfirmationResult, confirm_deletion, anonymized_email, anonymized_username,
}
use test_specs_to_code.Services.AccountDeletionService.Confirm.{
  after_confirmation, confirm_deletion-checks, confirm_deletion-Confirmed,
  confirm_deletion-sessions,
}

-- The notice that is on file under an id.
abbrev pub find_notice : String → Db → Option DeletionNotificationRecord
find_notice record_id db =
    select_first (has_record_id record_id) db.account_deletion_notification_records

module _ (lower : String → String) (user : UserEntity) (request : DeletionRequestEntity)
    (record_id : String) (now : ℕ) (db : Db) where
  find_by_id-after :
      find_by_id user.id db ≡ some user
      → find_by_id user.id (after_confirmation lower user request record_id now db)
        ≡ some (
            anonymized
              (anonymized_email user)
              (anonymized_username user)
              (lower (anonymized_username user))
              now
              user)
  unfolding update_request_status insert_notification invalidate_all_for_user
  find_by_id-after listed =
      let change =
        anonymized (anonymized_email user) (anonymized_username user)
          (lower (anonymized_username user)) now in
      let after = after_confirmation lower user request record_id now db in
      ground (
        arith,
        eq_refl user.id,
        find_by_id-users user.id (update_user user.id change db) after refl,
        find_by_id-update user.id user.id change db (λ u. refl),
      )

  find_notice-after :
      find_notice record_id db ≡ none
      → find_notice record_id (after_confirmation lower user request record_id now db)
        ≡ some (new_notification record_id user.id user.email now now)
  unfolding update_request_status insert_notification invalidate_all_for_user update_user
  find_notice-after fresh = ground (
    arith,
    eq_refl record_id,
    select_first-append (has_record_id record_id)
        (new_notification record_id user.id user.email now now)
        db.account_deletion_notification_records,
  )

module _ (crypto : Crypto) (lower : String → String) where
  confirm_deletion-fresh :
      (user_id code record_id : String) (now : ℕ) (w w' : World) (r : DeletionConfirmationResult)
      (request : DeletionRequestEntity) (user : UserEntity)
      → find_pending_by_user_id user_id w.db ≡ some request
      → find_by_id user_id w.db ≡ some user
      → confirm_deletion crypto lower user_id code record_id now w ≡ (ok r, w')
      → find_notice record_id w.db ≡ none
  unfolding notification_violations
  confirm_deletion-fresh user_id code record_id now w w' r request user pending listed e =
      elim (Option-cases (find_notice record_id w.db)) [
        | inl fresh ↦ fresh
        | inr (old, found) ↦ absurd (
            ground (
              arith,
              confirm_deletion-checks crypto lower user_id code record_id now w request user pending
                  listed,
            ))
      ]

  -- A confirmation that returned was made with the code of the account's pending request, not after
  -- that expired. Afterwards the account's row is deleted at that time, its email, username and
  -- normalised username are made of its id alone, and the rest of the row is as it was; none of its
  -- sessions counts as active, at any time; and a notice is queued under the new id to the address
  -- that the account had before.
  pub confirm_deletion-anonymises :
      (user_id code record_id : String) (now at : ℕ) (w w' : World) (r : DeletionConfirmationResult)
      → confirm_deletion crypto lower user_id code record_id now w ≡ (ok r, w')
      → (request : DeletionRequestEntity) × (user : UserEntity) × (find_pending_by_user_id user_id
            w.db
          ≡ some request)
        × (now ≤ request.expires_at)
        × (crypto.hash_code code ≡ request.code_hash)
        × (find_by_id user_id w.db ≡ some user)
        × (find_by_id user_id w'.db
            ≡ some (record user {
              status = AccountStatus.deleted;
              email = String.◌++◌ "deleted-" (String.◌++◌ user_id "@deleted.invalid");
              username = String.◌++◌ "deleted-user-" user_id;
              username_normalised = lower (String.◌++◌ "deleted-user-" user_id);
              deleted_at = some now;
            }))
        × (count_active_for_user user_id at w'.db ≡ 0)
        × (find_notice record_id w'.db
            ≡ some (record {
              record_id = record_id;
              user_id = user_id;
              recipient_address = user.email;
              deletion_date = now;
              dispatch_timestamp = now;
              delivery_status = DeliveryStatus.queued;
              retry_count = 0;
            }))
  confirm_deletion-anonymises user_id code record_id now at w w' r e =
      let c = confirm_deletion-Confirmed crypto lower user_id code record_id now w w' r e in
      let fresh =
        confirm_deletion-fresh user_id code record_id now w w' r c.request c.user c.pending c.listed
          e in
      (
        c.request,
        c.user,
        c.pending,
        c.early,
        c.matches,
        c.listed,
        ground (
          arith,
          c.owner,
          c.state,
          c.listed,
          find_by_id-after lower c.user c.request record_id now w.db,
        ),
        confirm_deletion-sessions crypto lower user_id code record_id now at w w' r e,
        ground (
          arith,
          c.owner,
          c.state,
          find_notice-after lower c.user c.request record_id now w.db fresh,
        ),
      )
