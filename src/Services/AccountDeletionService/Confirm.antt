-- ===== src/Services/AccountDeletionService/Confirm.antt =====
-- What a confirmed deletion leaves behind, and that its failures leave nothing.
use test_specs_to_code.Common.{
  ℕ, ◌≤◌, String, ◌≡◌, refl, not, ltb, none, some, [], ◌∷◌, ◌==◌, arith, sym, ◌∙◌, eq_iff,
  if◌then◌else◌, Bool-cases, Option-cases, inl, inr,
}
use test_specs_to_code.Table.Laws.{select_first-from_update}
use test_specs_to_code.Model.{
  AccountStatus, UserEntity, DeletionRequestEntity, DeletionStatus, Exception, ok, thrown,
  deletion_request_not_found, deletion_otp_expired, deletion_otp_invalid, constraint_failed, Crypto,
  World, Db,
}
use test_specs_to_code.Repositories.UserRepository.{
  has_id, has_email, find_by_id, find_by_email, update_user, anonymized, anonymized_violations,
}
use test_specs_to_code.Repositories.UserRepository.Laws.{find_by_id-id}
use test_specs_to_code.Repositories.DeletionRequestRepository.{
  find_pending_by_user_id, update_request_status,
}
use test_specs_to_code.Repositories.SessionRepository.{
  invalidate_all_for_user, count_active_for_user,
}
use test_specs_to_code.Repositories.DeletionNotificationRecordRepository.{
  new_notification, insert_notification, notification_violations,
}
use test_specs_to_code.Services.SessionService.Closing.{invalidate_all-count}
use test_specs_to_code.Services.AccountDeletionService.{
  DeletionConfirmationResult, confirm_deletion, cancel_deletion, anonymized_email,
  anonymized_username,
}
use test_specs_to_code.Services.AccountDeletionService.Requests.{
  AtMostOnePending, update_request_status-AtMostOne, find_pending-update_status,
}

-- The database after the four statements of the transaction.
abbrev pub after_confirmation :
    (String → String) → UserEntity → DeletionRequestEntity → String → ℕ → Db → Db
after_confirmation lower user request record_id now db =
    insert_notification (new_notification record_id user.id user.email now now) (
      invalidate_all_for_user user.id now (
        update_request_status request.id DeletionStatus.confirmed now (
          update_user user.id
            (anonymized (anonymized_email user) (anonymized_username user)
              (lower (anonymized_username user)) now)
            db)))

module _ (lower : String → String) (user : UserEntity) (request : DeletionRequestEntity) where
  after_confirmation-pending :
      (user_id record_id : String) (now : ℕ) (db : Db)
      → AtMostOnePending db
      → find_pending_by_user_id user_id db ≡ some request
      → AtMostOnePending (after_confirmation lower user request record_id now db)
        × (find_pending_by_user_id user_id (after_confirmation lower user request record_id now db)
            ≡ none)
  unfolding find_pending_by_user_id update_request_status insert_notification
      invalidate_all_for_user update_user
  after_confirmation-pending user_id record_id now db inv found = (
    update_request_status-AtMostOne request.id DeletionStatus.confirmed now db refl inv,
    find_pending-update_status user_id DeletionStatus.confirmed now db request refl inv found,
  )

  after_confirmation-email :
      (record_id email : String) (now : ℕ) (db : Db) (u : UserEntity)
      → find_by_email email (after_confirmation lower user request record_id now db) ≡ some u
      → u.id ≡ user.id
      → u.status ≡ AccountStatus.deleted
  unfolding find_by_email update_request_status insert_notification invalidate_all_for_user
      update_user
  after_confirmation-email record_id email now db u found same =
      let change =
        anonymized (anonymized_email user) (anonymized_username user)
          (lower (anonymized_username user)) now in
      let (x, made) =
        select_first-from_update (has_email email) (has_id user.id) change db.users u found in
      elim (Bool-cases (x.id == user.id)) [
        | inl hit ↦ ground arith
        | inr missed ↦ ground (arith, eq_iff x.id user.id)
      ]

  after_confirmation-count :
      (record_id : String) (now at : ℕ) (w : World)
      → count_active_for_user user.id at (after_confirmation lower user request record_id now w.db)
        ≡ 0
  unfolding count_active_for_user insert_notification
  after_confirmation-count record_id now at w =
      let change =
        anonymized (anonymized_email user) (anonymized_username user)
          (lower (anonymized_username user)) now in
      invalidate_all-count user.id now at (record w {
        db =
            update_request_status request.id DeletionStatus.confirmed now
              (update_user user.id change w.db);
      })

module _ (crypto : Crypto) (lower : String → String) where
  -- The branches of a confirmation whose lookups are known.
  pub confirm_deletion-checks :
      (user_id code record_id : String) (now : ℕ) (w : World) (request : DeletionRequestEntity)
      (user : UserEntity)
      → find_pending_by_user_id user_id w.db ≡ some request
      → find_by_id user_id w.db ≡ some user
      → confirm_deletion crypto lower user_id code record_id now w ≡ (
          if ltb request.expires_at now
          then (thrown (deletion_otp_expired user_id), w)
          else if not (crypto.hash_code code == request.code_hash)
          then (thrown (deletion_otp_invalid user_id), w)
          else elim (anonymized_violations user.id
              (anonymized_email user)
              (lower (anonymized_username user))
              w.db) [
                | [] ↦
                    elim (notification_violations
                      (new_notification record_id user.id user.email now now)
                      w.db) [
                        | [] ↦ (
                          ok (record { user_id = user.id; deleted_at = now }),
                          record w {
                            db = after_confirmation lower user request record_id now w.db;
                          },
                        )
                        | c ∷ cs ↦ (thrown (constraint_failed (c ∷ cs)), w)
                      ]
                | c ∷ cs ↦ (thrown (constraint_failed (c ∷ cs)), w)
              ])
  unfolding confirm_deletion notification_violations update_request_status invalidate_all_for_user
      update_user
  confirm_deletion-checks user_id code record_id now w request user pending listed = ground arith

  confirm_deletion-no_request :
      (user_id code record_id : String) (now : ℕ) (w : World)
      → find_pending_by_user_id user_id w.db ≡ none
      → confirm_deletion crypto lower user_id code record_id now w
        ≡ (thrown (deletion_request_not_found user_id), w)
  unfolding confirm_deletion
  confirm_deletion-no_request user_id code record_id now w missing = ground arith

  confirm_deletion-no_user :
      (user_id code record_id : String) (now : ℕ) (w : World) (request : DeletionRequestEntity)
      → find_pending_by_user_id user_id w.db ≡ some request
      → find_by_id user_id w.db ≡ none
      → confirm_deletion crypto lower user_id code record_id now w ≡ (
          if ltb request.expires_at now
          then (thrown (deletion_otp_expired user_id), w)
          else if not (crypto.hash_code code == request.code_hash)
          then (thrown (deletion_otp_invalid user_id), w)
          else (thrown (deletion_request_not_found user_id), w))
  unfolding confirm_deletion
  confirm_deletion-no_user user_id code record_id now w request pending missing = ground arith

  -- What a confirmation that returned has established, and the state that it left.
  pub record Confirmed (user_id code record_id : String) (now : ℕ) (w w' : World)
      (r : DeletionConfirmationResult) : Type 0 where
    pub request : DeletionRequestEntity
    pub user : UserEntity
    pub pending : find_pending_by_user_id user_id w.db ≡ some request
    pub early : now ≤ request.expires_at
    pub matches : crypto.hash_code code ≡ request.code_hash
    pub listed : find_by_id user_id w.db ≡ some user
    pub owner : user.id ≡ user_id
    pub answer : r ≡ record { user_id = user_id; deleted_at = now }
    pub state : w' ≡ record w { db = after_confirmation lower user request record_id now w.db }

  -- A confirmation that returned had these premises, and made the four writes of its transaction.
  pub confirm_deletion-Confirmed :
      (user_id code record_id : String) (now : ℕ) (w w' : World) (r : DeletionConfirmationResult)
      → confirm_deletion crypto lower user_id code record_id now w ≡ (ok r, w')
      → Confirmed user_id code record_id now w w' r
  confirm_deletion-Confirmed user_id code record_id now w w' r e =
      elim (Option-cases (find_pending_by_user_id user_id w.db)) [
        | inl missing ↦
            absurd (cc (e, confirm_deletion-no_request user_id code record_id now w missing))
        | inr (request, pending) ↦ elim (Option-cases (find_by_id user_id w.db)) [
          | inl missing ↦ absurd (
              ground (
                arith,
                confirm_deletion-no_user user_id code record_id now w request pending missing,
              ))
          | inr (user, listed) ↦
              let owner : user.id ≡ user_id =
                (eq_iff user.id user_id).0 (find_by_id-id user_id w.db user listed) in
              let checks =
                confirm_deletion-checks user_id code record_id now w request user pending listed in
              record {
                request = request;
                user = user;
                pending = pending;
                early = ground (arith, checks);
                matches =
                    (eq_iff (crypto.hash_code code) request.code_hash).0 (ground (arith, checks));
                listed = listed;
                owner = owner;
                answer = ground (arith, checks, owner);
                state = ground (arith, checks);
              }
        ]
      ]

  -- A confirmation that is refused, for whatever reason, has written nothing.
  pub confirm_deletion-thrown :
      (user_id code record_id : String) (now : ℕ) (w w' : World) (x : Exception)
      → confirm_deletion crypto lower user_id code record_id now w ≡ (thrown x, w')
      → w' ≡ w
  unfolding confirm_deletion
  confirm_deletion-thrown user_id code record_id now w w' x e = ground arith

  -- A confirmed deletion cannot be confirmed or cancelled again, and the invariant on pending
  -- requests holds: the second call finds no request and writes nothing.
  pub confirm_deletion-again :
      (user_id code record_id : String) (now : ℕ) (w w' : World) (r : DeletionConfirmationResult)
      → AtMostOnePending w.db
      → confirm_deletion crypto lower user_id code record_id now w ≡ (ok r, w')
      → (code' record_id' : String) (later : ℕ)
      → AtMostOnePending w'.db
        × (confirm_deletion crypto lower user_id code' record_id' later w'
            ≡ (thrown (deletion_request_not_found user_id), w'))
        × (cancel_deletion user_id later w' ≡ (thrown (deletion_request_not_found user_id), w'))
  unfolding cancel_deletion
  confirm_deletion-again user_id code record_id now w w' r inv e code' record_id' later =
      let c = confirm_deletion-Confirmed user_id code record_id now w w' r e in
      let (kept, none_left) =
        after_confirmation-pending lower c.user c.request user_id record_id now w.db inv
          c.pending in
      let left : find_pending_by_user_id user_id w'.db ≡ none = rw (c.state) none_left in
      (
        rw (c.state) kept,
        confirm_deletion-no_request user_id code' record_id' later w' left,
        rw (left) refl,
      )

  -- After a confirmation no session of the account counts as active, at any time.
  pub confirm_deletion-sessions :
      (user_id code record_id : String) (now at : ℕ) (w w' : World) (r : DeletionConfirmationResult)
      → confirm_deletion crypto lower user_id code record_id now w ≡ (ok r, w')
      → count_active_for_user user_id at w'.db ≡ 0
  confirm_deletion-sessions user_id code record_id now at w w' r e =
      let c = confirm_deletion-Confirmed user_id code record_id now w w' r e in
      rw (← c.owner, c.state) (after_confirmation-count lower c.user c.request record_id now at w)

  -- After a confirmation every row with the account's id that a lookup by email finds is deleted,
  -- whatever the email.
  pub confirm_deletion-email :
      (user_id code record_id email : String) (now : ℕ) (w w' : World)
      (r : DeletionConfirmationResult) (u : UserEntity)
      → confirm_deletion crypto lower user_id code record_id now w ≡ (ok r, w')
      → find_by_email email w'.db ≡ some u
      → u.id ≡ user_id
      → u.status ≡ AccountStatus.deleted
  confirm_deletion-email user_id code record_id email now w w' r u e found same =
      let c = confirm_deletion-Confirmed user_id code record_id now w w' r e in
      after_confirmation-email lower c.user c.request record_id email now w.db u
        (rw (c.state) at found) (same ∙ sym c.owner)
