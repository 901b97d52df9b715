-- ===== src/Services/AccountDeletionService/Requests.antt =====
-- Deletion requests: at most one pending request for each account, across request, cancel and
-- confirm.
use test_specs_to_code.Common.{
  ℕ, ◌+◌, ◌*◌, ◌≤◌, String, ◌≡◌, refl, false, none, some, arith, eq_refl, eq_iff, Option-cases, inl,
  inr,
}
use test_specs_to_code.Table.{count_where}
use test_specs_to_code.Table.Laws.{
  select_first-append, select_first-none_iff, count_where-append, count_where-update-le,
  count_where-update-lt,
}
use test_specs_to_code.Model.{
  DeletionRequestEntity, DeletionStatus, is_pending_deletion, ok, thrown,
  deletion_request_already_pending, deletion_request_not_found, Crypto, World, Db,
}
use test_specs_to_code.Repositories.UserRepository.{find_by_id}
use test_specs_to_code.Repositories.DeletionRequestRepository.{
  has_id, is_pending_for, new_deletion_request, insert_deletion_request,
  deletion_request_violations, find_pending_by_user_id, update_request_status, stamped,
}
use test_specs_to_code.Services.AccountDeletionService.{
  AccountDeletionConfig, DeletionRequestResult, require_active, request_deletion, cancel_deletion,
}

-- The number of pending requests of an account.
abbrev pub pending_count : String → Db → ℕ
pending_count user_id db = count_where (is_pending_for user_id) db.account_deletion_requests

-- No account has two pending requests.
abbrev pub AtMostOnePending : Db → Type 0
AtMostOnePending db = (user_id : String) → pending_count user_id db ≤ 1

module _ (crypto : Crypto) (config : AccountDeletionConfig) where
  -- After a request that returned, a second one of the same account is refused as long as the
  -- first is pending, and writes and sends nothing.
  pub request_deletion-again :
      (user_id code id : String) (issued_at : ℕ) (w w' : World) (r : DeletionRequestResult)
      → request_deletion crypto config user_id code id issued_at w ≡ (ok r, w')
      → (code' id' : String) (now : ℕ)
      → request_deletion crypto config user_id code' id' now w'
        ≡ (thrown (deletion_request_already_pending user_id), w')
  unfolding request_deletion require_active find_pending_by_user_id insert_deletion_request
      find_by_id deletion_request_violations
  request_deletion-again user_id code id issued_at w w' r e code' id' now =
      let expires_at = issued_at + config.otp_expiry_minutes * 60 * 1000 in
      let row = new_deletion_request id user_id (crypto.hash_code code) issued_at expires_at in
      ground (
        arith,
        eq_refl user_id,
        select_first-append (is_pending_for user_id) row w.db.account_deletion_requests,
      )

  -- A request keeps the invariant, whether it returns or throws.
  pub request_deletion-AtMostOne :
      (user_id code id : String) (issued_at : ℕ) (w : World)
      → AtMostOnePending w.db
      → AtMostOnePending (request_deletion crypto config user_id code id issued_at w).1.db
  unfolding request_deletion require_active find_pending_by_user_id insert_deletion_request
      find_by_id deletion_request_violations
  request_deletion-AtMostOne user_id code id issued_at w inv other =
      let expires_at = issued_at + config.otp_expiry_minutes * 60 * 1000 in
      let row = new_deletion_request id user_id (crypto.hash_code code) issued_at expires_at in
      ground (
        arith,
        inv other,
        eq_iff user_id other,
        (select_first-none_iff (is_pending_for user_id) w.db.account_deletion_requests).0,
        count_where-append (is_pending_for other) row w.db.account_deletion_requests,
      )

-- A status that is not pending makes no row pending.
stamped-not_pending :
    (user_id : String) (status : DeletionStatus) (at : ℕ) (r : DeletionRequestEntity)
    → is_pending_deletion status ≡ false
    → is_pending_for user_id (stamped status at r) ≡ false
stamped-not_pending user_id status at r h = ground arith

pub update_request_status-AtMostOne :
    (id : String) (status : DeletionStatus) (at : ℕ) (db : Db)
    → is_pending_deletion status ≡ false
    → AtMostOnePending db
    → AtMostOnePending (update_request_status id status at db)
unfolding update_request_status
update_request_status-AtMostOne id status at db h inv other = omega (
  arith,
  inv other,
  count_where-update-le (is_pending_for other) (has_id id) (stamped status at)
      db.account_deletion_requests
      (λ r pending. cc (pending, stamped-not_pending other status at r h)),
)

-- The status update of an account's one pending request leaves it none.
pub find_pending-update_status :
    (user_id : String) (status : DeletionStatus) (at : ℕ) (db : Db) (r : DeletionRequestEntity)
    → is_pending_deletion status ≡ false
    → AtMostOnePending db
    → find_pending_by_user_id user_id db ≡ some r
    → find_pending_by_user_id user_id (update_request_status r.id status at db) ≡ none
unfolding find_pending_by_user_id update_request_status
find_pending-update_status user_id status at db r h inv found =
    (select_first-none_iff (is_pending_for user_id) _).1 (
      omega (
        arith,
        inv user_id,
        count_where-update-lt (is_pending_for user_id) (has_id r.id) (stamped status at)
            db.account_deletion_requests r
            (λ x pending. cc (pending, stamped-not_pending user_id status at x h)) found
            (eq_refl r.id) (stamped-not_pending user_id status at r h),
      ))

-- A cancellation keeps the invariant, and afterwards the account has no pending request: a second
-- cancellation finds none and writes nothing.
pub cancel_deletion-again :
    (user_id : String) (now later : ℕ) (w w' : World)
    → AtMostOnePending w.db
    → cancel_deletion user_id now w ≡ (ok tt, w')
    → AtMostOnePending w'.db
      × (cancel_deletion user_id later w' ≡ (thrown (deletion_request_not_found user_id), w'))
unfolding cancel_deletion
cancel_deletion-again user_id now later w w' inv e =
    elim (Option-cases (find_pending_by_user_id user_id w.db)) [
      | inl missing ↦ absurd (cc (rw (missing, cancel_deletion) at e))
      | inr (r, found) ↦
          let same : w'
              ≡ record w { db = update_request_status r.id DeletionStatus.cancelled now w.db } =
            ground arith in
          let gone =
            find_pending-update_status user_id DeletionStatus.cancelled now w.db r refl inv found in
          (
            rw same
                (update_request_status-AtMostOne r.id DeletionStatus.cancelled now w.db refl inv),
            ground arith,
          )
    ]
