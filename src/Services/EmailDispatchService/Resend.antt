-- ===== src/Services/EmailDispatchService/Resend.antt =====
-- When a confirmation mail can be queued again.
use test_specs_to_code.Common.{
  ℕ, String, Bool, ◌≡◌, ◌≢◌, true, not, none, some, is_some, List, [], ◌∷◌, ◌++◌, arith,
  Option-cases, inl, inr,
}
use test_specs_to_code.Table.{select_first}
use test_specs_to_code.Model.{
  UserEntity, thrown, World, is_pending, constraint_failed, Constraint, unique, foreign_key,
}
use test_specs_to_code.Repositories.Constraints.{broken_if, user_exists}
use test_specs_to_code.Repositories.UserRepository.{find_by_id}
use test_specs_to_code.Repositories.TokenRepository
use test_specs_to_code.Repositories.EmailRecordRepository
use test_specs_to_code.Repositories.EmailRecordRepository.{
  email_record_violations, has_record_id, token_is_missing,
}
use test_specs_to_code.Services.EmailDispatchService.{
  resend_confirmation, queued_record, id_or_empty,
}

-- A pending user who has an outbox record, in whatever status, is not sent another one: the UNIQUE
-- constraint on the record's user_id is among those that the INSERT breaks, and nothing is written.
pub resend_confirmation-again :
    (user_id record_id : String) (now : ℕ) (w : World) (user : UserEntity)
    → find_by_id user_id w.db ≡ some user
    → is_pending user.status ≡ true
    → EmailRecordRepository.find_by_user_id user_id w.db ≢ none
    → (before : List Constraint) × (after : List Constraint) × (resend_confirmation user_id
          record_id now w
        ≡ (
          thrown
              (constraint_failed (before ++ (unique "registration_email_records.user_id" ∷ after))),
          w,
        ))
unfolding resend_confirmation email_record_violations EmailRecordRepository.find_by_user_id
resend_confirmation-again user_id record_id now w user listed pending sent =
    let token = TokenRepository.find_by_user_id user_id w.db in
    let row = queued_record record_id user user_id (id_or_empty token) now in
    elim (Option-cases (EmailRecordRepository.find_by_user_id user_id w.db)) [
      | inl missing ↦ absurd (sent missing)
      | inr (old, found) ↦ (
        broken_if (is_some (select_first (has_record_id record_id) w.db.registration_email_records))
            (unique "registration_email_records.record_id"),
        broken_if (not (user_exists user_id w.db.users)) foreign_key
            ++ broken_if (token_is_missing row.activation_token_id w.db.activation_tokens)
                foreign_key,
        ground arith,
      )
    ]

-- A pending user without an activation token, as registration leaves one, cannot be sent a
-- confirmation at all: the record refers to a token with the empty id, and if there is none a
-- foreign key is the last of the constraints that the INSERT breaks, and nothing is written. The
-- other constraints that it can break are the unique ones on the record's id and its user_id.
pub resend_confirmation-no_token :
    (user_id record_id : String) (now : ℕ) (w : World) (user : UserEntity)
    → find_by_id user_id w.db ≡ some user
    → is_pending user.status ≡ true
    → TokenRepository.find_by_user_id user_id w.db ≡ none
    → select_first (TokenRepository.has_id "") w.db.activation_tokens ≡ none
    → (taken : Bool) × (sent : Bool) × (resend_confirmation user_id record_id now w ≡ (
      thrown (
          constraint_failed (
            broken_if taken (unique "registration_email_records.record_id")
            ++ (broken_if sent (unique "registration_email_records.user_id")
                ++ (foreign_key ∷ [])))),
      w,
    ))
unfolding resend_confirmation email_record_violations find_by_id user_exists
resend_confirmation-no_token user_id record_id now w user listed pending no_token no_empty =
    let row = queued_record record_id user user_id "" now in
    (
      is_some (select_first (has_record_id record_id) w.db.registration_email_records),
      is_some (
          select_first (EmailRecordRepository.has_user_id user_id) w.db.registration_email_records),
      ground arith,
    )
