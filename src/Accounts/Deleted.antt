-- ===== src/Accounts/Deleted.antt =====
-- After a confirmed deletion the account can neither log in nor be reached by a session.
use test_specs_to_code.Common.{
  ℕ, String, ◌≡◌, ◌≢◌, refl, sym, ◌∙◌, false, some, arith, eq_iff, Option-cases, inl, inr,
}
use test_specs_to_code.Model.{UserEntity, SessionEntity, DeletionRequestEntity, ok, Crypto, World}
use test_specs_to_code.Repositories.UserRepository.{find_by_email, update_user}
use test_specs_to_code.Repositories.DeletionRequestRepository.{update_request_status}
use test_specs_to_code.Repositories.DeletionNotificationRecordRepository.{insert_notification}
use test_specs_to_code.Repositories.SessionRepository.{find_by_token_hash, invalidate_all_for_user}
use test_specs_to_code.Services.LoginGuard.{LockoutConfig}
use test_specs_to_code.Services.SessionService.{LoginResult, valid, validate_session}
use test_specs_to_code.Services.SessionService.Closing.{find-invalidate_all}
use test_specs_to_code.Services.AuthService.{LoginInputs, login}
use test_specs_to_code.Services.AuthService.Outcomes.{login-LoggedIn}
use test_specs_to_code.Services.AccountDeletionService.{
  DeletionConfirmationResult, confirm_deletion,
}
use test_specs_to_code.Services.AccountDeletionService.Confirm.{
  after_confirmation, confirm_deletion-Confirmed, confirm_deletion-email,
}

-- The owner that a valid session names is the one of an open row under the token's hash.
validate_session-owner :
    (crypto : Crypto) (raw_token : String) (now swept_at : ℕ) (w : World) (user_id : String)
    → (validate_session crypto raw_token now swept_at w).0 ≡ ok (valid user_id)
    → (s : SessionEntity) × (find_by_token_hash (crypto.hash_token raw_token) w.db ≡ some s)
      × (s.invalidated ≡ false)
      × (s.user_id ≡ user_id)
unfolding validate_session
validate_session-owner crypto raw_token now swept_at w user_id e =
    elim (Option-cases (find_by_token_hash (crypto.hash_token raw_token) w.db)) [
      | inl missing ↦ absurd (ground arith)
      | inr (s, found) ↦ (s, found, ground arith, ground arith)
    ]

-- Of the four statements only one writes to the sessions.
find-after_confirmation :
    (lower : String → String) (user : UserEntity) (request : DeletionRequestEntity)
    (record_id token_hash : String) (now : ℕ) (w : World)
    → find_by_token_hash token_hash (after_confirmation lower user request record_id now w.db)
      ≡ find_by_token_hash token_hash (invalidate_all_for_user user.id now w.db)
unfolding find_by_token_hash insert_notification update_request_status update_user
    invalidate_all_for_user
find-after_confirmation lower user request record_id token_hash now w = refl

after_confirmation-session :
    (lower : String → String) (user : UserEntity) (request : DeletionRequestEntity)
    (record_id token_hash : String) (now : ℕ) (w : World) (s : SessionEntity)
    → find_by_token_hash token_hash (after_confirmation lower user request record_id now w.db)
      ≡ some s
    → s.invalidated ≡ false
    → s.user_id ≢ user.id
after_confirmation-session lower user request record_id token_hash now w s found live same =
    let closed =
      find-after_confirmation lower user request record_id token_hash now w
      ∙ find-invalidate_all user.id token_hash now w in
    elim (Option-cases (find_by_token_hash token_hash w.db)) [
      | inl missing ↦ ground (arith, closed)
      | inr (before, at) ↦ ground (arith, closed, eq_iff s.user_id user.id)
    ]

module _ (crypto : Crypto) (lower : String → String) where
  -- No login after a confirmation, under whatever email and password, is one of the deleted
  -- account: an account that logs in has another id.
  pub confirm_deletion-login :
      (lockout : LockoutConfig) (expiry_seconds : ℕ)
      (user_id code record_id email password : String) (now : ℕ) (inputs : LoginInputs)
      (w w' w'' : World) (c : DeletionConfirmationResult) (r : LoginResult)
      → confirm_deletion crypto lower user_id code record_id now w ≡ (ok c, w')
      → login crypto lockout expiry_seconds email password inputs w' ≡ (ok r, w'')
      → (u : UserEntity) × (find_by_email email w'.db ≡ some u) × (u.id ≢ user_id)
  confirm_deletion-login lockout expiry_seconds user_id code record_id email password now inputs w
        w' w'' c r e logged_in =
      let l =
        login-LoggedIn crypto lockout expiry_seconds email password inputs w' w'' r logged_in in
      (
        l.user,
        l.listed,
        λ same.
            let gone =
              confirm_deletion-email crypto lower user_id code record_id email now w w' c l.user e
                l.listed same in
            ground (arith, l.may.active, gone),
      )

  -- No session, whenever it is presented, is valid for the deleted account after a confirmation.
  pub confirm_deletion-validate :
      (user_id code record_id raw_token : String) (now at swept_at : ℕ) (w w' : World)
      (c : DeletionConfirmationResult)
      → confirm_deletion crypto lower user_id code record_id now w ≡ (ok c, w')
      → (validate_session crypto raw_token at swept_at w').0 ≢ ok (valid user_id)
  confirm_deletion-validate user_id code record_id raw_token now at swept_at w w' c e v =
      let d = confirm_deletion-Confirmed crypto lower user_id code record_id now w w' c e in
      let (s, found, live, owner) =
        validate_session-owner crypto raw_token at swept_at w' user_id v in
      after_confirmation-session lower d.user d.request record_id (crypto.hash_token raw_token) now
        w s (rw (d.state) at found) live (owner ∙ sym d.owner)
