-- ===== src/System/Refusals.antt =====
-- Closed sessions, used links and deleted accounts, over the runs of the server: session.service.ts,
-- password-recovery.service.ts, activation.service.ts and account-deletion.service.ts together.
use test_specs_to_code.Model.{ActivationToken}
use test_specs_to_code.Repositories.TokenRepository.{find_by_token_value}
use test_specs_to_code.Services.ActivationService.Activate.{activate-uses}
use test_specs_to_code.Repositories.DeletionNotificationRecordRepository.{insert_notification}
use test_specs_to_code.Repositories.DeletionRequestRepository.{update_request_status}
use test_specs_to_code.Repositories.SessionRepository.{invalidate_all_for_user}
use test_specs_to_code.Repositories.UserRepository.{anonymized, update_user}
use test_specs_to_code.Repositories.UserRepository.Laws.{
  find_by_id-id, find_by_id-update, find_by_id-users,
}
use test_specs_to_code.Services.AccountDeletionService.{
  DeletionConfirmationResult, anonymized_email, anonymized_username,
}
use test_specs_to_code.Services.AccountDeletionService.Confirm.{confirm_deletion-Confirmed}
use test_specs_to_code.Services.AccountDeletionService.{confirm_deletion}
use test_specs_to_code.Services.PasswordRecoveryService.Reset.{reset_password-consumed}
use test_specs_to_code.Repositories.PasswordRecoveryRequestRepository.{consumed_request}
use test_specs_to_code.Table.{select_first}
use test_specs_to_code.Common.{Option-cases}
use test_specs_to_code.Services.PasswordRecoveryService.{reset_password}
use test_specs_to_code.Services.SessionService.Closing.{find-mark_invalidated}
use test_specs_to_code.Common.{eq_refl, inl, inr}
use test_specs_to_code.Model.{PasswordRecoveryRequestEntity}
use test_specs_to_code.Repositories.PasswordRecoveryRequestRepository.{find_by_token}
use test_specs_to_code.Repositories.SessionRepository.{find_by_token_hash}
use test_specs_to_code.Repositories.UserRepository.{find_by_id}
use test_specs_to_code.Services.OtpService.{OtpState}
use test_specs_to_code.Services.PasswordRecoveryService.{check_reset}
use test_specs_to_code.Services.SessionService.{
  invalidate_session, valid, validate_owner, validate_session,
}
use test_specs_to_code.System.Rules.{is_deleted}
use test_specs_to_code.Validators.PasswordPolicy.{PasswordPolicy}
use test_specs_to_code.Common.{ℕ, String, ◌≡◌, ◌≢◌, refl, true, false, some, arith}
use test_specs_to_code.Table.Lasting.{holds}
use test_specs_to_code.Model.{Crypto, World, ok, thrown, token_expired, SessionEntity}
use test_specs_to_code.System.{Setup, Reach}
use test_specs_to_code.System.Lifecycle.Forever.{run-Later}
use test_specs_to_code.Services.ActivationService.{activate, ActivationResult}

module _ (crypto : Crypto) where
  -- The token of a closed session is not valid.
  closed-refused :
      (raw_token user_id : String) (now swept_at : ℕ) (w : World)
      → holds
          (λ (s : SessionEntity). s.invalidated)
          (find_by_token_hash (crypto.hash_token raw_token) w.db)
        ≡ true
      → (validate_session crypto raw_token now swept_at w).0 ≢ ok (valid user_id)
  unfolding validate_session
  closed-refused raw_token user_id now swept_at w h e = ground arith

  -- No token is valid for a deleted account.
  deleted-refused :
      (raw_token user_id : String) (now swept_at : ℕ) (w : World)
      → holds is_deleted (find_by_id user_id w.db) ≡ true
      → (validate_session crypto raw_token now swept_at w).0 ≢ ok (valid user_id)
  unfolding validate_session validate_owner
  deleted-refused raw_token user_id now swept_at w gone e =
      elim (Option-cases (find_by_token_hash (crypto.hash_token raw_token) w.db)) [
        | inl missing ↦ absurd (ground arith)
        | inr (s, found) ↦ elim (Option-cases (find_by_id s.user_id w.db)) [
          | inl missing ↦ absurd (ground arith)
          | inr (u, listed) ↦ absurd (ground arith)
        ]
      ]

  invalidate_session-closes :
      (raw_token : String) (now closed_at : ℕ) (w w' : World)
      → invalidate_session crypto raw_token now closed_at w
        ≡ (ok (record { already_terminated = false }), w')
      → holds
          (λ (s : SessionEntity). s.invalidated)
          (find_by_token_hash (crypto.hash_token raw_token) w'.db)
        ≡ true
  unfolding invalidate_session
  invalidate_session-closes raw_token now closed_at w w' e =
      elim (Option-cases (find_by_token_hash (crypto.hash_token raw_token) w.db)) [
        | inl missing ↦ absurd (ground arith)
        | inr (s, found) ↦ ground (
          arith,
          eq_refl s.id,
          find-mark_invalidated crypto s.id (crypto.hash_token raw_token) closed_at w,
        )
      ]

  holds-used :
      (token : String) (at : ℕ) (w : World) (r : PasswordRecoveryRequestEntity)
      → find_by_token token w.db ≡ some (consumed_request at r)
      → holds (λ (x : PasswordRecoveryRequestEntity). x.consumed) (find_by_token token w.db) ≡ true
  holds-used token at w r e = rw e refl

  used-refused :
      (policy : PasswordPolicy) (token new_password salt : String) (now : ℕ) (w : World)
      → holds (λ (r : PasswordRecoveryRequestEntity). r.consumed) (find_by_token token w.db) ≡ true
      → reset_password crypto policy token new_password salt now w ≡ (thrown token_expired, w)
  unfolding reset_password check_reset
  used-refused policy token new_password salt now w h = ground arith

  confirm_deletion-deleted :
      (lower : String → String) (user_id code record_id : String) (now : ℕ) (w w' : World)
      (r : DeletionConfirmationResult)
      → confirm_deletion crypto lower user_id code record_id now w ≡ (ok r, w')
      → holds is_deleted (find_by_id user_id w'.db) ≡ true
  unfolding insert_notification invalidate_all_for_user update_request_status
  confirm_deletion-deleted lower user_id code record_id now w w' r e =
      let c = confirm_deletion-Confirmed crypto lower user_id code record_id now w w' r e in
      let name = anonymized_username c.user in
      let erased =
        update_user c.user.id (anonymized (anonymized_email c.user) name (lower name) now) w.db in
      ground (
        arith,
        c.state,
        c.listed,
        c.owner,
        find_by_id-id user_id w.db c.user c.listed,
        find_by_id-update user_id c.user.id
            (anonymized (anonymized_email c.user) name (lower name) now) w.db (λ u. refl),
        find_by_id-users user_id erased w'.db (rw (c.state) refl),
      )

consumed-refused :
    (token_value : String) (now activated_at : ℕ) (w : World) (r : ActivationResult)
    → holds (λ (x : ActivationToken). x.consumed) (find_by_token_value token_value w.db) ≡ true
    → (activate token_value now activated_at w).0 ≢ ok r
unfolding activate
consumed-refused token_value now activated_at w r h e = ground arith

activate-consumes :
    (token_value : String) (now activated_at : ℕ) (w w' : World) (r : ActivationResult)
    → activate token_value now activated_at w ≡ (ok r, w')
    → holds (λ (x : ActivationToken). x.consumed) (find_by_token_value token_value w'.db) ≡ true
activate-consumes token_value now activated_at w w' r e =
    let (t, found, used) = activate-uses token_value now activated_at w w' r e in rw (used) refl

module _ (crypto : Crypto) {K : Type 0} (setup : Setup K) where
  -- A logout that closed a session is final: whatever happens in between, no later check of the
  -- token finds it valid for anyone.
  pub logout-forever :
      (raw_token user_id : String) (at closed_at now swept_at : ℕ) (s t : OtpState K) (w : World)
      → invalidate_session crypto raw_token at closed_at s.world
        ≡ (ok (record { already_terminated = false }), w)
      → Reach setup (record s { world = w }) t
      → (validate_session crypto raw_token now swept_at t.world).0 ≢ ok (valid user_id)
  unfolding select_first find_by_token_hash
  logout-forever raw_token user_id at closed_at now swept_at s t w e run =
      closed-refused crypto raw_token user_id now swept_at t.world (
        (run-Later setup (record s { world = w }) t run).closed (crypto.hash_token raw_token)
          (invalidate_session-closes crypto raw_token at closed_at s.world w e))

  -- A recovery link that has reset a password is final: whatever happens in between, every later
  -- reset with it is refused as expired, whatever the password, and writes nothing.
  pub reset-forever :
      (policy : PasswordPolicy) (token password salt other_password other_salt : String)
      (now later : ℕ) (s t : OtpState K) (w : World)
      → reset_password crypto policy token password salt now s.world ≡ (ok tt, w)
      → Reach setup (record s { world = w }) t
      → reset_password crypto policy token other_password other_salt later t.world
        ≡ (thrown token_expired, t.world)
  unfolding select_first find_by_token
  reset-forever policy token password salt other_password other_salt now later s t w e run =
      let (r, used) = reset_password-consumed crypto policy token password salt now s.world w e in
      used-refused crypto policy token other_password other_salt later t.world (
        (run-Later setup (record s { world = w }) t run).used token
          (holds-used crypto token now w r used))

  -- A confirmed deletion is final: whatever happens in between, no later check of a token whose
  -- session belongs to the account finds it valid, and the account's row is still a deleted one.
  pub deletion-forever :
      (lower : String → String) (user_id code record_id raw_token : String)
      (confirmed_at now swept_at : ℕ) (s t : OtpState K) (w : World)
      (r : DeletionConfirmationResult)
      → confirm_deletion crypto lower user_id code record_id confirmed_at s.world ≡ (ok r, w)
      → Reach setup (record s { world = w }) t
      → (holds is_deleted (find_by_id user_id t.world.db) ≡ true)
        × ((validate_session crypto raw_token now swept_at t.world).0 ≢ ok (valid user_id))
  unfolding select_first find_by_id
  deletion-forever lower user_id code record_id raw_token confirmed_at now swept_at s t w r e run =
      let gone =
        (run-Later setup (record s { world = w }) t run).deleted user_id (
          confirm_deletion-deleted crypto lower user_id code record_id confirmed_at s.world w r
            e) in
      (gone, deleted-refused crypto raw_token user_id now swept_at t.world gone)

  -- An activation link works once: whatever happens in between, no later activation with the
  -- same token returns.
  pub activation-forever :
      (token_value : String) (now later activated_at activated_again : ℕ) (s t : OtpState K)
      (w : World) (r again : ActivationResult)
      → activate token_value now activated_at s.world ≡ (ok r, w)
      → Reach setup (record s { world = w }) t
      → (activate token_value later activated_again t.world).0 ≢ ok again
  unfolding select_first find_by_token_value
  activation-forever token_value now later activated_at activated_again s t w r again e run =
      consumed-refused token_value later activated_again t.world again (
        (run-Later setup (record s { world = w }) t run).consumed token_value
          (activate-consumes token_value now activated_at s.world w r e))
