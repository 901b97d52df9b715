-- ===== src/System/Advance/Statements.antt =====
-- The four guarded methods, for a preorder that allows each of their statements.
use test_specs_to_code.Common.{ltb}
use test_specs_to_code.Common.{is_some}
use test_specs_to_code.Repositories.UserRepository.{update_status}
use test_specs_to_code.Common.{not, ◌&&◌, ◌*◌, ◌+◌, ◌==◌}
use test_specs_to_code.Model.{
  account_not_active, account_not_pending, deletion_request_already_pending, is_active, is_pending,
  otp_expired, otp_invalid, otp_not_found, status_text, token_consumed, token_expired,
  token_not_found,
}
use test_specs_to_code.Repositories.DeletionRequestRepository.{
  deletion_request_violations, find_pending_by_user_id, insert_deletion_request,
  new_deletion_request,
}
use test_specs_to_code.Repositories.OtpRequestRepository.{
  create_otp_request, find_active_by_user_id, get_next_attempt_sequence,
  invalidate_active_by_user_id, invalidate_otp, otp_request_violations,
}
use test_specs_to_code.Repositories.UserRepository.{find_by_id}
use test_specs_to_code.Services.AccountDeletionService.{
  AccountDeletionConfig, deletion_mail, require_active,
}
use test_specs_to_code.Services.ActivationService.{require_pending}
use test_specs_to_code.Services.OtpService.{OtpConfig, OtpInputs, new_otp_request, store_otp}
use test_specs_to_code.Common.{ℕ, String, Option, none, some}
use test_specs_to_code.Model.{
  AccountStatus, UserEntity, OtpRequestEntity, DeletionRequestEntity, Crypto, Db, IsPreorder,
  Advances, Advances-pure, Advances-throw, Advances-require, Advances-throw_if, Advances-query,
  Advances-send, Advances-bind, Advances-then, Advances-with_transaction, Advances-insert,
  Advances-command,
}
use test_specs_to_code.Repositories.TokenRepository
use test_specs_to_code.Repositories.TokenRepository.{find_by_token_value}
use test_specs_to_code.Services.ActivationService.{activate}
use test_specs_to_code.Services.OtpService.{verify_otp}
use test_specs_to_code.Services.AccountDeletionService.{request_deletion}

module _ {R : Db → Db → Type 0} (order : IsPreorder R) where
  pub store_otp-Advances :
      (crypto : Crypto) (config : OtpConfig) (user_id : String) (user : UserEntity)
      (inputs : OtpInputs)
      → ((db : Db) → R db (invalidate_active_by_user_id user_id inputs.invalidated_at db))
      → ((row : OtpRequestEntity) (db : Db) → R db (create_otp_request row db))
      → Advances R (store_otp crypto config user_id user inputs)
  unfolding store_otp
  store_otp-Advances crypto config user_id user inputs sweep create =
      Advances-then order _ _ (Advances-command _ sweep) (
        Advances-bind order _ _ (Advances-query order (get_next_attempt_sequence user_id))
          (λ attempt_sequence.
            let row = new_otp_request crypto config user_id user attempt_sequence inputs in
            Advances-insert order (otp_request_violations row) (create_otp_request row)
              (λ db clear. create row db)))

  require_active-Advances : (found : Option UserEntity) → Advances R (require_active found)
  unfolding require_active
  require_active-Advances none = Advances-throw order (account_not_active "unknown")
  require_active-Advances (some user) =
      Advances-then order _ _
        (Advances-throw_if order (not (is_active user.status))
          (account_not_active (status_text user.status)))
        (Advances-pure order user)

  pub request_deletion-Advances :
      (crypto : Crypto) (config : AccountDeletionConfig) (user_id code id : String) (issued_at : ℕ)
      → ((row : DeletionRequestEntity) (db : Db) → R db (insert_deletion_request row db))
      → Advances R (request_deletion crypto config user_id code id issued_at)
  unfolding request_deletion
  request_deletion-Advances crypto config user_id code id issued_at create =
      Advances-bind order _ _ (Advances-query order (find_by_id user_id)) (λ found.
        Advances-bind order _ _ (require_active-Advances found) (λ user.
          Advances-bind order _ _ (Advances-query order (find_pending_by_user_id user_id))
            (λ existing.
              Advances-then order _ _
                (Advances-throw_if order (is_some existing)
                  (deletion_request_already_pending user_id))
                (let expires_at = issued_at + config.otp_expiry_minutes * 60 * 1000 in
                  let row =
                    new_deletion_request id user_id (crypto.hash_code code) issued_at expires_at in
                  Advances-then order _ _
                    (Advances-insert order (deletion_request_violations row)
                      (insert_deletion_request row) (λ db clear. create row db))
                    (Advances-then order _ _ (Advances-send order (deletion_mail config user code))
                      (Advances-pure order
                        (record { request_id = id; expires_at = expires_at })))))))

  pub verify_otp-Advances :
      (crypto : Crypto) (user_id passcode : String) (checked_at activated_at : ℕ)
      → ((db : Db) → R db (update_status user_id AccountStatus.active activated_at db))
      → ((id : String) (db : Db) → R db (invalidate_otp id activated_at db))
      → Advances R (verify_otp crypto user_id passcode checked_at activated_at)
  unfolding verify_otp
  verify_otp-Advances crypto user_id passcode checked_at activated_at status close =
      Advances-bind order _ _ (Advances-query order (find_by_id user_id)) (λ found.
        Advances-bind order _ _ (Advances-require order found (otp_not_found user_id)) (λ user.
          Advances-then order _ _
            (Advances-throw_if order (not (is_pending user.status) && not (is_active user.status))
              (otp_not_found user_id))
            (Advances-bind order _ _ (Advances-query order (find_active_by_user_id user_id))
              (λ open_code.
                Advances-bind order _ _ (Advances-require order open_code (otp_not_found user_id))
                  (λ request.
                    Advances-then order _ _
                      (Advances-throw_if order (ltb request.expires_at checked_at)
                        (otp_expired user_id))
                      (Advances-then order _ _
                        (Advances-throw_if order
                          (not (crypto.hash_code passcode == request.code_hash))
                          (otp_invalid user_id))
                        (Advances-then order _ _
                          (Advances-with_transaction order _ (
                            Advances-then order _ _ (Advances-command _ status)
                              (Advances-command _ (close request.id))))
                          (Advances-pure order
                            (record { user_id = user_id; activated_at = activated_at })))))))))

  require_pending-Advances : (found : Option UserEntity) → Advances R (require_pending found)
  unfolding require_pending
  require_pending-Advances none = Advances-throw order (account_not_pending "unknown")
  require_pending-Advances (some user) =
      Advances-then order _ _
        (Advances-throw_if order (not (is_pending user.status))
          (account_not_pending (status_text user.status)))
        (Advances-pure order user)

  pub activate-Advances :
      (token_value : String) (now activated_at : ℕ)
      → ((id : String) (db : Db) → R db (update_status id AccountStatus.active activated_at db))
      → ((id : String) (db : Db) → R db (TokenRepository.mark_consumed id activated_at db))
      → Advances R (activate token_value now activated_at)
  unfolding activate
  activate-Advances token_value now activated_at status consume =
      Advances-bind order _ _ (Advances-query order (find_by_token_value token_value)) (λ found.
        Advances-bind order _ _ (Advances-require order found token_not_found) (λ token.
          Advances-then order _ _ (Advances-throw_if order (ltb token.expires_at now) token_expired)
            (Advances-then order _ _ (Advances-throw_if order token.consumed token_consumed) (
              Advances-bind order _ _ (Advances-query order (find_by_id token.user_id)) (λ owner.
                Advances-bind order _ _ (require_pending-Advances owner) (λ user.
                  Advances-then order _ _
                    (Advances-with_transaction order _ (
                      Advances-then order _ _ (Advances-command _ (status user.id))
                        (Advances-command _ (consume token.id))))
                    (Advances-pure order
                      (record { user_id = user.id; activated_at = activated_at }))))))))
