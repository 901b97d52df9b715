-- ===== src/System/Lifecycle/Guarded.antt =====
-- The two methods of which the relation needs their guards: the activation of an account and the
-- verification of a code.
use test_specs_to_code.Services.ActivationService.{activate}
use test_specs_to_code.Services.OtpService.{verify_otp}
use test_specs_to_code.Common.{ltb}
use test_specs_to_code.Common.{Option-cases}
use test_specs_to_code.Common.{if◌then◌else◌}
use test_specs_to_code.Services.OtpService.{verify_otp}
use test_specs_to_code.Common.{not, ◌&&◌, ◌||◌}
use test_specs_to_code.Model.{DeletionRequestEntity, OtpRequestEntity, is_active, is_pending}
use test_specs_to_code.Repositories.DeletionRequestRepository.{insert_deletion_request}
use test_specs_to_code.Repositories.OtpRequestRepository.{find_active_by_user_id}
use test_specs_to_code.Services.ActivationService.Activate.{
  activate-checks, activate-no_token, activate-no_user,
}
use test_specs_to_code.Services.OtpService.Verify.{
  verify_otp-checks, verify_otp-no_request, verify_otp-no_user,
}
use test_specs_to_code.Common.{Bool-cases}
use test_specs_to_code.Common.{arith, eq_iff, inl, inr, some, ◌==◌}
use test_specs_to_code.Repositories.OtpRequestRepository.{invalidate_otp}
use test_specs_to_code.Repositories.UserRepository.{set_status}
use test_specs_to_code.Common.{ℕ, String, Bool, true, false, ◌≡◌, refl}
use test_specs_to_code.Table.Lasting.{holds-other, Keeps-append, Keeps-update}
use test_specs_to_code.Model.{AccountStatus, UserEntity, Db, World, Crypto, Advances}
use test_specs_to_code.Repositories.UserRepository.{has_id, find_by_id, update_status, update_user}
use test_specs_to_code.Repositories.UserRepository.Laws.{find_by_id-id}
use test_specs_to_code.Repositories.TokenRepository
use test_specs_to_code.Repositories.TokenRepository.{find_by_token_value}
use test_specs_to_code.Repositories.OtpRequestRepository.{
  invalidate_active_by_user_id, create_otp_request,
}
use test_specs_to_code.System.Rules.{is_deleted}
use test_specs_to_code.System.Lifecycle.{
  Later, Later-order, Later-users, Later-codes, Later-tokens, Later-deletions,
}

-- The status of an account that is not deleted may change.
pub update_status-Later :
    (id : String) (status : AccountStatus) (at : ℕ) (db : Db) (u : UserEntity)
    → find_by_id id db ≡ some u
    → is_deleted u ≡ false
    → Later db (update_status id status at db)
unfolding update_status update_user find_by_id
update_status-Later id status at db u listed live = Later-users db _ (λ k h.
    elim (Bool-cases (k == id)) [
      | inl same ↦ absurd (ground (arith, eq_iff k id, listed, live))
      | inr apart ↦
          holds-other is_deleted (has_id k) (has_id id) (set_status status at) db.users (λ r. refl)
            (λ r hit gone. ground (arith, eq_iff r.id k, eq_iff r.id id, eq_iff k id)) h
    ])

pub invalidate_otp-Later : (id : String) (at : ℕ) (db : Db) → Later db (invalidate_otp id at db)
unfolding invalidate_otp
invalidate_otp-Later id at db =
    Later-codes db _ (Keeps-update _ _ _ _ db.otp_requests (λ k r. refl) (λ r h. refl))

pub mark_consumed-Later :
    (id : String) (at : ℕ) (db : Db) → Later db (TokenRepository.mark_consumed id at db)
unfolding TokenRepository.mark_consumed
mark_consumed-Later id at db =
    Later-tokens db _ (Keeps-update _ _ _ _ db.activation_tokens (λ k r. refl) (λ r h. refl))

pub sweep-Later :
    (user_id : String) (at : ℕ) (db : Db) → Later db (invalidate_active_by_user_id user_id at db)
unfolding invalidate_active_by_user_id
sweep-Later user_id at db =
    Later-codes db _ (Keeps-update _ _ _ _ db.otp_requests (λ k r. refl) (λ r h. refl))

pub new_code-Later : (row : OtpRequestEntity) (db : Db) → Later db (create_otp_request row db)
unfolding create_otp_request
new_code-Later row db = Later-codes db _ (Keeps-append _ _ row db.otp_requests)

pub new_deletion-Later :
    (row : DeletionRequestEntity) (db : Db) → Later db (insert_deletion_request row db)
unfolding insert_deletion_request
new_deletion-Later row db = Later-deletions db _ (Keeps-append _ _ row db.account_deletion_requests)

module _ (a : Db) where
  Later-if :
      {A : Type 0} (b : Bool) (x y : A × World)
      → (b ≡ true → Later a x.1.db)
      → (b ≡ false → Later a y.1.db)
      → Later a (if b then x else y).1.db
  Later-if true x y left right = left refl
  Later-if false x y left right = right refl

  Later-world :
      (b : Bool) (x y : World)
      → (b ≡ true → Later a x.db)
      → (b ≡ false → Later a y.db)
      → Later a (if b then x else y).db
  Later-world true x y left right = left refl
  Later-world false x y left right = right refl

pub activate-Later :
    (token_value : String) (now activated_at : ℕ)
    → Advances Later (activate token_value now activated_at)
unfolding find_by_id
activate-Later token_value now activated_at = record {
  at = λ w. elim (Option-cases (find_by_token_value token_value w.db)) [
    | inl missing ↦
        rw (activate-no_token token_value now activated_at w missing) (Later-order.reflexive w.db)
    | inr (t, found) ↦ elim (Option-cases (find_by_id t.user_id w.db)) [
      | inl missing ↦
          rw (activate-no_user token_value now activated_at w t found missing)
            (Later-order.reflexive w.db)
      | inr (u, listed) ↦ rw (activate-checks token_value now activated_at w t u found listed) (
          Later-world w.db (ltb t.expires_at now || (t.consumed || not (is_pending u.status))) _ _
            (λ refused. Later-order.reflexive w.db)
            (λ passed.
              let owner : find_by_id u.id w.db ≡ some u =
                cc (listed, (eq_iff u.id t.user_id).0 (find_by_id-id t.user_id w.db u listed)) in
              Later-order.transitive w.db
                (update_status u.id AccountStatus.active activated_at w.db) _
                (update_status-Later u.id AccountStatus.active activated_at w.db u owner
                  (ground arith))
                (mark_consumed-Later t.id activated_at _)))
    ]
  ];
}

module _ (crypto : Crypto) where
  pub verify_otp-Later :
      (user_id passcode : String) (checked_at activated_at : ℕ)
      → Advances Later (verify_otp crypto user_id passcode checked_at activated_at)
  verify_otp-Later user_id passcode checked_at activated_at = record {
    at = λ w. elim (Option-cases (find_by_id user_id w.db)) [
      | inl missing ↦
          rw (verify_otp-no_user crypto user_id passcode checked_at activated_at w missing)
            (Later-order.reflexive w.db)
      | inr (u, listed) ↦ elim (Option-cases (find_active_by_user_id user_id w.db)) [
        | inl missing ↦
            rw (verify_otp-no_request crypto user_id passcode checked_at activated_at w missing)
              (Later-order.reflexive w.db)
        | inr (r, open_code) ↦
            rw
              (verify_otp-checks crypto user_id passcode checked_at activated_at w u r listed
                open_code)
              (Later-if w.db (not (is_pending u.status) && not (is_active u.status)) _ _
                (λ refused. Later-order.reflexive w.db)
                (λ may.
                  Later-if w.db (ltb r.expires_at checked_at) _ _
                    (λ late. Later-order.reflexive w.db)
                    (λ early.
                      Later-if w.db (not (crypto.hash_code passcode == r.code_hash)) _ _
                        (λ wrong. Later-order.reflexive w.db)
                        (λ right.
                          Later-order.transitive w.db
                            (update_status user_id AccountStatus.active activated_at w.db) _
                            (update_status-Later user_id AccountStatus.active activated_at w.db u
                              listed (ground arith))
                            (invalidate_otp-Later r.id activated_at _)))))
      ]
    ];
  }
