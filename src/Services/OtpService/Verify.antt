-- ===== src/Services/OtpService/Verify.antt =====
-- Verifying a code: which one is accepted after an issue, what that changes, and that it works
-- once.
use test_specs_to_code.Common.{
  ℕ, ◌+◌, ◌*◌, String, ◌≡◌, refl, not, ◌&&◌, none, some, ◌==◌, arith, ◌∙◌, eq_refl, ltb,
  if◌then◌else◌, Option-cases, inl, inr,
}
use test_specs_to_code.Table.Laws.{select_first-none_iff, count_where-update-lt}
use test_specs_to_code.Model.{
  AccountStatus, UserEntity, OtpRequestEntity, is_active, is_pending, Exception, ok, thrown,
  otp_not_found, otp_expired, otp_invalid, Crypto, World, Db,
}
use test_specs_to_code.Repositories.UserRepository.{
  find_by_id, update_user, update_status, set_status,
}
use test_specs_to_code.Repositories.UserRepository.Laws.{
  find_by_id-update, find_by_id-id, find_by_id-users,
}
use test_specs_to_code.Repositories.OtpRequestRepository.{
  has_id, is_active_for, invalidated_otp, find_active_by_user_id, invalidate_otp,
}
use test_specs_to_code.Services.RateLimitGuard.{RateLimitGuard}
use test_specs_to_code.Services.OtpService.{
  OtpConfig, OtpState, OtpInputs, OtpVerifyResult, issue_otp, verify_otp,
}
use test_specs_to_code.Services.OtpService.Issue.{AtMostOneActive, MayReceive, issue_otp-ok}

-- Closing the one active code of an account leaves it none.
find_active-invalidate :
    (user_id : String) (at : ℕ) (db : Db) (r : OtpRequestEntity)
    → AtMostOneActive db
    → find_active_by_user_id user_id db ≡ some r
    → find_active_by_user_id user_id (invalidate_otp r.id at db) ≡ none
unfolding find_active_by_user_id invalidate_otp
find_active-invalidate user_id at db r inv found =
    (select_first-none_iff (is_active_for user_id) _).1 (
      omega (
        arith,
        inv user_id,
        count_where-update-lt (is_active_for user_id) (has_id r.id) (invalidated_otp at)
            db.otp_requests r (λ x h. ground arith) found (eq_refl r.id) (ground arith),
      ))

module _ (crypto : Crypto) (config : OtpConfig) where
  -- After an issue that could be sent, a passcode is accepted, up to the expiry of the new code,
  -- exactly if its hash is the new code's: any other, a former code included, is answered that it
  -- is invalid. After the expiry every passcode is answered that the code has expired.
  pub issue_otp-verify :
      {K : Type 0} (guard : RateLimitGuard K) (user_id passcode : String) (inputs : OtpInputs)
      (s : OtpState K) (user : UserEntity) (checked_at activated_at : ℕ)
      → MayReceive crypto config guard user_id inputs s user
      → (verify_otp crypto user_id passcode checked_at activated_at
          (issue_otp crypto config guard user_id inputs s).1.world).0
        ≡ (if ltb (inputs.created_at + config.otp_ttl_minutes * 60 * 1000) checked_at
            then thrown (otp_expired user_id)
            else if crypto.hash_code passcode == crypto.hash_code inputs.code
            then ok (record { user_id = user_id; activated_at = activated_at })
            else thrown (otp_invalid user_id))
  unfolding verify_otp
  issue_otp-verify guard user_id passcode inputs s user checked_at activated_at may =
      let (n, answer, found, same) = issue_otp-ok crypto config guard user_id inputs s user may in
      ground (
        arith,
        find_by_id-users user_id s.world.db
            (issue_otp crypto config guard user_id inputs s).1.world.db same,
        found,
        may.listed,
        may.status,
      )

-- What a verification that returned has established, and the state that it left.
record Verified (user_id : String) (activated_at : ℕ) (w w' : World) : Type 0 where
  user : UserEntity
  request : OtpRequestEntity
  listed : find_by_id user_id w.db ≡ some user
  active : find_active_by_user_id user_id w.db ≡ some request
  state : w' ≡ record w {
    db =
        invalidate_otp request.id activated_at
          (update_status user_id AccountStatus.active activated_at w.db);
  }

-- The user row that a verification leaves.
find_by_id-verified :
    (user_id id : String) (at : ℕ) (db : Db) (u : UserEntity)
    → find_by_id user_id db ≡ some u
    → find_by_id user_id (invalidate_otp id at (update_status user_id AccountStatus.active at db))
      ≡ some (set_status AccountStatus.active at u)
unfolding invalidate_otp update_status
find_by_id-verified user_id id at db u listed =
    let users = update_status user_id AccountStatus.active at db in
    find_by_id-users user_id users (invalidate_otp id at users) refl
    ∙ ground (
      arith,
      listed,
      find_by_id-id user_id db u listed,
      find_by_id-update user_id user_id (set_status AccountStatus.active at) db (λ r. refl),
    )

find_active-verified :
    (user_id : String) (at : ℕ) (db : Db) (r : OtpRequestEntity)
    → AtMostOneActive db
    → find_active_by_user_id user_id db ≡ some r
    → find_active_by_user_id user_id
        (invalidate_otp r.id at (update_status user_id AccountStatus.active at db))
      ≡ none
unfolding update_status update_user find_active_by_user_id
find_active-verified user_id at db r inv found =
    find_active-invalidate user_id at (update_status user_id AccountStatus.active at db) r inv found

module _ (crypto : Crypto) where
  -- The branches of a verification whose lookups are known.
  pub verify_otp-checks :
      (user_id passcode : String) (checked_at activated_at : ℕ) (w : World) (user : UserEntity)
      (request : OtpRequestEntity)
      → find_by_id user_id w.db ≡ some user
      → find_active_by_user_id user_id w.db ≡ some request
      → verify_otp crypto user_id passcode checked_at activated_at w ≡ (
          if not (is_pending user.status) && not (is_active user.status)
          then (thrown (otp_not_found user_id), w)
          else if ltb request.expires_at checked_at
          then (thrown (otp_expired user_id), w)
          else if not (crypto.hash_code passcode == request.code_hash)
          then (thrown (otp_invalid user_id), w)
          else (
            ok (record { user_id = user_id; activated_at = activated_at }),
            record w {
              db =
                  invalidate_otp request.id activated_at
                    (update_status user_id AccountStatus.active activated_at w.db);
            },
          ))
  unfolding verify_otp
  verify_otp-checks user_id passcode checked_at activated_at w user request listed active =
      ground arith

  pub verify_otp-no_user :
      (user_id passcode : String) (checked_at activated_at : ℕ) (w : World)
      → find_by_id user_id w.db ≡ none
      → verify_otp crypto user_id passcode checked_at activated_at w
        ≡ (thrown (otp_not_found user_id), w)
  unfolding verify_otp
  verify_otp-no_user user_id passcode checked_at activated_at w missing = ground arith

  pub verify_otp-no_request :
      (user_id passcode : String) (checked_at activated_at : ℕ) (w : World)
      → find_active_by_user_id user_id w.db ≡ none
      → verify_otp crypto user_id passcode checked_at activated_at w
        ≡ (thrown (otp_not_found user_id), w)
  unfolding verify_otp
  verify_otp-no_request user_id passcode checked_at activated_at w missing = ground arith

  verify_otp-Verified :
      (user_id passcode : String) (checked_at activated_at : ℕ) (w w' : World) (r : OtpVerifyResult)
      → verify_otp crypto user_id passcode checked_at activated_at w ≡ (ok r, w')
      → Verified user_id activated_at w w'
  verify_otp-Verified user_id passcode checked_at activated_at w w' r e =
      elim (Option-cases (find_by_id user_id w.db)) [
        | inl missing ↦
            absurd (cc (e, verify_otp-no_user user_id passcode checked_at activated_at w missing))
        | inr (user, listed) ↦ elim (Option-cases (find_active_by_user_id user_id w.db)) [
          | inl missing ↦
              absurd
                (cc (e, verify_otp-no_request user_id passcode checked_at activated_at w missing))
          | inr (request, active) ↦ record {
            user = user;
            request = request;
            listed = listed;
            active = active;
            state = ground (
              arith,
              verify_otp-checks user_id passcode checked_at activated_at w user request listed
                  active,
            );
          }
        ]
      ]

  -- A verification that returned makes the account active, and its code cannot be used again: a
  -- further verification finds no code, whatever the passcode, and writes nothing.
  pub verify_otp-once :
      (user_id passcode : String) (checked_at activated_at : ℕ) (w w' : World) (r : OtpVerifyResult)
      → AtMostOneActive w.db
      → verify_otp crypto user_id passcode checked_at activated_at w ≡ (ok r, w')
      → (passcode' : String) (checked_at' activated_at' : ℕ)
      → (u : UserEntity) × (find_by_id user_id w'.db ≡ some u)
        × (u.status ≡ AccountStatus.active)
        × (verify_otp crypto user_id passcode' checked_at' activated_at' w'
            ≡ (thrown (otp_not_found user_id), w'))
  verify_otp-once user_id passcode checked_at activated_at w w' r inv e passcode' checked_at'
        activated_at' =
      let v = verify_otp-Verified user_id passcode checked_at activated_at w w' r e in
      let row : find_by_id user_id w'.db
          ≡ some (set_status AccountStatus.active activated_at v.user) =
        rw (v.state) (find_by_id-verified user_id v.request.id activated_at w.db v.user v.listed) in
      let gone : find_active_by_user_id user_id w'.db ≡ none =
        rw (v.state) (find_active-verified user_id activated_at w.db v.request inv v.active) in
      (
        set_status AccountStatus.active activated_at v.user,
        row,
        refl,
        verify_otp-no_request user_id passcode' checked_at' activated_at' w' gone,
      )

  -- A verification that is refused, for whatever reason, has written nothing.
  pub verify_otp-thrown :
      (user_id passcode : String) (checked_at activated_at : ℕ) (w w' : World) (x : Exception)
      → verify_otp crypto user_id passcode checked_at activated_at w ≡ (thrown x, w')
      → w' ≡ w
  unfolding verify_otp
  verify_otp-thrown user_id passcode checked_at activated_at w w' x e = ground arith
