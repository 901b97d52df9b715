-- ===== src/Services/PasswordRecoveryService/Reset.antt =====
-- What a password reset leaves behind, that its token works once, and what its failures write.
use mathlib.Core.Option
use test_specs_to_code.Common.{
  ℕ, ◌≤◌, String, ◌≡◌, refl, true, false, some, ◌==◌, arith, eq_refl, eq_iff, ap, sym, ◌∙◌,
  if◌then◌else◌,
}
use test_specs_to_code.Table.Laws.{select_first-update}
use test_specs_to_code.Model.{
  UserEntity, PasswordRecoveryRequestEntity, Exception, Result, ok, thrown, Crypto, AcceptsOwnHash,
  World, >>=-eq-ok,
}
use test_specs_to_code.Repositories.UserRepository.{
  find_by_email, update_user, update_password_hash, set_password_hash,
}
use test_specs_to_code.Repositories.UserRepository.Laws.{find_by_email-update}
use test_specs_to_code.Repositories.PasswordRecoveryRequestRepository.{
  has_id, has_token, find_by_token, mark_consumed, consumed_request,
}
use test_specs_to_code.Repositories.SessionRepository.{
  invalidate_all_for_user, count_active_for_user,
}
use test_specs_to_code.Services.SessionService.Closing.{invalidate_all-count}
use test_specs_to_code.Services.PasswordRecoveryService.{check_reset, commit_reset, reset_password}
use test_specs_to_code.Validators.PasswordPolicy.{PasswordPolicy, evaluate}

module _ (crypto : Crypto) (policy : PasswordPolicy) where
  -- What the checks of a reset have established.
  pub record MayReset (token new_password : String) (now : ℕ) (w : World)
      (request : PasswordRecoveryRequestEntity) : Type 0 where
    pub listed : find_by_token token w.db ≡ some request
    pub unused : request.consumed ≡ false
    pub early : now ≤ request.expires_at
    pub accepted : (evaluate new_password policy).valid ≡ true

  check_reset-MayReset :
      (token new_password : String) (now : ℕ) (w w' : World)
      (request : PasswordRecoveryRequestEntity)
      → check_reset crypto policy token new_password now w ≡ (ok request, w')
      → (w' ≡ w) × MayReset token new_password now w request
  unfolding check_reset
  check_reset-MayReset token new_password now w w' request e = (
    ground arith,
    record {
      listed = ground arith;
      unused = ground arith;
      early = ground arith;
      accepted = ground arith;
    },
  )

  commit_reset-ok :
      (request : PasswordRecoveryRequestEntity) (hash : String) (now : ℕ) (w : World)
      → commit_reset request hash now w ≡ (
        ok tt,
        record w {
          db =
              invalidate_all_for_user request.user_id now
                (mark_consumed request.id now (update_password_hash request.user_id hash w.db));
        },
      )
  unfolding commit_reset
  commit_reset-ok request hash now w = refl

  -- The checks of a reset that went through, and the state that it left.
  reset_password-MayReset :
      (token new_password salt : String) (now : ℕ) (w w' : World)
      → reset_password crypto policy token new_password salt now w ≡ (ok tt, w')
      → (request : PasswordRecoveryRequestEntity) × MayReset token new_password now w request
        × (w' ≡ (commit_reset request (crypto.hash_password salt new_password) now w).1)
  unfolding reset_password
  reset_password-MayReset token new_password salt now w w' e =
      let (request, v, checked, rest) =
        >>=-eq-ok (check_reset crypto policy token new_password now)
          (λ request. commit_reset request (crypto.hash_password salt new_password) now) w w' tt
          e in
      let (same, may) = check_reset-MayReset token new_password now w v request checked in
      (request, may, ground arith)

  find_by_token-commit :
      (request : PasswordRecoveryRequestEntity) (token hash : String) (now : ℕ) (w : World)
      → find_by_token token (commit_reset request hash now w).1.db
        ≡ Option.map
            (λ r. if r.id == request.id then consumed_request now r else r)
            (find_by_token token w.db)
  unfolding find_by_token commit_reset mark_consumed update_password_hash update_user
      invalidate_all_for_user
  find_by_token-commit request token hash now w =
      select_first-update (has_token token) (has_id request.id) (consumed_request now)
        w.db.password_recovery_requests (λ r. refl)

  -- A reset leaves its request consumed.
  pub reset_password-consumed :
      (token new_password salt : String) (now : ℕ) (w w' : World)
      → reset_password crypto policy token new_password salt now w ≡ (ok tt, w')
      → (request : PasswordRecoveryRequestEntity) × (find_by_token token w'.db
          ≡ some (consumed_request now request))
  reset_password-consumed token new_password salt now w w' e =
      let (request, may, same) = reset_password-MayReset token new_password salt now w w' e in
      let hash = crypto.hash_password salt new_password in
      (
        request,
        rw same (
            ground (
              arith,
              eq_refl request.id,
              find_by_token-commit request token hash now w,
              may.listed,
            )),
      )

  -- A reset that is refused, for whatever reason, has written nothing.
  pub reset_password-thrown :
      (token new_password salt : String) (now : ℕ) (w w' : World) (x : Exception)
      → reset_password crypto policy token new_password salt now w ≡ (thrown x, w')
      → w' ≡ w
  unfolding reset_password check_reset commit_reset
  reset_password-thrown token new_password salt now w w' x e = ground arith

  count-commit :
      (request : PasswordRecoveryRequestEntity) (hash : String) (now at : ℕ) (w : World)
      → count_active_for_user request.user_id at (commit_reset request hash now w).1.db ≡ 0
  unfolding commit_reset
  count-commit request hash now at w = invalidate_all-count request.user_id now at (record w {
    db = mark_consumed request.id now (update_password_hash request.user_id hash w.db);
  })

  find_by_email-commit :
      (request : PasswordRecoveryRequestEntity) (email hash : String) (now : ℕ) (w : World)
      → find_by_email email (commit_reset request hash now w).1.db
        ≡ find_by_email email (update_password_hash request.user_id hash w.db)
  unfolding find_by_email commit_reset mark_consumed update_password_hash update_user
      invalidate_all_for_user
  find_by_email-commit request email hash now w = refl

  -- A reset that returned was made with a token on file that was neither used nor expired and a
  -- password that the policy accepts. It closes all sessions of the token's account, at whatever
  -- time they are counted, and the account, looked up by its email, has a hash that the new
  -- password matches, and the status it had.
  pub reset_password-effect :
      AcceptsOwnHash crypto
      → (token new_password salt email : String) (now at : ℕ) (w w' : World)
        (request : PasswordRecoveryRequestEntity) (u : UserEntity)
      → reset_password crypto policy token new_password salt now w ≡ (ok tt, w')
      → find_by_token token w.db ≡ some request
      → find_by_email email w.db ≡ some u
      → u.id ≡ request.user_id
      → MayReset token new_password now w request
        × (count_active_for_user request.user_id at w'.db ≡ 0)
        × (v : UserEntity) × (find_by_email email w'.db ≡ some v)
        × (crypto.compare_password new_password v.password_hash ≡ true)
        × (v.status ≡ u.status)
  unfolding update_password_hash
  reset_password-effect accepts token new_password salt email now at w w' request u e on_file listed
        owner =
      let (checked, may, same) = reset_password-MayReset token new_password salt now w w' e in
      let is_request : checked ≡ request = cc (may.listed, on_file) in
      let hash = crypto.hash_password salt new_password in
      let left : w' ≡ (commit_reset request hash now w).1 =
        same ∙ ap (λ r. (commit_reset r hash now w).1) is_request in
      (
        record {
          listed = on_file;
          unused = cc (may.unused, is_request);
          early = rw (sym is_request) (may.early);
          accepted = may.accepted;
        },
        rw left (count-commit request hash now at w),
        set_password_hash hash u,
        ground (
          arith,
          left,
          eq_iff u.id request.user_id,
          find_by_email-commit request email hash now w,
          find_by_email-update email request.user_id (set_password_hash hash) w.db (λ r. refl),
        ),
        accepts salt new_password,
        refl,
      )

  -- Two resets with one token that overlap, each having passed its checks before the other commits,
  -- both return, and the account keeps the later password.
  pub overlapping_resets :
      (token first second salt salt' email : String) (now now' : ℕ) (w : World)
      (request : PasswordRecoveryRequestEntity) (u : UserEntity)
      → check_reset crypto policy token first now w ≡ (ok request, w)
      → check_reset crypto policy token second now' w ≡ (ok request, w)
      → find_by_email email w.db ≡ some u
      → u.id ≡ request.user_id
      → (let w₁ = commit_reset request (crypto.hash_password salt first) now w in
          let w₂ = commit_reset request (crypto.hash_password salt' second) now' w₁.1 in
          (w₁.0 ≡ ok tt)
          × (w₂.0 ≡ ok tt)
          × (find_by_email email w₁.1.db
              ≡ some (set_password_hash (crypto.hash_password salt first) u))
          × (find_by_email email w₂.1.db
              ≡ some (set_password_hash (crypto.hash_password salt' second) u)))
  unfolding update_password_hash
  overlapping_resets token first second salt salt' email now now' w request u checked checked'
        listed owner =
      let hash = crypto.hash_password salt first in
      let hash' = crypto.hash_password salt' second in
      let w₁ = (commit_reset request hash now w).1 in
      let after_first : find_by_email email w₁.db ≡ some (set_password_hash hash u) = ground (
        arith,
        eq_iff u.id request.user_id,
        find_by_email-commit request email hash now w,
        find_by_email-update email request.user_id (set_password_hash hash) w.db (λ r. refl),
      ) in
      (
        ap (λ (o : Result Unit × World). o.0) (commit_reset-ok request hash now w),
        ap (λ (o : Result Unit × World). o.0) (commit_reset-ok request hash' now' w₁),
        after_first,
        ground (
          arith,
          eq_iff u.id request.user_id,
          find_by_email-commit request email hash' now' w₁,
          find_by_email-update email request.user_id (set_password_hash hash') w₁.db (λ r. refl),
        ),
      )
