-- ===== src/Services/AuthService/Outcomes.antt =====
-- When a login succeeds, what it leaves behind, and what its failures say.
use test_specs_to_code.Common.{
  ℕ, ◌<◌, ◌≤◌, String, ◌≡◌, refl, Bool, true, false, none, some, arith, Option-cases, inl, inr,
}
use test_specs_to_code.Model.{
  UserEntity, is_active, ok, thrown, invalid_credentials, account_locked, Crypto, World, >>=-eq-ok,
}
use test_specs_to_code.Repositories.UserRepository.{
  find_by_email, reset_failed_login_count, update_last_login_at,
}
use test_specs_to_code.Repositories.SessionRepository.{new_session, find_by_token_hash}
use test_specs_to_code.Services.LoginGuard.{LockoutConfig, check_lockout, register_failure}
use test_specs_to_code.Services.SessionService.{LoginResult, create_session}
use test_specs_to_code.Services.SessionService.Lifecycle.{create_session-find}
use test_specs_to_code.Services.AuthService.{LoginInputs, find_account, finish_login, login}

-- The account may log in at this time: it is active and no lockout is running.
pub record MayLogIn (user : UserEntity) (now : ℕ) : Type 0 where
  pub active : is_active user.status ≡ true
  pub unlocked : (until : ℕ) → user.locked_until ≡ some until → until ≤ now

module _ (crypto : Crypto) (lockout : LockoutConfig) (expiry_seconds : ℕ) where
  -- What a successful login shows: an account with that email that may log in, whose stored hash
  -- the password matches, and an open session of that account under the hash of the token that is
  -- handed out.
  pub record LoggedIn (email password : String) (inputs : LoginInputs) (w w' : World)
      (r : LoginResult) : Type 0 where
    pub user : UserEntity
    pub listed : find_by_email email w.db ≡ some user
    pub may : MayLogIn user inputs.checked_at
    pub matches : crypto.compare_password password user.password_hash ≡ true
    pub token : r.token ≡ inputs.raw_token
    pub session :
        find_by_token_hash (crypto.hash_token inputs.raw_token) w'.db
        ≡ some (
            new_session inputs.session_id user.id
              (crypto.hash_token inputs.raw_token)
              inputs.created_at
              r.expires_at)

  find_account-MayLogIn :
      (email : String) (now : ℕ) (w w' : World) (user : UserEntity)
      → find_account email now w ≡ (ok user, w')
      → (w' ≡ w) × (find_by_email email w.db ≡ some user) × MayLogIn user now
  unfolding find_account check_lockout
  find_account-MayLogIn email now w w' user e = (
    ground arith,
    ground arith,
    record { active = ground arith; unlocked = λ until h. ground arith },
  )

  finish_login-ok :
      (user : UserEntity) (matches : Bool) (inputs : LoginInputs) (w w' : World) (r : LoginResult)
      → finish_login crypto lockout expiry_seconds user matches inputs w ≡ (ok r, w')
      → (matches ≡ true)
        × (create_session crypto expiry_seconds user.id inputs.raw_token inputs.session_id
              inputs.created_at
              (record w {
                db =
                    update_last_login_at user.id inputs.logged_in_at
                      (reset_failed_login_count user.id w.db);
              })
            ≡ (ok r, w'))
  unfolding finish_login register_failure
  finish_login-ok user true inputs w w' r e = (refl, ground arith)
  finish_login-ok user false inputs w w' r e = ground arith

  token-create_session :
      (user_id raw_token id : String) (created_at : ℕ) (w w' : World) (r : LoginResult)
      → create_session crypto expiry_seconds user_id raw_token id created_at w ≡ (ok r, w')
      → r.token ≡ raw_token
  unfolding create_session
  token-create_session user_id raw_token id created_at w w' r e = ground arith

  -- A login that returns was made with the right password for an account that may log in, and it
  -- leaves an open session of that account under the hash of the token that it returns.
  pub login-LoggedIn :
      (email password : String) (inputs : LoginInputs) (w w' : World) (r : LoginResult)
      → login crypto lockout expiry_seconds email password inputs w ≡ (ok r, w')
      → LoggedIn email password inputs w w' r
  unfolding login
  login-LoggedIn email password inputs w w' r e =
      let (user, v, looked_up, rest) =
        >>=-eq-ok (find_account email inputs.checked_at)
          (λ user.
            finish_login crypto lockout expiry_seconds user
              (crypto.compare_password password user.password_hash) inputs)
          w w' r e in
      let (same, listed, may) = find_account-MayLogIn email inputs.checked_at w v user looked_up in
      let (matches, made) =
        finish_login-ok user (crypto.compare_password password user.password_hash) inputs v w' r
          rest in
      let token =
        token-create_session user.id inputs.raw_token inputs.session_id inputs.created_at _ w' r
          made in
      record {
        user = user;
        listed = listed;
        may = may;
        matches = matches;
        token = token;
        session =
            create_session-find crypto expiry_seconds user.id inputs.raw_token inputs.session_id
              inputs.created_at _ w' r made;
      }

  -- An unknown email and, for an account that may log in (it is active and no lockout is running),
  -- a wrong password are answered by the same exception; for the unknown email nothing is written.
  pub login_uniform :
      (unknown email password : String) (inputs : LoginInputs) (w : World) (user : UserEntity)
      → find_by_email unknown w.db ≡ none
      → find_by_email email w.db ≡ some user
      → MayLogIn user inputs.checked_at
      → crypto.compare_password password user.password_hash ≡ false
      → (login crypto lockout expiry_seconds unknown password inputs w
          ≡ (thrown invalid_credentials, w))
        × ((login crypto lockout expiry_seconds email password inputs w).0
            ≡ thrown invalid_credentials)
  unfolding login find_account finish_login check_lockout register_failure
  login_uniform unknown email password inputs w user absent listed may wrong = (
    ground arith,
    elim (Option-cases user.locked_until) [
      | inl free ↦ ground (arith, may.active)
      | inr (until, locked) ↦ ground (arith, may.active, may.unlocked until locked)
    ],
  )

  -- While a lockout runs every login is refused with the time at which it ends, also one with the
  -- right password, and nothing is written.
  pub login-locked :
      (email password : String) (inputs : LoginInputs) (w : World) (user : UserEntity) (until : ℕ)
      → find_by_email email w.db ≡ some user
      → user.locked_until ≡ some until
      → inputs.checked_at < until
      → login crypto lockout expiry_seconds email password inputs w
        ≡ (thrown (account_locked until), w)
  unfolding login find_account check_lockout
  login-locked email password inputs w user until listed locked early = ground arith
