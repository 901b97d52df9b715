-- ===== src/Services/RegistrationService/Register.antt =====
-- What a registration leaves behind, and when it is refused.
use test_specs_to_code.Common.{
  ℕ, String, ◌≡◌, refl, true, false, none, some, List, [], ◌∷◌, ◌==◌, Option-cases, if◌then◌else◌,
  arith, eq_refl, inl, inr,
}
use test_specs_to_code.Table.Laws.{select_first-append}
use test_specs_to_code.Model.{
  UserEntity, Exception, Constraint, constraint_failed, unique, username_conflict,
  account_not_active, Crypto, AcceptsOwnHash, World, ok, thrown,
}
use test_specs_to_code.Repositories.UserRepository.{
  has_id, has_email, has_normalised, find_by_id, find_by_email, find_by_normalised_username,
  user_violations, insert_user,
}
use test_specs_to_code.Validators.UsernameUniquenessValidator.{normalise, check_uniqueness}
use test_specs_to_code.Common.Text.{trim}
use test_specs_to_code.Services.LoginGuard.{LockoutConfig, check_lockout}
use test_specs_to_code.Services.AuthService.{LoginInputs, find_account, login}
use test_specs_to_code.Services.RegistrationService.{
  Registration, UserCreatedResult, pending_user, registered_message, is_username_conflict_error,
  register,
}

module _ (crypto : Crypto) (lower : String → String) (named : List Constraint → Constraint) where
  -- A registration whose username is not blank, and whose normalised username, email and id no row
  -- has when its INSERT runs, returns, if a password matches its own hash.
  -- The row that it leaves is found by the email and by the normalised username, has the id, the
  -- username and the email that were given, no failures, no lockout and a hash that the password
  -- matches; it is pending: a login with the email and the right password is refused as not active.
  -- The uniqueness check now refuses the username.
  pub register-pending :
      AcceptsOwnHash crypto
      → (lockout : LockoutConfig) (expiry_seconds : ℕ) (inputs : LoginInputs) (dto : Registration)
        (salt id : String) (now : ℕ) (w w' : World)
      → find_by_normalised_username (normalise lower dto.username) w.db ≡ none
      → find_by_email dto.email_address w.db ≡ none
      → find_by_id id w.db ≡ none
      → (trim dto.username == "") ≡ false
      → (register crypto lower named dto salt id now w).1 ≡ w'
      → ((register crypto lower named dto salt id now w).0
          ≡ ok (record { user_id = id; message = registered_message }))
        × ((u : UserEntity) × (find_by_email dto.email_address w'.db ≡ some u)
            × (find_by_normalised_username (normalise lower dto.username) w'.db ≡ some u)
            × (u.id ≡ id)
            × (u.username ≡ dto.username)
            × (u.email ≡ dto.email_address)
            × (u.failed_login_count ≡ 0)
            × (u.locked_until ≡ none)
            × (crypto.compare_password dto.password u.password_hash ≡ true))
        × (login crypto lockout expiry_seconds dto.email_address dto.password inputs w'
            ≡ (thrown (account_not_active "pending"), w'))
        × (check_uniqueness lower (some dto.username) w'
            ≡ (thrown (username_conflict (normalise lower dto.username)), w'))
  unfolding check_uniqueness register find_by_email find_by_id find_by_normalised_username
      user_violations insert_user login find_account check_lockout
  register-pending accepts lockout expiry_seconds inputs dto salt id now w w' unused free fresh
        named_well left =
      let row = pending_user lower dto id (crypto.hash_password salt dto.password) now in
      let by_email = select_first-append (has_email dto.email_address) row w.db.users in
      let by_name =
        select_first-append (has_normalised (normalise lower dto.username)) row w.db.users in
      let same_email = eq_refl dto.email_address in
      let same_name = eq_refl (normalise lower dto.username) in
      (
        ground arith,
        (
          row,
          ground (arith, same_email, by_email),
          ground (arith, same_name, by_name),
          refl,
          refl,
          refl,
          refl,
          refl,
          accepts salt dto.password,
        ),
        ground (arith, same_email, by_email),
        ground (arith, same_name, by_name),
      )

  -- The exception that a registration throws for the constraints that its row breaks.
  abbrev pub refusal : Registration → List Constraint → Exception
  refusal dto cs =
      if is_username_conflict_error named (constraint_failed cs)
      then username_conflict (normalise lower dto.username)
      else constraint_failed cs

  register-refused :
      (dto : Registration) (salt id : String) (now : ℕ) (w : World) (c : Constraint)
      (cs : List Constraint)
      → user_violations
          (pending_user lower dto id (crypto.hash_password salt dto.password) now)
          w.db
        ≡ c ∷ cs
      → register crypto lower named dto salt id now w ≡ (thrown (refusal dto (c ∷ cs)), w)
  unfolding register
  register-refused dto salt id now w c cs broken = ground arith

  pub register-find :
      (dto : Registration) (salt id : String) (now : ℕ) (w w' : World) (r : UserCreatedResult)
      → register crypto lower named dto salt id now w ≡ (ok r, w')
      → find_by_normalised_username (normalise lower dto.username) w'.db
        ≡ some (pending_user lower dto id (crypto.hash_password salt dto.password) now)
  unfolding register find_by_normalised_username user_violations insert_user
  register-find dto salt id now w w' r e =
      let row = pending_user lower dto id (crypto.hash_password salt dto.password) now in
      ground (
        arith,
        eq_refl (normalise lower dto.username),
        select_first-append (has_normalised (normalise lower dto.username)) row w.db.users,
      )

  pub register-answer :
      (dto : Registration) (salt id : String) (now : ℕ) (w w' : World) (r : UserCreatedResult)
      → register crypto lower named dto salt id now w ≡ (ok r, w')
      → (r ≡ record { user_id = id; message = registered_message })
        × (find_by_id id w'.db
            ≡ some (pending_user lower dto id (crypto.hash_password salt dto.password) now))
  unfolding register find_by_id user_violations insert_user
  register-answer dto salt id now w w' r e =
      let row = pending_user lower dto id (crypto.hash_password salt dto.password) now in
      (ground arith, ground (arith, eq_refl id, select_first-append (has_id id) row w.db.users))

  -- A registration that returned found the username unused.
  register-unused :
      (dto : Registration) (salt id : String) (now : ℕ) (w w' : World) (r : UserCreatedResult)
      → register crypto lower named dto salt id now w ≡ (ok r, w')
      → find_by_normalised_username (normalise lower dto.username) w.db ≡ none
  unfolding register find_by_normalised_username user_violations
  register-unused dto salt id now w w' r e =
      elim (Option-cases (find_by_normalised_username (normalise lower dto.username) w.db)) [
        | inl unused ↦ unused
        | inr (u, found) ↦ absurd (ground arith)
      ]

  unused-accepted :
      (dto : Registration) (w : World)
      → (trim dto.username == "") ≡ false
      → find_by_normalised_username (normalise lower dto.username) w.db ≡ none
      → check_uniqueness lower (some dto.username) w ≡ (ok tt, w)
  unfolding check_uniqueness
  unused-accepted dto w filled unused = ground arith

  -- Where only the username is taken, that is the only constraint that the row breaks.
  only_username :
      (row u : UserEntity) (w : World)
      → find_by_normalised_username row.username_normalised w.db ≡ some u
      → find_by_email row.email w.db ≡ none
      → find_by_id row.id w.db ≡ none
      → user_violations row w.db ≡ unique "users.username_normalised" ∷ []
  unfolding find_by_normalised_username find_by_email find_by_id user_violations
  only_username row u w taken free fresh = ground arith

  only_username-conflict :
      ((c : Constraint) → named (c ∷ []) ≡ c)
      → is_username_conflict_error named
          (constraint_failed (unique "users.username_normalised" ∷ []))
        ≡ true
  unfolding is_username_conflict_error
  only_username-conflict names = rw (names (unique "users.username_normalised")) refl

  -- Two registrations whose usernames are the same after trimming and lower-casing, which overlap
  -- in the wait for bcrypt: if the first INSERT has succeeded, the uniqueness check accepted the
  -- second username in the state before it, and the second INSERT, run in the state that the first
  -- left, throws the username conflict and writes nothing. The second email and id are taken to be
  -- free, the second username not to be blank, and SQLite to name the broken constraint where it is
  -- the only one.
  pub register-overlapping :
      (dto other : Registration) (salt salt' id id' : String) (now later : ℕ) (w w' : World)
      (r : UserCreatedResult)
      → ((c : Constraint) → named (c ∷ []) ≡ c)
      → register crypto lower named dto salt id now w ≡ (ok r, w')
      → normalise lower other.username ≡ normalise lower dto.username
      → (trim other.username == "") ≡ false
      → find_by_email other.email_address w'.db ≡ none
      → find_by_id id' w'.db ≡ none
      → (check_uniqueness lower (some other.username) w ≡ (ok tt, w))
        × (register crypto lower named other salt' id' later w'
            ≡ (thrown (username_conflict (normalise lower other.username)), w'))
  register-overlapping dto other salt salt' id id' now later w w' r names e same filled free fresh =
      let row = pending_user lower other id' (crypto.hash_password salt' other.password) later in
      let first = pending_user lower dto id (crypto.hash_password salt dto.password) now in
      let taken : find_by_normalised_username (normalise lower other.username) w'.db ≡ some first =
        cc (same, register-find dto salt id now w w' r e) in
      let broken = only_username row first w' taken free fresh in
      let thrown_as = register-refused other salt' id' later w' _ [] broken in
      (
        unused-accepted other w filled (rw same (register-unused dto salt id now w w' r e)),
        ground (arith, thrown_as, only_username-conflict names),
      )
