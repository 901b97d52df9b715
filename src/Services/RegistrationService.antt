-- ===== src/Services/RegistrationService.antt =====
-- BACKEND/src/services/registration.service.ts. `lower` is JavaScript's toLowerCase(), and `named`
-- picks the constraint that SQLite's message names, of those that the row breaks. `register` awaits
-- bcrypt.hash before it reads or writes, so the state it is given is the one after the wait.
pub mod Register
use test_specs_to_code.Common.{ℕ, String, Bool, true, false, none, some, List, ◌==◌, if◌then◌else◌}
use test_specs_to_code.Model.{
  AccountStatus, UserEntity, Exception, Constraint, unique, foreign_key, constraint_failed,
  username_conflict, Crypto, Exec, World, ok, thrown, insert, with_transaction,
}
use test_specs_to_code.Repositories.UserRepository.{insert_user, user_violations}
use test_specs_to_code.Validators.UsernameUniquenessValidator.{normalise}

-- The fields of RegistrationRequestDto that the service reads.
pub record Registration : Type 0 where
  pub username : String
  pub email_address : String
  pub password : String

pub record UserCreatedResult : Type 0 where
  pub user_id : String
  pub message : String

-- The row that `register` inserts; the columns that it does not name have their defaults.
abbrev pub pending_user : (String → String) → Registration → String → String → ℕ → UserEntity
pending_user lower dto id password_hash now = record {
  id = id;
  username = dto.username;
  username_normalised = normalise lower dto.username;
  email = dto.email_address;
  password_hash = password_hash;
  status = AccountStatus.pending;
  registration_timestamp = now;
  activated_at = none;
  failed_login_count = 0;
  locked_until = none;
  last_login_at = none;
  deleted_at = none;
}

-- The message names `users.username_normalised`.
abbrev pub is_username_index : Constraint → Bool
is_username_index (unique column) = column == "users.username_normalised"
is_username_index foreign_key = false

unfoldable pub is_username_conflict_error : (List Constraint → Constraint) → Exception → Bool
is_username_conflict_error named (constraint_failed cs) = is_username_index (named cs)
is_username_conflict_error named _ = false

-- catch (err)
abbrev pub on_conflict :
    {A : Type 0} → (List Constraint → Constraint) → String → Exec World A → Exec World A
on_conflict named normalised m w =
    let (r, w') = m w in
    elim r [
      | ok a ↦ (ok a, w')
      | thrown e ↦
          if is_username_conflict_error named e
          then (thrown (username_conflict normalised), w')
          else (thrown e, w')
    ]

abbrev pub registered_message : String
registered_message =
    "Registration successful. Please check your email for the verification code to activate your account."

-- `salt` is what bcrypt drew and `id` the row's uuid.
unfoldable pub register :
    Crypto
    → (String → String)
    → (List Constraint → Constraint)
    → Registration
    → String
    → String
    → ℕ
    → Exec World UserCreatedResult
register crypto lower named dto salt id now w =
    let row = pending_user lower dto id (crypto.hash_password salt dto.password) now in
    let (r, w') =
      on_conflict named (normalise lower dto.username)
        (with_transaction (insert (user_violations row) (insert_user row))) w in
    elim r [
      | ok done ↦ (ok (record { user_id = id; message = registered_message }), w')
      | thrown e ↦ (thrown e, w')
    ]
