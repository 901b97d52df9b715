-- ===== src/Validators/UsernameUniquenessValidator.antt =====
-- BACKEND/src/validators/username-uniqueness.validator.ts. `lower` is JavaScript's toLowerCase().
use test_specs_to_code.Common.{String, Option, none, some, ◌==◌, is_some, if◌then◌else◌}
use test_specs_to_code.Common.Text.{trim}
use test_specs_to_code.Model.{
  validation_error, username_conflict, Exec, World, throw, throw_if, query, ◌>>=◌,
}
use test_specs_to_code.Repositories.UserRepository.{find_by_normalised_username}

-- `trim().toLowerCase()`
abbrev pub normalise : (String → String) → String → String
normalise lower username = lower (trim username)

unfoldable pub check_uniqueness : (String → String) → Option String → Exec World Unit
check_uniqueness lower none = throw (validation_error "A username is required." "USERNAME_REQUIRED")
check_uniqueness lower (some username) =
    if trim username == ""
    then throw (validation_error "A username is required." "USERNAME_REQUIRED")
    else do
      existing ← query (find_by_normalised_username (normalise lower username))
      throw_if (is_some existing) (username_conflict (normalise lower username))
