-- ===== src/Services/UserProfileService.antt =====
-- BACKEND/src/services/user-profile.service.ts
use test_specs_to_code.Common.{ℕ, String, Option}
use test_specs_to_code.Model.{
  AccountStatus, user_not_found, Exec, World, pure, require, query, ◌>>=◌,
}
use test_specs_to_code.Repositories.UserRepository.{find_by_id}
use test_specs_to_code.Repositories.SessionRepository.{count_active_for_user}

-- BACKEND/src/types/user-profile.types.ts
pub record UserProfileResult : Type 0 where
  pub username : String
  pub email : String
  pub status : AccountStatus
  pub registration_timestamp : ℕ
  pub last_login_at : Option ℕ
  pub active_sessions : ℕ

unfoldable pub get_profile : String → ℕ → Exec World UserProfileResult
get_profile user_id now = do
  found ← query (find_by_id user_id)
  user ← require found (user_not_found user_id)
  active_sessions ← query (count_active_for_user user_id now)
  pure (record {
    username = user.username;
    email = user.email;
    status = user.status;
    registration_timestamp = user.registration_timestamp;
    last_login_at = user.last_login_at;
    active_sessions = active_sessions;
  })
