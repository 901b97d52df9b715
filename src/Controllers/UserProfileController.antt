-- ===== src/Controllers/UserProfileController.antt =====
-- BACKEND/src/controllers/user-profile.controller.ts
use test_specs_to_code.Common.{ℕ, String, Option, none, some, [], ◌∷◌}
use test_specs_to_code.Model.{Exception, user_not_found, status_text, message, Exec, World}
use test_specs_to_code.Http.{
  Value, str, num, null, Response, response, error_response, coded_response, respond,
}
use test_specs_to_code.Services.UserProfileService.{UserProfileResult, get_profile}

abbrev pub date_or_null : (ℕ → String) → Option ℕ → Value
date_or_null iso none = null
date_or_null iso (some t) = str (iso t)

abbrev pub profile_response : (ℕ → String) → UserProfileResult → Response
profile_response iso p = response 200 (
    ("username", str p.username)
    ∷ ("email", str p.email)
    ∷ ("status", str (status_text p.status))
    ∷ ("registrationTimestamp", str (iso p.registration_timestamp))
    ∷ ("lastLoginAt", date_or_null iso p.last_login_at)
    ∷ ("activeSessions", num p.active_sessions)
    ∷ [])

unfoldable pub profile_error : Exception → Response
profile_error (user_not_found user_id) =
    coded_response 404 "error_code" "USER_NOT_FOUND" (message (user_not_found user_id))
profile_error _ = error_response 500 "An unexpected error occurred."

-- GET /api/v1/users/me
unfoldable pub get_me : (ℕ → String) → String → ℕ → Exec World Response
unfolding profile_error
get_me iso user_id now = respond (get_profile user_id now) (profile_response iso) profile_error
