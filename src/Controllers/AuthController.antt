-- ===== src/Controllers/AuthController.antt =====
-- BACKEND/src/controllers/auth.controller.ts. `iso` is Date's toISOString().
use test_specs_to_code.Common.{ℕ, String, Option, none, some, [], ◌∷◌, ◌==◌, if◌then◌else◌}
use test_specs_to_code.Common.Text.{trim}
use test_specs_to_code.Model.{
  Exception, invalid_credentials, account_not_active, account_locked, session_creation_failed,
  message, Crypto, Exec, World, pure, ◌>>◌,
}
use test_specs_to_code.Http.{
  Field, filled, nonempty, str, Response, response, error_response, coded_response, respond,
}
use test_specs_to_code.Middleware.{after_prefix, bearer_prefix}
use test_specs_to_code.Services.LoginGuard.{LockoutConfig}
use test_specs_to_code.Services.SessionService.{LoginResult, invalidate_session}
use test_specs_to_code.Services.AuthService.{LoginInputs, login}

module _ (iso : ℕ → String) where
  abbrev pub login_response : LoginResult → Response
  login_response r =
      response 200 (("token", str r.token) ∷ ("expires_at", str (iso r.expires_at)) ∷ [])

  unfoldable pub login_error : Exception → Response
  login_error invalid_credentials =
      coded_response 401 "error_code" "AUTH_INVALID_CREDENTIALS" (message invalid_credentials)
  login_error (account_not_active status) =
      coded_response 403 "error_code" "AUTH_ACCOUNT_NOT_ACTIVE"
        (message (account_not_active status))
  login_error (account_locked retry_after) = response 423 (
      ("error_code", str "AUTH_ACCOUNT_LOCKED")
      ∷ ("message", str (message (account_locked retry_after)))
      ∷ ("retry_after", str (iso retry_after))
      ∷ [])
  login_error session_creation_failed =
      coded_response 500 "error_code" "SESSION_CREATION_FAILED" (message session_creation_failed)
  login_error _ = error_response 500 "An unexpected error occurred during login."

  -- POST /api/v1/auth/login
  unfoldable pub post_login :
      Crypto → LockoutConfig → ℕ → Field → Field → LoginInputs → Exec World Response
  unfolding filled nonempty login_error
  post_login crypto lockout expiry_seconds email password inputs = elim (filled email) [
    | none ↦ pure (error_response 400 "email is required.")
    | some e ↦ elim (nonempty password) [
      | none ↦ pure (error_response 400 "password is required.")
      | some p ↦
          respond (login crypto lockout expiry_seconds (trim e) p inputs) login_response login_error
    ]
  ]

-- The end of `logout`, once the header is read.
unfoldable pub logout_token : Crypto → String → ℕ → ℕ → Exec World Response
logout_token crypto raw_token now closed_at =
    if raw_token == "" then pure (error_response 401 "Bearer token is required.") else do
      invalidate_session crypto raw_token now closed_at
      pure (response 200 (("message", str "Logged out.") ∷ []))

-- POST /api/v1/auth/logout
unfoldable pub post_logout : Crypto → Option String → ℕ → ℕ → Exec World Response
unfolding logout_token
post_logout crypto none now closed_at =
    pure (error_response 401 "Authorization header is required.")
post_logout crypto (some authorization) now closed_at =
    if authorization == ""
    then pure (error_response 401 "Authorization header is required.")
    else elim (after_prefix bearer_prefix authorization) [
      | none ↦ pure (error_response 401 "Authorization header must use Bearer scheme.")
      | some rest ↦ logout_token crypto (trim rest) now closed_at
    ]
