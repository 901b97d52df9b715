-- ===== src/Middleware/ErrorHandler.antt =====
-- The error handler of BACKEND/src/app.ts. `iso` is Date's toISOString().
pub mod Agreement
use test_specs_to_code.Common.{if◌then◌else◌}
use test_specs_to_code.Model.{
  account_locked, account_not_active, account_not_pending, deletion_request_already_pending,
  deletion_request_not_found, duplicate_dispatch, invalid_credentials, password_policy_violation,
  session_creation_failed, session_expired, session_invalidated, session_not_found, token_consumed,
  token_expired, token_not_found, user_not_found, username_conflict, validation_error,
}
use test_specs_to_code.Common.{ℕ, String, Bool, true, false, Option, none, some, [], ◌∷◌}
use test_specs_to_code.Model.{Exception, message}
use test_specs_to_code.Http.{Response, str, strs, response, error_response, coded_response}

-- { errorCode, message }
abbrev pub translated : ℕ → String → Exception → Response
translated status code e = coded_response status "errorCode" code (message e)

module _ (iso : ℕ → String) where
  unfoldable pub translation : Exception → Response
  translation (validation_error text code) = translated 422 code (validation_error text code)
  translation (username_conflict username) =
      translated 409 "USERNAME_CONFLICT" (username_conflict username)
  translation token_not_found = translated 404 "TOKEN_NOT_FOUND" token_not_found
  translation token_expired = translated 410 "TOKEN_EXPIRED" token_expired
  translation token_consumed = translated 410 "TOKEN_CONSUMED" token_consumed
  translation (account_not_pending status) =
      translated 409 "ACCOUNT_NOT_PENDING" (account_not_pending status)
  translation (duplicate_dispatch user_id) =
      translated 409 "DUPLICATE_DISPATCH" (duplicate_dispatch user_id)
  translation (user_not_found user_id) = translated 404 "USER_NOT_FOUND" (user_not_found user_id)
  translation invalid_credentials = translated 401 "AUTH_INVALID_CREDENTIALS" invalid_credentials
  translation (account_not_active status) =
      translated 403 "AUTH_ACCOUNT_NOT_ACTIVE" (account_not_active status)
  translation (account_locked retry_after) = response 423 (
      ("errorCode", str "AUTH_ACCOUNT_LOCKED")
      ∷ ("message", str (message (account_locked retry_after)))
      ∷ ("retry_after", str (iso retry_after))
      ∷ [])
  translation session_creation_failed =
      translated 500 "SESSION_CREATION_FAILED" session_creation_failed
  translation session_not_found = translated 401 "SESSION_NOT_FOUND" session_not_found
  translation session_expired = translated 401 "SESSION_EXPIRED" session_expired
  translation session_invalidated = translated 401 "SESSION_INVALIDATED" session_invalidated
  translation (password_policy_violation violations) =
      response 422
        (("errorCode", str "PASSWORD_POLICY_VIOLATION") ∷ ("violations", strs violations) ∷ [])
  translation (deletion_request_already_pending user_id) =
      translated 409 "DELETION_REQUEST_ALREADY_PENDING" (deletion_request_already_pending user_id)
  translation (deletion_request_not_found user_id) =
      translated 404 "DELETION_REQUEST_NOT_FOUND" (deletion_request_not_found user_id)
  translation _ = error_response 500 "An unexpected error occurred."

  -- The response to an error, or none where the headers are sent and it is passed on.
  unfoldable pub create_app_error_handler : Bool → Exception → Option Response
  unfolding translation
  create_app_error_handler headers_sent e = if headers_sent then none else some (translation e)
