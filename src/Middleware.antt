-- ===== src/Middleware.antt =====
-- BACKEND/src/middleware/session-validation.middleware.ts. The answer of one request: either it is
-- passed on with the user's id, or it ends with a status and an error code.
pub mod Guarded
pub mod ErrorHandler
use Prim.Native.String
use test_specs_to_code.Common.{
  ℕ, String, Bool, true, false, Option, none, some, ◌==◌, if◌then◌else◌,
}
use test_specs_to_code.Common.Text.{trim}
use test_specs_to_code.Model.{Crypto, Exec, World, pure, ◌>>=◌}
use test_specs_to_code.Services.SessionService.{
  Reason, not_found, expired, invalidated, account_suspended, SessionValidationResult, valid,
  invalid, validate_session,
}

pub data Answer : Type 0 where
  -- next(), with req.userId set
  passed : String → Answer
  -- res.status(status).json({ error_code, message })
  refused : ℕ → String → String → Answer

-- `s.slice(prefix.length)` where s starts with the prefix.
unfoldable pub after_prefix : String → String → Option String
after_prefix String.[] s = some s
after_prefix (String.◌∷◌ p prefix) String.[] = none
after_prefix (String.◌∷◌ p prefix) (String.◌∷◌ c s) =
    let rest = after_prefix prefix s in if String.◌∷◌ c "" == String.◌∷◌ p "" then rest else none

abbrev pub bearer_prefix : String
bearer_prefix = "Bearer "

unfoldable pub reason_answer : Reason → Answer
reason_answer not_found =
    refused 401 "SESSION_NOT_FOUND" "No matching session was found for the provided token."
reason_answer expired =
    refused 401 "SESSION_EXPIRED" "The session has expired. Please log in again."
reason_answer invalidated =
    refused 401 "SESSION_INVALIDATED" "The session has been invalidated. Please log in again."
reason_answer account_suspended =
    refused 403 "AUTH_ACCOUNT_NOT_ACTIVE" "This account is not active."

unfoldable pub result_answer : SessionValidationResult → Answer
unfolding reason_answer
result_answer (valid user_id) = passed user_id
result_answer (invalid reason) = reason_answer reason

module _ (crypto : Crypto) where
  -- `validateSession` and what its result is answered with.
  unfoldable pub check_token : String → ℕ → ℕ → Exec World Answer
  unfolding result_answer
  check_token raw_token now swept_at =
      if raw_token == ""
      then pure (refused 401 "AUTH_HEADER_MALFORMED" "Bearer token is required.")
      else do result ← validate_session crypto raw_token now swept_at; pure (result_answer result)

  -- The authorization header is none where the request has none.
  unfoldable pub session_validation_middleware : Option String → ℕ → ℕ → Exec World Answer
  unfolding after_prefix check_token
  session_validation_middleware none now swept_at =
      pure (refused 401 "AUTH_HEADER_MISSING" "Authorization header is required.")
  session_validation_middleware (some authorization) now swept_at =
      if authorization == ""
      then pure (refused 401 "AUTH_HEADER_MISSING" "Authorization header is required.")
      else elim (after_prefix bearer_prefix authorization) [
        | none ↦
            pure
              (refused 401 "AUTH_HEADER_MALFORMED" "Authorization header must use Bearer scheme.")
        | some rest ↦ check_token (trim rest) now swept_at
      ]
