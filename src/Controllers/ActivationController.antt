-- ===== src/Controllers/ActivationController.antt =====
-- BACKEND/src/controllers/activation.controller.ts
use test_specs_to_code.Common.{ℕ, none, some, [], ◌∷◌, ltb, if◌then◌else◌}
use test_specs_to_code.Common.Text.{trim, length_of}
use test_specs_to_code.Model.{
  Exception, token_not_found, token_expired, token_consumed, account_not_pending, message, Exec,
  World, pure,
}
use test_specs_to_code.Http.{
  Field, filled, str, Response, response, error_response, coded_response, respond,
}
use test_specs_to_code.Services.ActivationService.{ActivationResult, activate}

abbrev pub max_token_length : ℕ
max_token_length = 512

unfoldable pub activation_error : Exception → Response
activation_error token_not_found =
    coded_response 404 "errorCode" "TOKEN_NOT_FOUND" (message token_not_found)
activation_error token_expired =
    coded_response 410 "errorCode" "TOKEN_EXPIRED" (message token_expired)
activation_error token_consumed =
    coded_response 410 "errorCode" "TOKEN_CONSUMED" (message token_consumed)
activation_error (account_not_pending status) =
    coded_response 409 "errorCode" "ACCOUNT_NOT_PENDING" (message (account_not_pending status))
activation_error _ = error_response 500 "An unexpected error occurred during activation."

abbrev pub activated_response : ActivationResult → Response
activated_response r =
    response 200
      (("message", str "Account successfully activated.") ∷ ("userId", str r.user_id) ∷ [])

-- POST /api/v1/users/activate
unfoldable pub post_activate : Field → ℕ → ℕ → Exec World Response
unfolding filled activation_error
post_activate token now activated_at = elim (filled token) [
  | none ↦ pure (error_response 400 "Token is required.")
  | some raw ↦
      if ltb max_token_length (length_of raw)
      then pure (error_response 400 "Token must not exceed 512 characters.")
      else respond (activate (trim raw) now activated_at) activated_response activation_error
]
