-- ===== src/Controllers/PasswordController.antt =====
-- BACKEND/src/controllers/password.controller.ts
use test_specs_to_code.Common.{ℕ, String, none, some, [], ◌∷◌}
use test_specs_to_code.Common.Text.{trim}
use test_specs_to_code.Model.{
  Exception, token_not_found, token_expired, password_policy_violation, message, Crypto, Exec,
  World, pure,
}
use test_specs_to_code.Http.{
  Field, filled, nonempty, str, strs, Response, response, error_response, coded_response, respond,
}
use test_specs_to_code.Services.PasswordRecoveryService.{
  RecoveryConfig, request_recovery, reset_password,
}
use test_specs_to_code.Validators.PasswordPolicy.{PasswordPolicy}

abbrev pub recovery_response : Response
recovery_response =
    response 202
      (("message", str "If that email is registered, a recovery link has been sent.") ∷ [])

-- POST /api/v1/auth/password-recovery: the response does not depend on the outcome.
unfoldable pub post_recovery : RecoveryConfig → Field → String → String → ℕ → Exec World Response
unfolding filled
post_recovery config email token id requested_at = elim (filled email) [
  | none ↦ pure (error_response 400 "email is required.")
  | some e ↦
      respond (request_recovery config (trim e) token id requested_at) (λ r. recovery_response)
        (λ x. recovery_response)
]

unfoldable pub reset_error : Exception → Response
reset_error token_not_found =
    coded_response 404 "error_code" "TOKEN_NOT_FOUND" (message token_not_found)
reset_error token_expired = coded_response 410 "error_code" "TOKEN_EXPIRED" (message token_expired)
reset_error (password_policy_violation violations) =
    response 422
      (("error_code", str "PASSWORD_POLICY_VIOLATION") ∷ ("violations", strs violations) ∷ [])
reset_error _ = error_response 500 "An unexpected error occurred during password reset."

-- POST /api/v1/auth/password-reset
unfoldable pub post_reset :
    Crypto → PasswordPolicy → Field → Field → String → ℕ → Exec World Response
unfolding filled nonempty reset_error
post_reset crypto policy recovery_token new_password salt now = elim (filled recovery_token) [
  | none ↦ pure (error_response 400 "recovery_token is required.")
  | some token ↦ elim (nonempty new_password) [
    | none ↦ pure (error_response 400 "new_password is required.")
    | some password ↦
        respond (reset_password crypto policy (trim token) password salt now)
          (λ r.
            response 200 (("message", str "Password has been reset. Please log in again.") ∷ []))
          reset_error
  ]
]
