-- ===== src/Controllers/DeletionController.antt =====
-- BACKEND/src/controllers/deletion.controller.ts. `user_id` is what the session middleware put
-- into the request.
use test_specs_to_code.Common.{ℕ, String, none, some, [], ◌∷◌}
use test_specs_to_code.Model.{
  Exception, account_not_active, deletion_request_already_pending, deletion_request_not_found,
  deletion_otp_expired, deletion_otp_invalid, message, Crypto, Exec, World, pure,
}
use test_specs_to_code.Http.{
  Field, filled, str, Response, response, error_response, coded_response, respond,
}
use test_specs_to_code.Services.AccountDeletionService.{
  AccountDeletionConfig, DeletionConfirmationResult, request_deletion, confirm_deletion,
  cancel_deletion,
}

unfoldable pub request_error : Exception → Response
request_error (account_not_active status) =
    coded_response 403 "error_code" "AUTH_ACCOUNT_NOT_ACTIVE" (message (account_not_active status))
request_error (deletion_request_already_pending user_id) =
    coded_response 409 "error_code" "DELETION_REQUEST_ALREADY_PENDING"
      (message (deletion_request_already_pending user_id))
request_error _ = error_response 500 "An unexpected error occurred."

unfoldable pub cancel_error : Exception → Response
cancel_error (deletion_request_not_found user_id) =
    coded_response 404 "error_code" "DELETION_REQUEST_NOT_FOUND"
      (message (deletion_request_not_found user_id))
cancel_error _ = error_response 500 "An unexpected error occurred."

unfoldable pub confirm_error : Exception → Response
confirm_error (deletion_request_not_found user_id) =
    coded_response 404 "error_code" "DELETION_REQUEST_NOT_FOUND"
      (message (deletion_request_not_found user_id))
confirm_error (deletion_otp_expired user_id) =
    coded_response 410 "error_code" "DELETION_OTP_EXPIRED" (message (deletion_otp_expired user_id))
confirm_error (deletion_otp_invalid user_id) =
    coded_response 422 "error_code" "DELETION_OTP_INVALID" (message (deletion_otp_invalid user_id))
confirm_error _ = error_response 500 "An unexpected error occurred."

-- POST /api/v1/users/deletion-requests
unfoldable pub post_deletion :
    Crypto → AccountDeletionConfig → String → String → String → ℕ → Exec World Response
unfolding request_error
post_deletion crypto config user_id code id issued_at =
    respond (request_deletion crypto config user_id code id issued_at)
      (λ r. response 202 (("message", str "A confirmation code has been sent to your email.") ∷ []))
      request_error

-- DELETE /api/v1/users/deletion-requests
unfoldable pub delete_deletion : String → ℕ → Exec World Response
unfolding cancel_error
delete_deletion user_id now =
    respond (cancel_deletion user_id now)
      (λ r.
        response 200 (("message", str "Your pending deletion request has been cancelled.") ∷ []))
      cancel_error

abbrev pub confirmed_response : (ℕ → String) → DeletionConfirmationResult → Response
confirmed_response iso r =
    response 200 (("userId", str r.user_id) ∷ ("deletedAt", str (iso r.deleted_at)) ∷ [])

-- POST /api/v1/users/deletion-requests/confirm
unfoldable pub post_confirmation :
    Crypto → (String → String) → (ℕ → String) → String → Field → String → ℕ → Exec World Response
unfolding filled confirm_error
post_confirmation crypto lower iso user_id code record_id now = elim (filled code) [
  | none ↦ pure (error_response 400 "code is required.")
  | some c ↦
      respond (confirm_deletion crypto lower user_id c record_id now) (confirmed_response iso)
        confirm_error
]
