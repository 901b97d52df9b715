-- ===== src/Controllers/AdminController.antt =====
-- BACKEND/src/controllers/admin.controller.ts behind
-- BACKEND/src/middleware/admin-auth.middleware.ts
use test_specs_to_code.Common.{ℕ, String, Option, none, some, [], ◌∷◌, ◌==◌, if◌then◌else◌}
use test_specs_to_code.Common.Text.{trim}
use test_specs_to_code.Model.{Exception, user_not_found, account_not_pending, Exec, World, pure}
use test_specs_to_code.Http.{str, Response, response, error_response, respond}
use test_specs_to_code.Middleware.{after_prefix, bearer_prefix}
use test_specs_to_code.Services.EmailDispatchService.{resend_confirmation}

unfoldable pub resend_error : Exception → Response
resend_error (user_not_found user_id) = error_response 404 "User not found."
resend_error (account_not_pending status) = error_response 409 "Account is not pending activation."
resend_error _ = error_response 500 "An unexpected error occurred."

-- POST /api/v1/admin/users/:user_id/resend-confirmation
unfoldable pub post_resend : String → String → ℕ → Exec World Response
unfolding resend_error
post_resend user_id record_id now =
    if trim user_id == ""
    then pure (error_response 400 "User ID is required.")
    else respond (resend_confirmation (trim user_id) record_id now)
        (λ r. response 202 (("message", str "Confirmation email enqueue requested.") ∷ []))
        resend_error

-- The response of the middleware to a header, or none where it calls next().
unfoldable pub admin_refusal : String → Option String → Option Response
admin_refusal admin_bearer_token none =
    some (error_response 401 "Authorization header is required.")
admin_refusal admin_bearer_token (some authorization) =
    if authorization == ""
    then some (error_response 401 "Authorization header is required.")
    else elim (after_prefix bearer_prefix authorization) [
      | none ↦ some (error_response 401 "Authorization header must use Bearer scheme.")
      | some rest ↦
          if trim rest == ""
          then some (error_response 401 "Bearer token is required.")
          else if trim rest == admin_bearer_token
          then none
          else some (error_response 403 "Insufficient permissions to access this resource.")
    ]

unfoldable pub require_admin_bearer_token :
    {S : Type 0} → String → Option String → Exec S Response → Exec S Response
unfolding admin_refusal
require_admin_bearer_token admin_bearer_token header next =
    elim (admin_refusal admin_bearer_token header) [ none ↦ next | some r ↦ pure r ]
