-- ===== src/Controllers/OtpController.antt =====
-- BACKEND/src/controllers/otp.controller.ts
use test_specs_to_code.Common.{ℕ, String, none, some, [], ◌∷◌}
use test_specs_to_code.Common.Text.{trim}
use test_specs_to_code.Model.{
  Exception, OtpStatus, otp_forbidden, otp_rate_limit_exceeded, otp_not_found, otp_expired,
  otp_invalid, message, Crypto, Exec, World, pure,
}
use test_specs_to_code.Http.{
  Field, filled, str, Response, response, error_response, coded_response, respond,
}
use test_specs_to_code.Services.RateLimitGuard.{RateLimitGuard}
use test_specs_to_code.Services.OtpService.{
  OtpConfig, OtpDispatchResult, OtpVerifyResult, OtpInputs, OtpState, issue_otp, verify_otp,
}

unfoldable pub dispatch_status : OtpStatus → String
dispatch_status OtpStatus.delivered = "accepted"
dispatch_status _ = "dispatch_failed"

abbrev pub dispatch_response : OtpDispatchResult → Response
dispatch_response r = response 202 (("status", str (dispatch_status r.status)) ∷ [])

unfoldable pub dispatch_error : Exception → Response
dispatch_error (otp_forbidden user_id status) =
    coded_response 403 "errorCode" "OTP_FORBIDDEN" (message (otp_forbidden user_id status))
dispatch_error (otp_rate_limit_exceeded user_id) =
    coded_response 429 "errorCode" "OTP_RATE_LIMIT_EXCEEDED"
      (message (otp_rate_limit_exceeded user_id))
dispatch_error _ =
    error_response 500 "An unexpected error occurred while processing the OTP request."

unfoldable pub verify_error : Exception → Response
verify_error (otp_not_found user_id) =
    coded_response 404 "errorCode" "OTP_NOT_FOUND" (message (otp_not_found user_id))
verify_error (otp_expired user_id) =
    coded_response 410 "errorCode" "OTP_EXPIRED" (message (otp_expired user_id))
verify_error (otp_invalid user_id) =
    coded_response 422 "errorCode" "OTP_INVALID" (message (otp_invalid user_id))
verify_error _ = error_response 500 "An unexpected error occurred while verifying the OTP."

module _ (crypto : Crypto) where
  -- POST /api/v1/otp/send and POST /api/v1/otp/resend, which call the same service method
  unfoldable pub post_otp :
      {K : Type 0} → OtpConfig → RateLimitGuard K → Field → OtpInputs → Exec (OtpState K) Response
  unfolding filled dispatch_error
  post_otp config guard user_id inputs = elim (filled user_id) [
    | none ↦ pure (error_response 400 "userId is required.")
    | some id ↦
        respond (issue_otp crypto config guard (trim id) inputs) dispatch_response dispatch_error
  ]

  -- A Date is sent as toISOString() prints it.
  abbrev pub verified_response : (ℕ → String) → OtpVerifyResult → Response
  verified_response iso r = response 200 (
      ("message", str "Account activated successfully.")
      ∷ ("userId", str r.user_id)
      ∷ ("activatedAt", str (iso r.activated_at))
      ∷ [])

  -- POST /api/v1/otp/verify
  unfoldable pub post_verify : (ℕ → String) → Field → Field → ℕ → ℕ → Exec World Response
  unfolding filled verify_error
  post_verify iso user_id passcode checked_at activated_at = elim (filled user_id) [
    | none ↦ pure (error_response 400 "userId is required.")
    | some id ↦ elim (filled passcode) [
      | none ↦ pure (error_response 400 "passcode is required.")
      | some code ↦
          respond (verify_otp crypto (trim id) (trim code) checked_at activated_at)
            (verified_response iso) verify_error
    ]
  ]
