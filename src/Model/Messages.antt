-- ===== src/Model/Messages.antt =====
-- The messages that the constructors of BACKEND/src/errors/*.errors.ts hand to Error.
use test_specs_to_code.Model.Errors.{session_expired, session_invalidated, session_not_found}
use Prim.Native.String
use test_specs_to_code.Common.{String}
use test_specs_to_code.Model.Errors.{
  Exception, validation_error, username_conflict, token_not_found, token_expired, token_consumed,
  account_not_pending, duplicate_dispatch, user_not_found, invalid_credentials, account_not_active,
  account_locked, session_creation_failed, password_policy_violation, otp_rate_limit_exceeded,
  otp_forbidden, otp_not_found, otp_expired, otp_invalid, deletion_request_already_pending,
  deletion_request_not_found, deletion_otp_expired, deletion_otp_invalid, type_error,
  constraint_failed,
}

-- `before${value}after`
abbrev pub quoted : String → String → String → String
quoted before value after = String.◌++◌ before (String.◌++◌ value after)

-- registration.errors.ts
abbrev pub username_conflict_message : String → String
username_conflict_message username = quoted "The username '" username "' is already in use."

abbrev pub account_not_pending_message : String → String
account_not_pending_message status =
    quoted "Account activation requires 'pending' status, but current status is '" status "'."

abbrev pub duplicate_dispatch_message : String → String
duplicate_dispatch_message user_id =
    quoted "A confirmation email dispatch record already exists for user '" user_id "'."

abbrev pub user_not_found_message : String → String
user_not_found_message user_id = quoted "User with id '" user_id "' was not found."

-- login.errors.ts
abbrev pub account_not_active_message : String → String
account_not_active_message status = quoted "Account is not active (current status: '" status "')."

-- otp.errors.ts
abbrev pub otp_rate_limit_message : String → String
otp_rate_limit_message user_id = quoted "OTP rate limit exceeded for user '" user_id "'."

abbrev pub otp_forbidden_message : String → String → String
otp_forbidden_message user_id status =
    quoted "OTP dispatch is forbidden for user '" user_id
      (quoted "' with account status '" status "'.")

abbrev pub otp_not_found_message : String → String
otp_not_found_message user_id = quoted "No active OTP request was found for user '" user_id "'."

abbrev pub otp_expired_message : String → String
otp_expired_message user_id = quoted "The OTP for user '" user_id "' has expired."

abbrev pub otp_invalid_message : String → String
otp_invalid_message user_id = quoted "The submitted OTP is incorrect for user '" user_id "'."

-- `err.message`. No response shows the message of an exception that no class here declares.
unfoldable pub message : Exception → String
message (validation_error text code) = text
message (username_conflict username) = username_conflict_message username
message token_not_found = "The provided activation token was not found."
message token_expired = "The activation token has expired. Please request a new one."
message token_consumed = "The activation token has already been used."
message (account_not_pending status) = account_not_pending_message status
message (duplicate_dispatch user_id) = duplicate_dispatch_message user_id
message (user_not_found user_id) = user_not_found_message user_id
message invalid_credentials = "Invalid email or password."
message (account_not_active status) = account_not_active_message status
message (account_locked retry_after) = "Too many failed login attempts. Try again later."
message session_creation_failed = "Failed to create a session. Please try again."
message session_not_found = "No matching session was found for the provided token."
message session_expired = "The session has expired. Please log in again."
message session_invalidated = "The session has been invalidated. Please log in again."
message (password_policy_violation violations) =
    "The new password does not meet the required complexity rules."
message (otp_rate_limit_exceeded user_id) = otp_rate_limit_message user_id
message (otp_forbidden user_id status) = otp_forbidden_message user_id status
message (otp_not_found user_id) = otp_not_found_message user_id
message (otp_expired user_id) = otp_expired_message user_id
message (otp_invalid user_id) = otp_invalid_message user_id
message (deletion_request_already_pending user_id) =
    "A deletion request is already pending for this account."
message (deletion_request_not_found user_id) =
    "No pending deletion request was found for this account."
message (deletion_otp_expired user_id) =
    "The deletion confirmation code has expired. Please request a new one."
message (deletion_otp_invalid user_id) = "The deletion confirmation code is incorrect."
message type_error = ""
message (constraint_failed constraints) = ""
