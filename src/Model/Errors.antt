-- ===== src/Model/Errors.antt =====
-- BACKEND/src/errors/*.errors.ts: a constructor for each class that the services throw or that the
-- error handler names, with the fields that it carries.
use test_specs_to_code.Common.{ℕ, String, List}

-- What makes SQLite refuse a row: a UNIQUE column or index, or a REFERENCES clause.
pub data Constraint : Type 0 where
  unique : String → Constraint
  foreign_key : Constraint

pub data Exception : Type 0 where
  validation_error : String → String → Exception
  username_conflict : String → Exception
  token_not_found : Exception
  token_expired : Exception
  token_consumed : Exception
  account_not_pending : String → Exception
  duplicate_dispatch : String → Exception
  user_not_found : String → Exception
  invalid_credentials : Exception
  account_not_active : String → Exception
  account_locked : ℕ → Exception
  session_creation_failed : Exception
  session_not_found : Exception
  session_expired : Exception
  session_invalidated : Exception
  password_policy_violation : List String → Exception
  otp_rate_limit_exceeded : String → Exception
  otp_forbidden : String → String → Exception
  otp_not_found : String → Exception
  otp_expired : String → Exception
  otp_invalid : String → Exception
  deletion_request_already_pending : String → Exception
  deletion_request_not_found : String → Exception
  deletion_otp_expired : String → Exception
  deletion_otp_invalid : String → Exception
  -- JavaScript's TypeError, thrown by a call of a method that the value does not have
  type_error : Exception
  -- a SqliteError: all the constraints that the row breaks, of which its message names one
  constraint_failed : List Constraint → Exception
