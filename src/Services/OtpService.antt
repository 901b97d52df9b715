-- ===== src/Services/OtpService.antt =====
-- BACKEND/src/services/otp.service.ts and the delivery adapter that it dispatches by,
-- BACKEND/src/adapters/email-otp-delivery.adapter.ts.
pub mod Issue
pub mod Verify
use test_specs_to_code.Common.{
  ℕ, ◌+◌, ◌*◌, String, Bool, true, false, not, ◌&&◌, ◌||◌, Option, none, some, [], ◌∷◌, ◌==◌, ltb,
  if◌then◌else◌,
}
use test_specs_to_code.Common.Text.{to_string}
use test_specs_to_code.Model.{
  AccountStatus, UserEntity, OtpRequestEntity, OtpStatus, Mail, is_active, is_pending, status_text,
  otp_forbidden, otp_rate_limit_exceeded, otp_not_found, otp_expired, otp_invalid, Crypto, Exec,
  World, ok, pure, require, throw_if, query, command, insert, send, with_transaction, ◌>>=◌, ◌>>◌,
}
use test_specs_to_code.Repositories.UserRepository.{find_by_id, update_status}
use test_specs_to_code.Repositories.OtpRequestRepository.{
  create_otp_request, otp_request_violations, find_active_by_user_id, invalidate_active_by_user_id,
  invalidate_otp, mark_delivered, mark_failed, get_next_attempt_sequence,
}
use test_specs_to_code.Services.RateLimitGuard.{RateLimitGuard}

-- BACKEND/src/config/otp.config.ts, and `fromName` of app.config.ts
pub record OtpConfig : Type 0 where
  pub otp_ttl_minutes : ℕ
  pub otp_delivery_enabled : Bool
  pub otp_email_template_id : String
  pub from_name : String

pub record OtpDispatchResult : Type 0 where
  pub accepted : Bool
  pub status : OtpStatus

pub record OtpVerifyResult : Type 0 where
  pub user_id : String
  pub activated_at : ℕ

-- The database, the mails, and the state of the rate limit.
pub record OtpState (K : Type 0) : Type 0 where
  pub world : World
  pub counters : K

-- A method that does not touch the rate limit.
abbrev pub within : {K A : Type 0} → Exec World A → Exec (OtpState K) A
within m s = let (r, w) = m s.world in (r, record s { world = w })

abbrev pub ask_guard : {K : Type 0} → RateLimitGuard K → String → ℕ → Exec (OtpState K) Bool
ask_guard guard user_id now s =
    let (allowed, k) = guard.allow user_id now s.counters in (ok allowed, record s { counters = k })

-- What one issue reads from its surroundings: the clock, the code that generateNumericCode drew,
-- the row's uuid, and whether the mail provider accepts the mail.
pub record OtpInputs : Type 0 where
  pub asked_at : ℕ
  pub invalidated_at : ℕ
  pub created_at : ℕ
  pub code : String
  pub request_id : String
  pub provider_accepts : Bool

abbrev pub otp_mail : OtpConfig → String → String → Mail
otp_mail config destination code = record {
  address = destination;
  name = destination;
  subject = "Your one-time verification code";
  template_id = config.otp_email_template_id;
  template_vars =
      ("otp", code)
      ∷ ("expiry_minutes", to_string config.otp_ttl_minutes)
      ∷ ("app_name", config.from_name)
      ∷ [];
}

-- `EmailOtpDeliveryAdapter.dispatch`; a provider that throws counts as one that refuses.
unfoldable pub dispatch : OtpConfig → String → String → Bool → Exec World Bool
dispatch config destination code provider_accepts =
    if config.otp_delivery_enabled
    then (do send (otp_mail config destination code); pure provider_accepts)
    else pure false

module _ (crypto : Crypto) (config : OtpConfig) where
  -- The row of a new code.
  abbrev pub new_otp_request : String → UserEntity → ℕ → OtpInputs → OtpRequestEntity
  new_otp_request user_id user attempt_sequence inputs = record {
    id = inputs.request_id;
    user_id = user_id;
    email_address = user.email;
    code_hash = crypto.hash_code inputs.code;
    status = OtpStatus.pending;
    created_at = inputs.created_at;
    expires_at = inputs.created_at + config.otp_ttl_minutes * 60 * 1000;
    invalidated_at = none;
    attempt_sequence = attempt_sequence;
  }

  -- `issueOtp` from the invalidation of the former code to the insertion of the new one.
  unfoldable pub store_otp : String → UserEntity → OtpInputs → Exec World Unit
  store_otp user_id user inputs = do
    command (invalidate_active_by_user_id user_id inputs.invalidated_at)
    attempt_sequence ← query (get_next_attempt_sequence user_id)
    let row = new_otp_request user_id user attempt_sequence inputs
    insert (otp_request_violations row) (create_otp_request row)

  -- The rest of `issueOtp`: the mail, and the status that its outcome gives the row.
  unfoldable pub deliver_otp : UserEntity → OtpInputs → Exec World OtpDispatchResult
  unfolding dispatch
  deliver_otp user inputs = do
    delivered ← dispatch config user.email inputs.code inputs.provider_accepts
    if delivered
        then (do
          command (mark_delivered inputs.request_id)
          pure (record { accepted = true; status = OtpStatus.delivered }))
        else (do
          command (mark_failed inputs.request_id)
          pure (record { accepted = true; status = OtpStatus.failed }))

  -- `sendOtp` and `resendOtp` are both `issueOtp`.
  unfoldable pub issue_otp :
      {K : Type 0} → RateLimitGuard K → String → OtpInputs → Exec (OtpState K) OtpDispatchResult
  issue_otp guard user_id inputs = do
    found ← within (query (find_by_id user_id))
    elim found [
      | none ↦ pure (record { accepted = true; status = OtpStatus.delivered })
      | some user ↦ do
        throw_if (not (is_active user.status) && not (is_pending user.status))
            (otp_forbidden user_id (status_text user.status))
        allowed ← ask_guard guard user_id inputs.asked_at
        throw_if (not allowed) (otp_rate_limit_exceeded user_id)
        within (store_otp user_id user inputs)
        within (deliver_otp user inputs)
    ]

module _ (crypto : Crypto) where
  -- `checked_at` and `activated_at` are the two readings of the clock.
  unfoldable pub verify_otp : String → String → ℕ → ℕ → Exec World OtpVerifyResult
  verify_otp user_id passcode checked_at activated_at = do
    found ← query (find_by_id user_id)
    user ← require found (otp_not_found user_id)
    throw_if (not (is_pending user.status) && not (is_active user.status)) (otp_not_found user_id)
    active ← query (find_active_by_user_id user_id)
    request ← require active (otp_not_found user_id)
    throw_if (ltb request.expires_at checked_at) (otp_expired user_id)
    throw_if (not (crypto.hash_code passcode == request.code_hash)) (otp_invalid user_id)
    with_transaction (do
      command (update_status user_id AccountStatus.active activated_at)
      command (invalidate_otp request.id activated_at))
    pure (record { user_id = user_id; activated_at = activated_at })
