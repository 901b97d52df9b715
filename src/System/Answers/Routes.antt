-- ===== src/System/Answers/Routes.antt =====
-- The routes that are answered.
use test_specs_to_code.System.Answers.Registering.{is_textual, post_registration-Returns}
use test_specs_to_code.Model.{ok}
use test_specs_to_code.Services.OtpService.{OtpState}
use test_specs_to_code.Services.SessionService.{invalidated}
use test_specs_to_code.Services.SessionService.{expired}
use test_specs_to_code.Services.SessionService.{not_found}
use test_specs_to_code.Services.SessionService.{account_suspended}
use test_specs_to_code.Common.{leb}
use test_specs_to_code.Common.{ltb}
use test_specs_to_code.Common.{[], false, true, ◌==◌, ◌||◌, ◌∷◌, ◌≡◌}
use test_specs_to_code.Common.Text.{length_of, trim}
use test_specs_to_code.Controllers.ActivationController.{max_token_length, post_activate}
use test_specs_to_code.Controllers.AdminController.{
  admin_refusal, post_resend, require_admin_bearer_token,
}
use test_specs_to_code.Controllers.AuthController.{logout_token, post_login, post_logout}
use test_specs_to_code.Controllers.DeletionController.{
  delete_deletion, post_confirmation, post_deletion,
}
use test_specs_to_code.Controllers.OtpController.{post_otp, post_verify}
use test_specs_to_code.Controllers.PasswordController.{post_recovery, post_reset}
use test_specs_to_code.Controllers.UserProfileController.{get_me}
use test_specs_to_code.Http.{Response, error_response, filled, nonempty, response, str}
use test_specs_to_code.Middleware.{
  Answer, after_prefix, bearer_prefix, check_token, passed, refused, result_answer,
  session_validation_middleware,
}
use test_specs_to_code.Model.{is_active}
use test_specs_to_code.Repositories.SessionRepository.{
  find_by_token_hash, invalidate_all_for_user, mark_invalidated,
}
use test_specs_to_code.Repositories.UserRepository.{find_by_id}
use test_specs_to_code.Services.SessionService.{
  invalid, invalidate_session, valid, validate_owner, validate_session,
}
use test_specs_to_code.System.{
  after_session, health, logout, profile, recover_password, require_session, send_otp, unknown,
}
use test_specs_to_code.Controllers.HealthController.{check}
use test_specs_to_code.System.{
  Setup, Request, handle, activate, cancel_deletion, confirm_deletion, login, register,
  request_deletion, resend_confirmation, reset_password, verify_otp,
}
use test_specs_to_code.Common.{ℕ, String, Bool, Option, none, some}
use test_specs_to_code.Model.{Crypto, SessionEntity, Exec, World}
use test_specs_to_code.System.Answers.{
  Returns, Returns-pure, Returns-query, Returns-command, Returns-bind, Returns-then,
  Returns-respond, Returns-if, Returns-option, Returns-within,
}

-- Neither a check of a session nor a logout throws.
owner-Returns :
    (crypto : Crypto) (session : SessionEntity) (swept_at : ℕ)
    → Returns (validate_owner crypto session swept_at)
unfolding validate_owner
owner-Returns crypto session swept_at =
    Returns-bind _ _ (Returns-query (find_by_id session.user_id)) (λ user.
      Returns-option user _ _ (Returns-pure (valid session.user_id)) (λ u.
        Returns-if (is_active u.status) _ _ (Returns-pure (valid session.user_id)) (
          Returns-then _ _ (Returns-command (invalidate_all_for_user u.id swept_at))
            (Returns-pure (invalid account_suspended)))))

validate-Returns :
    (crypto : Crypto) (raw_token : String) (now swept_at : ℕ)
    → Returns (validate_session crypto raw_token now swept_at)
unfolding validate_session
validate-Returns crypto raw_token now swept_at =
    Returns-bind _ _ (Returns-query (find_by_token_hash (crypto.hash_token raw_token))) (λ found.
      Returns-option found _ _ (Returns-pure (invalid not_found)) (λ session.
        Returns-if (leb session.expires_at now) _ _ (Returns-pure (invalid expired)) (
          Returns-if session.invalidated _ _ (Returns-pure (invalid invalidated))
            (owner-Returns crypto session swept_at))))

logout-Returns :
    (crypto : Crypto) (raw_token : String) (now closed_at : ℕ)
    → Returns (invalidate_session crypto raw_token now closed_at)
unfolding invalidate_session
logout-Returns crypto raw_token now closed_at =
    Returns-bind _ _ (Returns-query (find_by_token_hash (crypto.hash_token raw_token))) (λ found.
      Returns-option found _ _ (Returns-pure (record { already_terminated = true })) (λ session.
        Returns-if (session.invalidated || leb session.expires_at now) _ _
          (Returns-pure (record { already_terminated = true }))
          (Returns-then _ _ (Returns-command (mark_invalidated session.id closed_at))
            (Returns-pure (record { already_terminated = false })))))

post_logout-Returns :
    (crypto : Crypto) (header : Option String) (now closed_at : ℕ)
    → Returns (post_logout crypto header now closed_at)
unfolding post_logout logout_token
post_logout-Returns crypto none now closed_at = Returns-pure _
post_logout-Returns crypto (some authorization) now closed_at =
    Returns-if (authorization == "") _ _ (Returns-pure _) (
      Returns-option (after_prefix bearer_prefix authorization) _ _ (Returns-pure _) (λ rest.
        Returns-if (trim rest == "") _ _ (Returns-pure _) (
          Returns-then _ _ (logout-Returns crypto (trim rest) now closed_at)
            (Returns-pure (response 200 (("message", str "Logged out.") ∷ []))))))

middleware-Returns :
    (crypto : Crypto) (header : Option String) (now swept_at : ℕ)
    → Returns (session_validation_middleware crypto header now swept_at)
unfolding session_validation_middleware check_token
middleware-Returns crypto none now swept_at = Returns-pure _
middleware-Returns crypto (some authorization) now swept_at =
    Returns-if (authorization == "") _ _ (Returns-pure _) (
      Returns-option (after_prefix bearer_prefix authorization) _ _ (Returns-pure _) (λ rest.
        Returns-if (trim rest == "") _ _ (Returns-pure _) (
          Returns-bind _ _ (validate-Returns crypto (trim rest) now swept_at)
            (λ result. Returns-pure (result_answer result)))))

after_session-Returns :
    (next : String → Exec World Response)
    → ((user_id : String) → Returns (next user_id))
    → (a : Answer) → Returns (after_session next a)
unfolding after_session
after_session-Returns next inner (passed user_id) = inner user_id
after_session-Returns next inner (refused status code message) = Returns-pure _

require_session-Returns :
    (crypto : Crypto) (header : Option String) (now swept_at : ℕ)
    (next : String → Exec World Response)
    → ((user_id : String) → Returns (next user_id))
    → Returns (require_session crypto header now swept_at next)
unfolding require_session
require_session-Returns crypto header now swept_at next inner =
    Returns-bind _ _ (middleware-Returns crypto header now swept_at)
      (λ answer. after_session-Returns next inner answer)

-- Whether the request is not a registration with a field that is neither missing nor a string.
abbrev pub is_readable : Request → Bool
is_readable r = elim r [ register body inputs ↦ is_textual body | _ ↦ true ]

handle-Returns :
    {K : Type 0} (setup : Setup K) (r : Request) → is_readable r ≡ true → Returns (handle setup r)
unfolding handle post_activate require_admin_bearer_token post_resend post_otp post_verify
    post_login post_recovery post_reset post_deletion delete_deletion post_confirmation get_me
handle-Returns setup (register body inputs) h =
    post_registration-Returns setup.crypto setup.otp setup.policy setup.lower setup.named
      setup.guard body inputs h
handle-Returns setup (activate token now activated_at) h = Returns-within _ (
    Returns-option (filled token) _ _ (Returns-pure _) (λ raw.
      Returns-if (ltb max_token_length (length_of raw)) _ _ (Returns-pure _)
        (Returns-respond _ _ _)))
handle-Returns setup (resend_confirmation header user_id record_id now) h = Returns-within _ (
    Returns-option (admin_refusal setup.admin_bearer_token header) _ _
      (Returns-if (trim user_id == "") _ _ (Returns-pure _) (Returns-respond _ _ _))
      (λ r. Returns-pure r))
handle-Returns setup (send_otp user_id inputs) h =
    Returns-option (filled user_id) _ _ (Returns-pure _) (λ id. Returns-respond _ _ _)
handle-Returns setup (verify_otp user_id passcode checked_at activated_at) h = Returns-within _ (
    Returns-option (filled user_id) _ _ (Returns-pure _)
      (λ id. Returns-option (filled passcode) _ _ (Returns-pure _) (λ code. Returns-respond _ _ _)))
handle-Returns setup (login email password inputs) h = Returns-within _ (
    Returns-option (filled email) _ _ (Returns-pure _)
      (λ e. Returns-option (nonempty password) _ _ (Returns-pure _) (λ p. Returns-respond _ _ _)))
handle-Returns setup (logout header now closed_at) h =
    Returns-within _ (post_logout-Returns setup.crypto header now closed_at)
handle-Returns setup (recover_password email token id requested_at) h =
    Returns-within _
      (Returns-option (filled email) _ _ (Returns-pure _) (λ e. Returns-respond _ _ _))
handle-Returns setup (reset_password token new_password salt now) h = Returns-within _ (
    Returns-option (filled token) _ _ (Returns-pure _) (λ t.
      Returns-option (nonempty new_password) _ _ (Returns-pure _) (λ p. Returns-respond _ _ _)))
handle-Returns setup (request_deletion header now swept_at code id issued_at) h =
    Returns-within _
      (require_session-Returns setup.crypto header now swept_at _ (λ u. Returns-respond _ _ _))
handle-Returns setup (cancel_deletion header now swept_at cancelled_at) h =
    Returns-within _
      (require_session-Returns setup.crypto header now swept_at _ (λ u. Returns-respond _ _ _))
handle-Returns setup (confirm_deletion header now swept_at code record_id confirmed_at) h =
    Returns-within _ (
      require_session-Returns setup.crypto header now swept_at _
        (λ u. Returns-option (filled code) _ _ (Returns-pure _) (λ c. Returns-respond _ _ _)))
handle-Returns setup (profile header now swept_at counted_at) h =
    Returns-within _
      (require_session-Returns setup.crypto header now swept_at _ (λ u. Returns-respond _ _ _))
handle-Returns setup (health reachable) h = Returns-pure (check reachable)
handle-Returns setup unknown h = Returns-pure (error_response 404 "Not found.")

-- Every request is answered, in every state of the server, whatever its body and its header: the
-- only exception is a registration with a field that is neither missing nor a string.
pub handle-answers :
    {K : Type 0} (setup : Setup K) (r : Request) (s : OtpState K)
    → is_readable r ≡ true
    → (a : Response) × ((handle setup r s).0 ≡ ok a)
handle-answers setup r s h = (handle-Returns setup r h).at s
