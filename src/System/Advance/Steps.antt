-- ===== src/System/Advance/Steps.antt =====
-- Every step, and so every run, of the server.
use test_specs_to_code.System.{reset_password}
use test_specs_to_code.System.{login}
use test_specs_to_code.System.{verify_otp}
use test_specs_to_code.System.{resend_confirmation}
use test_specs_to_code.System.{activate}
use test_specs_to_code.System.{register}
use test_specs_to_code.Controllers.HealthController.{check}
use test_specs_to_code.Http.{error_response}
use test_specs_to_code.Services.OtpService.{OtpState}
use test_specs_to_code.System.{
  health, here, late_login, late_registration, late_reset, logout, next, notice_tick, outbox_tick,
  profile, recover_password, request, send_otp, unknown,
}
use test_specs_to_code.Model.{Db}
use test_specs_to_code.System.{
  Setup, Request, handle, Step, Reach, activate, cancel_deletion, confirm_deletion, login, register,
  request_deletion, resend_confirmation, reset_password, verify_otp,
}
use test_specs_to_code.System.Rules.{Rules}
use test_specs_to_code.System.Advance.Sessions.{finish_login-Advances, commit_reset-Advances}
use test_specs_to_code.System.Advance.Routes.{
  post_activate-Advances, post_resend-Advances, post_verify-Advances, post_login-Advances,
  post_logout-Advances, post_recovery-Advances, post_reset-Advances, require_session-Advances,
  post_deletion-Advances, delete_deletion-Advances, post_confirmation-Advances, get_me-Advances,
}
use test_specs_to_code.System.Advance.Registration.{
  post_otp-Moves, post_registration-Moves, create_user-Moves,
}
use test_specs_to_code.Controllers.RegistrationController.{created_response, registration_error}
use test_specs_to_code.System.Advance.Workers.{outbox-Advances, notice_tick-Advances}
use test_specs_to_code.System.Advance.Moves.{Moves, Moves-within, Moves-pure, Moves-respond}

module _ {R : Db → Db → Type 0} (rules : Rules R) {K : Type 0} (setup : Setup K) where
  open rules use {order}

  handle-Moves : (r : Request) → Moves R K (handle setup r)
  unfolding handle
  handle-Moves (register body inputs) =
      post_registration-Moves rules setup.crypto setup.otp setup.guard setup.policy setup.lower
        setup.named body inputs
  handle-Moves (activate token now activated_at) =
      Moves-within order _ (post_activate-Advances rules token now activated_at)
  handle-Moves (resend_confirmation header user_id record_id now) =
      Moves-within order _
        (post_resend-Advances rules setup.admin_bearer_token header user_id record_id now)
  handle-Moves (send_otp user_id inputs) =
      post_otp-Moves rules setup.crypto setup.otp setup.guard user_id inputs
  handle-Moves (verify_otp user_id passcode checked_at activated_at) =
      Moves-within order _
        (post_verify-Advances rules setup.crypto setup.iso user_id passcode checked_at activated_at)
  handle-Moves (login email password inputs) = Moves-within order _ (
      post_login-Advances rules setup.iso setup.crypto setup.lockout setup.expiry_seconds email
        password inputs)
  handle-Moves (logout header now closed_at) =
      Moves-within order _ (post_logout-Advances rules setup.crypto header now closed_at)
  handle-Moves (recover_password email token id requested_at) =
      Moves-within order _ (post_recovery-Advances rules setup.recovery email token id requested_at)
  handle-Moves (reset_password token new_password salt now) =
      Moves-within order _
        (post_reset-Advances rules setup.crypto setup.policy token new_password salt now)
  handle-Moves (request_deletion header now swept_at code id issued_at) = Moves-within order _ (
      require_session-Advances rules setup.crypto header now swept_at _ (λ user_id.
        post_deletion-Advances rules setup.crypto setup.deletion user_id code id issued_at))
  handle-Moves (cancel_deletion header now swept_at cancelled_at) = Moves-within order _ (
      require_session-Advances rules setup.crypto header now swept_at _
        (λ user_id. delete_deletion-Advances rules user_id cancelled_at))
  handle-Moves (confirm_deletion header now swept_at code record_id confirmed_at) =
      Moves-within order _ (
        require_session-Advances rules setup.crypto header now swept_at _ (λ user_id.
          post_confirmation-Advances rules setup.crypto setup.lower setup.iso user_id code record_id
            confirmed_at))
  handle-Moves (profile header now swept_at counted_at) = Moves-within order _ (
      require_session-Advances rules setup.crypto header now swept_at _
        (λ user_id. get_me-Advances rules setup.iso user_id counted_at))
  handle-Moves (health reachable) = Moves-pure order (check reachable)
  handle-Moves unknown = Moves-pure order (error_response 404 "Not found.")

  pub step-Moves : {s t : OtpState K} → Step setup s t → R s.world.db t.world.db
  step-Moves {s} (request r) = (handle-Moves r).at s
  step-Moves {s} (outbox_tick accepts) = (outbox-Advances rules accepts setup.outbox).at s.world
  step-Moves {s} (notice_tick max_retries template_id accepts) =
      (notice_tick-Advances rules accepts max_retries template_id setup.iso).at s.world
  step-Moves {s} (late_login user matches inputs) =
      (finish_login-Advances rules setup.crypto setup.lockout setup.expiry_seconds user matches
          inputs).at
        s.world
  step-Moves {s} (late_reset r hash now) = (commit_reset-Advances rules r hash now).at s.world
  step-Moves {s} (late_registration dto inputs) =
      (Moves-respond order _ created_response registration_error (
          create_user-Moves rules setup.crypto setup.otp setup.guard setup.policy setup.lower
            setup.named dto inputs)).at
        s

  pub run-Moves : {s t : OtpState K} → Reach setup s t → R s.world.db t.world.db
  run-Moves {s} here = order.reflexive s.world.db
  run-Moves {s} {t = u} (next {t} run step) =
      order.transitive s.world.db t.world.db u.world.db (run-Moves run) (step-Moves step)
