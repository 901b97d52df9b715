-- ===== src/Middleware/ErrorHandler/Agreement.antt =====
-- The error handler and the controllers' own catch blocks.
use test_specs_to_code.Common.{◌⊎◌}
use test_specs_to_code.Common.{arith}
use test_specs_to_code.Controllers.ActivationController.{activation_error}
use test_specs_to_code.Controllers.AdminController.{resend_error}
use test_specs_to_code.Controllers.DeletionController.{cancel_error, request_error}
use test_specs_to_code.Controllers.PasswordController.{reset_error}
use test_specs_to_code.Controllers.UserProfileController.{profile_error}
use test_specs_to_code.Common.{ℕ, String, ◌≡◌}
use test_specs_to_code.Model.{Exception}
use test_specs_to_code.Controllers.AuthController.{login_error}
use test_specs_to_code.Middleware.ErrorHandler.{translation}

-- The error handler answers what a controller translates itself with the same status: on every
-- exception login, activation, the password reset, the resend of a confirmation, the profile, the
-- request and the cancellation of a deletion either answer 500 or with the handler's status.
pub translation-agrees :
    (iso : ℕ → String) (e : Exception)
    → (((login_error iso e).status ≡ 500)
        ⊎ ((login_error iso e).status ≡ (translation iso e).status))
      × (((activation_error e).status ≡ 500)
          ⊎ ((activation_error e).status ≡ (translation iso e).status))
      × (((reset_error e).status ≡ 500) ⊎ ((reset_error e).status ≡ (translation iso e).status))
      × (((resend_error e).status ≡ 500) ⊎ ((resend_error e).status ≡ (translation iso e).status))
      × (((profile_error e).status ≡ 500) ⊎ ((profile_error e).status ≡ (translation iso e).status))
      × (((request_error e).status ≡ 500) ⊎ ((request_error e).status ≡ (translation iso e).status))
      × (((cancel_error e).status ≡ 500) ⊎ ((cancel_error e).status ≡ (translation iso e).status))
unfolding translation login_error activation_error reset_error resend_error profile_error
    request_error cancel_error
translation-agrees iso e = (
  ground arith,
  ground arith,
  ground arith,
  ground arith,
  ground arith,
  ground arith,
  ground arith,
)
