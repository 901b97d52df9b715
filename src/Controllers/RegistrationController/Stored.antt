-- ===== src/Controllers/RegistrationController/Stored.antt =====
-- What stage 5 of a registration leaves when the code that activates the account is refused.
use test_specs_to_code.Common.{String, ◌==◌, ◌≡◌, refl, true, false, some, List, arith}
use test_specs_to_code.Common.Text.{trim}
use test_specs_to_code.Model.{
  UserEntity, is_pending, username_conflict, Constraint, Crypto, World, ok, thrown,
}
use test_specs_to_code.Http.{error_response, respond}
use test_specs_to_code.Repositories.UserRepository.{find_by_id}
use test_specs_to_code.Validators.PasswordPolicy.{PasswordPolicy}
use test_specs_to_code.Validators.UsernameUniquenessValidator.{normalise, check_uniqueness}
use test_specs_to_code.Services.RateLimitGuard.{RateLimitGuard}
use test_specs_to_code.Services.OtpService.{OtpConfig, OtpState, issue_otp}
use test_specs_to_code.Services.RegistrationService.{
  Registration, UserCreatedResult, pending_user, register,
}
use test_specs_to_code.Services.RegistrationService.Register.{register-answer, register-find}
use test_specs_to_code.Controllers.RegistrationController.{
  RegistrationInputs, create_user, created_response, registration_error,
}

module _ (crypto : Crypto) (config : OtpConfig) (policy : PasswordPolicy) (lower : String → String)
    (named : List Constraint → Constraint) {K : Type 0} (guard : RateLimitGuard K) where
  -- If the INSERT of a registration whose username is not blank succeeds and the rate limit then
  -- refuses the code, the registration is answered 500, yet its row stays: the account is found by
  -- its id, pending, with the username and the email that were given, and the uniqueness check of
  -- a second attempt with the same username is answered by the username conflict.
  pub create_user-refused :
      (dto : Registration) (inputs : RegistrationInputs) (s s' : OtpState K) (w : World)
      (r : UserCreatedResult)
      → register crypto lower named dto inputs.salt inputs.user_id inputs.now s.world ≡ (ok r, w)
      → (guard.allow inputs.user_id inputs.otp.asked_at s.counters).0 ≡ false
      → (trim dto.username == "") ≡ false
      → (respond
          (create_user crypto config policy lower named guard dto inputs)
          created_response
          registration_error
          s).1
        ≡ s'
      → ((respond
            (create_user crypto config policy lower named guard dto inputs)
            created_response
            registration_error
            s).0
          ≡ ok (error_response 500 "An unexpected error occurred during registration."))
        × ((u : UserEntity) × (find_by_id inputs.user_id s'.world.db ≡ some u)
            × (is_pending u.status ≡ true)
            × (u.username ≡ dto.username)
            × (u.email ≡ dto.email_address))
        × ((check_uniqueness lower (some dto.username) s'.world).0
            ≡ thrown (username_conflict (normalise lower dto.username)))
  unfolding create_user issue_otp registration_error check_uniqueness
  create_user-refused dto inputs s s' w r e refused filled left =
      let (answer, stored) =
        register-answer crypto lower named dto inputs.salt inputs.user_id inputs.now s.world w r
          e in
      let taken =
        register-find crypto lower named dto inputs.salt inputs.user_id inputs.now s.world w r e in
      let hash = crypto.hash_password inputs.salt dto.password in
      (
        ground arith,
        (pending_user lower dto inputs.user_id hash inputs.now, ground arith, refl, refl, refl),
        ground arith,
      )
