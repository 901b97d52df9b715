-- ===== src/Examples/Mails.antt =====
-- Bob's confirmation mail, his activation, and the password policy on a password.
use test_specs_to_code.Table.{select_first}
use test_specs_to_code.Common.{◌≡◌, ◌↔◌, refl, true, List, Bool, [], ◌∷◌, ◌++◌}
use test_specs_to_code.Repositories.Constraints.{broken_if}
use test_specs_to_code.Model.{World, thrown, constraint_failed, Constraint, unique, foreign_key}
use test_specs_to_code.Repositories.UserRepository.{find_by_id}
use test_specs_to_code.Repositories.TokenRepository
use test_specs_to_code.Repositories.EmailRecordRepository
use test_specs_to_code.Services.EmailDispatchService.{resend_confirmation}
use test_specs_to_code.Services.EmailDispatchService.Resend.{
  resend_confirmation-again, resend_confirmation-no_token,
}
use test_specs_to_code.Services.ActivationService.{activate}
use test_specs_to_code.Validators.PasswordPolicy.{evaluate}
use test_specs_to_code.Validators.PasswordPolicy.Rules.{Conforms, evaluate_iff}
use test_specs_to_code.Examples.Fixtures.{bob, start, invited, notified, default_policy}

resend_confirmation-again_example :
    (before : List Constraint) × (after : List Constraint) × (resend_confirmation "u2" "e2" 1000
        notified
      ≡ (
        thrown
            (constraint_failed (before ++ (unique "registration_email_records.user_id" ∷ after))),
        notified,
      ))
unfolding find_by_id EmailRecordRepository.find_by_user_id select_first
resend_confirmation-again_example =
    resend_confirmation-again "u2" "e2" 1000 notified bob refl refl
      (λ none_sent. absurd (cc none_sent))

resend_confirmation-no_token_example :
    (taken : Bool) × (sent : Bool) × (resend_confirmation "u2" "e2" 1000 start ≡ (
      thrown (
          constraint_failed (
            broken_if taken (unique "registration_email_records.record_id")
            ++ (broken_if sent (unique "registration_email_records.user_id")
                ++ (foreign_key ∷ [])))),
      start,
    ))
unfolding find_by_id TokenRepository.find_by_user_id select_first
resend_confirmation-no_token_example =
    resend_confirmation-no_token "u2" "e2" 1000 start bob refl refl refl refl

abbrev pub activated : World
activated = (activate "activate-bob" 1000 1001 invited).1

evaluate_iff_example :
    ((evaluate "Chang3d-it" default_policy).valid ≡ true) ↔ Conforms "Chang3d-it" default_policy
evaluate_iff_example = evaluate_iff "Chang3d-it" default_policy
