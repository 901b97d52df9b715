-- ===== src/Examples/Logins.antt =====
-- Logins: alice's password, wrong ones, and the lockout after three of those.
use test_specs_to_code.Table.{update_where}
use test_specs_to_code.Repositories.Constraints.{user_exists}
use test_specs_to_code.Repositories.UserRepository.{reset_failed_login_count}
use test_specs_to_code.Repositories.UserRepository.{update_user}
use test_specs_to_code.Repositories.UserRepository.{update_last_login_at}
use test_specs_to_code.Repositories.SessionRepository.{session_violations}
use test_specs_to_code.Services.SessionService.{create_session}
use test_specs_to_code.Services.LoginGuard.{check_lockout}
use test_specs_to_code.Table.{select_first}
use test_specs_to_code.Common.{arith, ◌≡◌, refl, some, [], ◌∷◌}
use test_specs_to_code.Model.{UserEntity, World, thrown, invalid_credentials, account_locked}
use test_specs_to_code.Repositories.UserRepository.{find_by_email}
use test_specs_to_code.Services.AuthService.{login}
use test_specs_to_code.Services.AuthService.Outcomes.{
  MayLogIn, LoggedIn, login-LoggedIn, login_uniform,
}
use test_specs_to_code.Services.AuthService.Lockout.{
  Attempt, FailsOn, after_login, after_logins, after_overlapping, lockout_at_threshold,
  no_lockout_below, overlapping_logins,
}
use test_specs_to_code.Examples.Fixtures.{demo_crypto, alice, start, three_strikes, at_time}

abbrev pub logged_in : World
logged_in =
    (login demo_crypto three_strikes 60 "alice@example.com" "Secret-1" (at_time 1000) start).1

login-LoggedIn_example :
    LoggedIn demo_crypto three_strikes 60 "alice@example.com" "Secret-1"
      (at_time 1000)
      start
      logged_in
      (record { token = "token"; expires_at = 61000 })
unfolding login find_by_email select_first check_lockout create_session session_violations
    update_last_login_at update_user reset_failed_login_count user_exists update_where
login-LoggedIn_example =
    login-LoggedIn demo_crypto three_strikes 60 "alice@example.com" "Secret-1" (at_time 1000) start
      logged_in (record { token = "token"; expires_at = 61000 }) refl

pub unlocked_alice : MayLogIn alice 1000
unlocked_alice = record { active = refl; unlocked = λ until h. absurd (cc h) }

login_uniform_example :
    (login demo_crypto three_strikes 60 "eve@example.com" "guess" (at_time 1000) start
      ≡ (thrown invalid_credentials, start))
    × ((login demo_crypto three_strikes 60 "alice@example.com" "guess" (at_time 1000) start).0
        ≡ thrown invalid_credentials)
unfolding find_by_email select_first
login_uniform_example =
    login_uniform demo_crypto three_strikes 60 "eve@example.com" "alice@example.com" "guess"
      (at_time 1000) start alice refl refl unlocked_alice refl

abbrev pub guess : Attempt
guess = record { password = "guess"; inputs = at_time 1000 }

pub guess_fails : FailsOn demo_crypto three_strikes 60 alice guess
guess_fails = record { may = unlocked_alice; wrong = refl }

lockout_at_threshold_example :
    login demo_crypto three_strikes 60 "alice@example.com" "Secret-1" (at_time 2000) (
      after_login demo_crypto three_strikes 60 "alice@example.com" guess
        (after_logins demo_crypto three_strikes 60 "alice@example.com" (guess ∷ guess ∷ []) start))
    ≡ (
      thrown (account_locked 901000),
      after_login demo_crypto three_strikes 60 "alice@example.com" guess (
          after_logins demo_crypto three_strikes 60 "alice@example.com" (guess ∷ guess ∷ []) start),
    )
unfolding find_by_email select_first
lockout_at_threshold_example =
    lockout_at_threshold demo_crypto three_strikes 60 "alice@example.com" (guess ∷ guess ∷ []) guess
      start alice refl (guess_fails, (guess_fails, tt)) guess_fails refl "Secret-1" (at_time 2000)
      (omega arith)

no_lockout_below_example :
    (u : UserEntity) × (find_by_email "alice@example.com"
        (after_logins demo_crypto three_strikes 60 "alice@example.com"
          (guess ∷ guess ∷ [])
          start).db
      ≡ some u)
    × (u.failed_login_count ≡ 2)
    × MayLogIn u 1000
unfolding find_by_email select_first
no_lockout_below_example =
    no_lockout_below demo_crypto three_strikes 60 "alice@example.com" (guess ∷ guess ∷ []) start
      alice refl (guess_fails, (guess_fails, tt)) (omega arith) 1000 unlocked_alice

overlapping_logins_example :
    find_by_email "alice@example.com"
      (after_overlapping demo_crypto three_strikes 60 alice
        (at_time 1000 ∷ at_time 1000 ∷ at_time 1000 ∷ at_time 1000 ∷ [])
        start).db
    ≡ some (record alice { failed_login_count = 4 })
unfolding find_by_email select_first
overlapping_logins_example =
    overlapping_logins demo_crypto three_strikes 60 "alice@example.com" alice alice
      (at_time 1000 ∷ at_time 1000 ∷ at_time 1000 ∷ at_time 1000 ∷ []) start refl refl (omega arith)
