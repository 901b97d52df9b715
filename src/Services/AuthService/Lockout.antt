-- ===== src/Services/AuthService/Lockout.antt =====
-- Consecutive failures lock an account: the counter across a sequence of logins.
use test_specs_to_code.Common.{
  ℕ, ◌+◌, ◌*◌, ◌<◌, String, ◌≡◌, refl, false, some, List, [], ◌∷◌, arith, eq_refl, eq_iff, leb,
  if◌then◌else◌, Option-cases, inl, inr, length,
}
use test_specs_to_code.Model.{UserEntity, thrown, account_locked, Crypto, World}
use test_specs_to_code.Repositories.UserRepository.{
  find_by_email, increment_failed_login_count, reset_failed_login_count, lock_account,
  failure_counted, failures_cleared, set_locked_until,
}
use test_specs_to_code.Repositories.UserRepository.Laws.{find_by_email-update}
use test_specs_to_code.Services.LoginGuard.{LockoutConfig, check_lockout, register_failure}
use test_specs_to_code.Services.AuthService.{LoginInputs, find_account, finish_login, login}
use test_specs_to_code.Services.AuthService.Outcomes.{MayLogIn, login-locked}

pub record Attempt : Type 0 where
  pub password : String
  pub inputs : LoginInputs

-- When a lockout applied at this time ends.
abbrev pub lockout_end : LockoutConfig → ℕ → ℕ
lockout_end config now = now + config.login_lockout_duration_minutes * 60 * 1000

-- The row as a failure leaves it.
abbrev pub after_failure : LockoutConfig → ℕ → UserEntity → UserEntity
after_failure config now user =
    if leb config.login_lockout_threshold (user.failed_login_count + 1)
    then record user { failed_login_count = 0; locked_until = some (lockout_end config now) }
    else record user { failed_login_count = user.failed_login_count + 1 }

register_failure-find :
    (config : LockoutConfig) (email : String) (user : UserEntity) (now : ℕ) (w : World)
    → find_by_email email w.db ≡ some user
    → find_by_email email (register_failure config user now w).1.db
      ≡ some (after_failure config now user)
unfolding register_failure increment_failed_login_count lock_account reset_failed_login_count
register_failure-find config email user now w listed =
    let db₁ = increment_failed_login_count user.id w.db in
    let db₂ = lock_account user.id (lockout_end config now) db₁ in
    ground (
      arith,
      eq_refl user.id,
      find_by_email-update email user.id failure_counted w.db (λ u. refl),
      find_by_email-update email user.id (set_locked_until (lockout_end config now)) db₁
          (λ u. refl),
      find_by_email-update email user.id failures_cleared db₂ (λ u. refl),
    )

module _ (crypto : Crypto) (lockout : LockoutConfig) (expiry_seconds : ℕ) where
  -- The attempt fails at the password, for the row as it stands.
  pub record FailsOn (user : UserEntity) (a : Attempt) : Type 0 where
    pub may : MayLogIn user a.inputs.checked_at
    pub wrong : crypto.compare_password a.password user.password_hash ≡ false

  abbrev pub AllFailOn : UserEntity → List Attempt → Type 0
  AllFailOn user [] = Unit
  AllFailOn user (a ∷ attempts) = FailsOn user a × AllFailOn user attempts

  -- The state after one login and after a sequence of them.
  pub after_login : String → Attempt → World → World
  after_login email a w = (login crypto lockout expiry_seconds email a.password a.inputs w).1

  pub after_logins : String → List Attempt → World → World
  after_logins email [] w = w
  after_logins email (a ∷ attempts) w = after_logins email attempts (after_login email a w)

  after_login-find :
      (email : String) (a : Attempt) (w : World) (user : UserEntity)
      → find_by_email email w.db ≡ some user
      → FailsOn user a
      → find_by_email email (after_login email a w).db
        ≡ some (after_failure lockout a.inputs.failed_at user)
  unfolding after_login login find_account finish_login check_lockout
  after_login-find email a w user listed fails =
      let counted = register_failure-find lockout email user a.inputs.failed_at w listed in
      elim (Option-cases user.locked_until) [
        | inl free ↦ ground (arith, fails.may.active, fails.wrong, counted)
        | inr (until, locked) ↦
            ground (arith, fails.may.active, fails.wrong, fails.may.unlocked until locked, counted)
      ]

  -- The counter is not what an attempt fails on.
  AllFailOn-count :
      (user : UserEntity) (n : ℕ) (attempts : List Attempt)
      → AllFailOn user attempts
      → AllFailOn (record user { failed_login_count = n }) attempts
  AllFailOn-count user n [] fails = tt
  AllFailOn-count user n (a ∷ attempts) (now, later) = (
    record {
      may = record { active = now.may.active; unlocked = now.may.unlocked };
      wrong = now.wrong;
    },
    AllFailOn-count user n attempts later,
  )

  -- The counter moves on with each failure as long as it stays below the threshold.
  after_logins-find :
      (email : String) (attempts : List Attempt) (w : World) (user : UserEntity)
      → find_by_email email w.db ≡ some user
      → AllFailOn user attempts
      → user.failed_login_count + length attempts < lockout.login_lockout_threshold
      → find_by_email email (after_logins email attempts w).db
        ≡ some (record user { failed_login_count = user.failed_login_count + length attempts })
  unfolding after_logins
  after_logins-find email [] w user listed fails below = ground arith
  after_logins-find email (a ∷ attempts) w user listed (now, later) below =
      let counted = after_login-find email a w user listed now in
      let next = record user { failed_login_count = user.failed_login_count + 1 } in
      let step : find_by_email email (after_login email a w).db ≡ some next = ground arith in
      let rest =
        after_logins-find email attempts (after_login email a w) next step
          (AllFailOn-count user (user.failed_login_count + 1) attempts later) (omega arith) in
      ground arith

  -- An account that is not locked, and whose counter and failures together reach the threshold
  -- with one more failure, is locked by that failure for the configured time: every login before
  -- its end, whatever the password, is refused and writes nothing.
  pub lockout_at_threshold :
      (email : String) (attempts : List Attempt) (last : Attempt) (w : World) (user : UserEntity)
      → find_by_email email w.db ≡ some user
      → AllFailOn user attempts
      → FailsOn user last
      → user.failed_login_count + length attempts + 1 ≡ lockout.login_lockout_threshold
      → (password : String) (inputs : LoginInputs)
      → inputs.checked_at < lockout_end lockout last.inputs.failed_at
      → (let locked = after_login email last (after_logins email attempts w) in
          login crypto lockout expiry_seconds email password inputs locked
          ≡ (thrown (account_locked (lockout_end lockout last.inputs.failed_at)), locked))
  lockout_at_threshold email attempts last w user listed fails fails_last reached password inputs
        early =
      let before = record user { failed_login_count = user.failed_login_count + length attempts } in
      let w₁ = after_logins email attempts w in
      let until = lockout_end lockout last.inputs.failed_at in
      let counted = after_logins-find email attempts w user listed fails (omega arith) in
      let fails_before =
        AllFailOn-count user before.failed_login_count (last ∷ []) (fails_last, tt) in
      let row = after_login-find email last w₁ before counted fails_before.0 in
      login-locked crypto lockout expiry_seconds email password inputs (after_login email last w₁)
        (record before { failed_login_count = 0; locked_until = some until }) until (ground arith)
        refl early

  -- Fewer failures than the threshold allows are counted and lock nothing: the account may log in
  -- at every time at which it could before.
  pub no_lockout_below :
      (email : String) (attempts : List Attempt) (w : World) (user : UserEntity)
      → find_by_email email w.db ≡ some user
      → AllFailOn user attempts
      → user.failed_login_count + length attempts < lockout.login_lockout_threshold
      → (now : ℕ) → MayLogIn user now
      → (u : UserEntity) × (find_by_email email (after_logins email attempts w).db ≡ some u)
        × (u.failed_login_count ≡ user.failed_login_count + length attempts)
        × MayLogIn u now
  no_lockout_below email attempts w user listed fails below now may = (
    record user { failed_login_count = user.failed_login_count + length attempts },
    after_logins-find email attempts w user listed fails below,
    refl,
    record { active = may.active; unlocked = may.unlocked },
  )

  -- Logins that overlap: each has read the row before any of them writes to it.
  pub after_overlapping : UserEntity → List LoginInputs → World → World
  after_overlapping user [] w = w
  after_overlapping user (inputs ∷ more) w =
      after_overlapping user more (finish_login crypto lockout expiry_seconds user false inputs w).1

  -- Failing logins that overlap, all having read a counter that is at least two below the
  -- threshold, lock nothing however many they are: each adds one to the stored counter, so it can
  -- run past the threshold.
  pub overlapping_logins :
      (email : String) (user row : UserEntity) (all : List LoginInputs) (w : World)
      → row.id ≡ user.id
      → find_by_email email w.db ≡ some row
      → user.failed_login_count + 1 < lockout.login_lockout_threshold
      → find_by_email email (after_overlapping user all w).db
        ≡ some (record row { failed_login_count = row.failed_login_count + length all })
  unfolding after_overlapping finish_login register_failure increment_failed_login_count
  overlapping_logins email user row [] w same listed below = ground arith
  overlapping_logins email user row (inputs ∷ more) w same listed below =
      let w₁ = (finish_login crypto lockout expiry_seconds user false inputs w).1 in
      let next = failure_counted row in
      let step : find_by_email email w₁.db ≡ some next = ground (
        arith,
        eq_iff row.id user.id,
        find_by_email-update email user.id failure_counted w.db (λ u. refl),
      ) in
      let rest = overlapping_logins email user next more w₁ same step below in ground arith
