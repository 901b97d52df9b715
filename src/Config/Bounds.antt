-- ===== src/Config/Bounds.antt =====
-- What a configuration that has been loaded satisfies.
use test_specs_to_code.Common.{◌≤◌, String, ◌≡◌, arith}
use test_specs_to_code.Validators.PasswordPolicy.{PasswordPolicy}
use test_specs_to_code.Services.LoginGuard.{LockoutConfig}
use test_specs_to_code.Config.{Env, loaded, load_lockout, load_password_policy}

-- A lockout configuration that loads, whatever the environment, asks for at least one failed login
-- and locks for at least a minute.
pub load_lockout-bounds :
    (env : Env) (config : LockoutConfig)
    → load_lockout env ≡ loaded config
    → (1 ≤ config.login_lockout_threshold) × (1 ≤ config.login_lockout_duration_minutes)
unfolding load_lockout
load_lockout-bounds env config e = (ground arith, ground arith)

-- A password policy that loads, whatever the environment, has a minimum of at least one character,
-- a maximum of at most 1024, and a minimum that does not exceed the maximum.
pub load_password_policy-bounds :
    (lower : String → String) (env : Env) (policy : PasswordPolicy)
    → load_password_policy env lower ≡ loaded policy
    → (1 ≤ policy.minimum_length)
      × (policy.minimum_length ≤ policy.maximum_length)
      × (policy.maximum_length ≤ 1024)
unfolding load_password_policy
load_password_policy-bounds lower env policy e = (ground arith, ground arith, ground arith)
