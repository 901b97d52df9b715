-- ===== src/Examples/Limits.antt =====
-- The rate limit on a Redis that is a function from keys to counters.
use test_specs_to_code.Common.{
  arith, ◌≡◌, ◌+◌, ◌*◌, ℕ, String, Option, none, some, [], ◌∷◌, ◌==◌, eq_refl, eq_iff, refl,
  if◌then◌else◌,
}
use test_specs_to_code.Services.RateLimitGuard.{Counter, live, incremented, Redis}
use test_specs_to_code.Services.RateLimitGuard.Window.{Call, allowed_count, allowed_count-window}

abbrev pub put : String → Option Counter → (String → Option Counter) → String → Option Counter
put k c s j = if j == k then c else s j

-- EXPIRE does nothing to an absent key.
abbrev pub dropping_at : ℕ → Option Counter → Option Counter
dropping_at t none = none
dropping_at t (some c) = some (record c { dropped_at = some t })

unfoldable pub demo_redis : Redis
unfolding live incremented
demo_redis = record {
  Store = String → Option Counter;
  under = λ s k. s k;
  incr = λ k now s. let c = incremented (live now (s k)) in (c.count, put k (some c) s);
  expire = λ k seconds now s. put k (dropping_at (now + seconds * 1000) (live now (s k))) s;
  incr_answer = λ k now s. refl;
  incr_self = λ k now s. ground (arith, eq_refl k);
  incr_other = λ k j now s apart. ground (arith, eq_iff j k);
  expire_self = λ k seconds now s c held. ground (arith, eq_refl k);
  expire_other = λ k j seconds now s apart. ground (arith, eq_iff j k);
}

unfoldable pub no_counters : demo_redis.Store
unfolding demo_redis
no_counters k = none

abbrev pub ask : String → ℕ → Call
ask user_id at = record { user_id = user_id; at = at }

-- Four requests of a user in a window that lets three through, and two of another user.
allowed_count-window_example :
    allowed_count demo_redis 3 5 "u1"
      (ask "u1" 1000
        ∷ ask "u2" 1500
        ∷ ask "u1" 2000
        ∷ ask "u2" 2500
        ∷ ask "u1" 3000
        ∷ ask "u1" 4000
        ∷ [])
      no_counters
    ≡ 3
unfolding live demo_redis no_counters
allowed_count-window_example =
    allowed_count-window demo_redis 3 5 "u1" 1000
      (ask "u2" 1500 ∷ ask "u1" 2000 ∷ ask "u2" 2500 ∷ ask "u1" 3000 ∷ ask "u1" 4000 ∷ [])
      no_counters refl (omega arith) (omega arith)
