-- ===== src/Services/RateLimitGuard.antt =====
-- BACKEND/src/services/rate-limit.guard.ts. Redis is a service of its own: `Redis` holds the two
-- commands that the guard sends and what their documentation says of them.
pub mod Window
use Prim.Native.String
use test_specs_to_code.Common.{
  ℕ, ◌+◌, ◌*◌, String, ◌≡◌, ◌≢◌, Bool, ◌&&◌, Option, none, some, leb, if◌then◌else◌,
}

-- What Redis holds under a key: a counter, and the time at which it is dropped, if it has one.
pub record Counter : Type 0 where
  pub count : ℕ
  pub dropped_at : Option ℕ

-- The counter under a key as a command at this time finds it.
unfoldable pub live : ℕ → Option Counter → Option Counter
live now none = none
live now (some c) = elim c.dropped_at [
  | none ↦ some c
  | some t ↦ if leb t now then none else some c
]

-- INCR counts an absent key as 0 and keeps the time at which a present one is dropped.
unfoldable pub incremented : Option Counter → Counter
incremented none = record { count = 1; dropped_at = none }
incremented (some c) = record c { count = c.count + 1 }

-- Times are in milliseconds.
pub record Redis : Type 1 where
  pub Store : Type 0
  pub under : Store → String → Option Counter
  -- INCR key
  pub incr : String → ℕ → Store → ℕ × Store
  -- EXPIRE key seconds
  pub expire : String → ℕ → ℕ → Store → Store
  pub incr_answer :
      (k : String) (now : ℕ) (s : Store)
      → (incr k now s).0 ≡ (incremented (live now (under s k))).count
  pub incr_self :
      (k : String) (now : ℕ) (s : Store)
      → under (incr k now s).1 k ≡ some (incremented (live now (under s k)))
  pub incr_other :
      (k j : String) (now : ℕ) (s : Store) → k ≢ j → under (incr k now s).1 j ≡ under s j
  pub expire_self :
      (k : String) (seconds now : ℕ) (s : Store) (c : Counter)
      → live now (under s k) ≡ some c
      → under (expire k seconds now s) k
        ≡ some (record c { dropped_at = some (now + seconds * 1000) })
  pub expire_other :
      (k j : String) (seconds now : ℕ) (s : Store)
      → k ≢ j
      → under (expire k seconds now s) j ≡ under s j

-- The interface that the OTP service uses, over the state that it keeps.
pub record RateLimitGuard (K : Type 0) : Type 0 where
  pub allow : String → ℕ → K → Bool × K

abbrev pub rate_key : String → String
rate_key user_id = String.◌++◌ "otp:rl:" user_id

-- `RedisRateLimitGuard.allow`
unfoldable pub allow :
    (redis : Redis) (max_attempts window_minutes : ℕ)
    → String
    → ℕ
    → redis.Store
    → Bool × redis.Store
allow redis max_attempts window_minutes user_id now s =
    let (attempts, s₁) = redis.incr (rate_key user_id) now s in
    let s₂ = redis.expire (rate_key user_id) (window_minutes * 60) now s₁ in
    (leb attempts max_attempts, (if leb attempts 1 && leb 1 attempts then s₂ else s₁))

pub redis_guard : (redis : Redis) → ℕ → ℕ → RateLimitGuard redis.Store
unfolding allow
redis_guard redis max_attempts window_minutes = record {
  allow = allow redis max_attempts window_minutes;
}
