-- ===== src/Services/RateLimitGuard/Window.antt =====
-- How many requests the guard lets through in one window.
use text.Mathlib.TextLemmas.{append_cancel_left}
use test_specs_to_code.Common.{
  ℕ, suc, ◌+◌, ◌*◌, ◌-◌, ◌<◌, String, ◌==◌, ◌≡◌, ◌≢◌, Bool, ◌&&◌, none, some, List, [], ◌∷◌, arith,
  leb, if◌then◌else◌, eq_iff, eq_refl, Bool-cases, inl, inr,
}
use test_specs_to_code.Services.RateLimitGuard.{live, incremented, Redis, rate_key, allow}

-- A request for a code: who asks, and when.
pub record Call : Type 0 where
  pub user_id : String
  pub at : ℕ

module _ (redis : Redis) (max_attempts window_minutes : ℕ) (user_id : String) where
  abbrev window : ℕ
  window = window_minutes * 60 * 1000

  -- The requests of this user among those of all users, and the number of them that were let
  -- through.
  abbrev pub is_own : Call → Bool
  is_own c = c.user_id == user_id

  abbrev pub own_count : List Call → ℕ
  own_count [] = 0
  own_count (c ∷ calls) = (if is_own c then 1 else 0) + own_count calls

  pub allowed_count : List Call → redis.Store → ℕ
  allowed_count [] s = 0
  allowed_count (c ∷ calls) s =
      let (allowed, s') = allow redis max_attempts window_minutes c.user_id c.at s in
      (if is_own c && allowed then 1 else 0) + allowed_count calls s'

  abbrev pub AllBefore : ℕ → List Call → Type 0
  AllBefore end [] = Unit
  AllBefore end (c ∷ calls) = (c.at < end) × AllBefore end calls

  -- A request of another user leaves this one's counter.
  allow-other :
      (other : String) (now : ℕ) (s : redis.Store)
      → other ≢ user_id
      → redis.under (allow redis max_attempts window_minutes other now s).1 (rate_key user_id)
        ≡ redis.under s (rate_key user_id)
  unfolding allow
  allow-other other now s apart =
      let keys : rate_key other ≢ rate_key user_id =
        λ same. apart (append_cancel_left "otp:rl:" other user_id same) in
      let counted = redis.incr_other (rate_key other) (rate_key user_id) now s keys in
      let s₁ = (redis.incr (rate_key other) now s).1 in
      let kept =
        redis.expire_other (rate_key other) (rate_key user_id) (window_minutes * 60) now s₁ keys in
      ground (arith, counted, kept)

  -- A request inside a running window counts on and leaves the window's end.
  allow-running :
      (now end n : ℕ) (s : redis.Store)
      → redis.under s (rate_key user_id) ≡ some (record { count = suc n; dropped_at = some end })
      → now < end
      → ((allow redis max_attempts window_minutes user_id now s).0 ≡ leb (n + 2) max_attempts)
        × (redis.under (allow redis max_attempts window_minutes user_id now s).1 (rate_key user_id)
            ≡ some (record { count = suc (suc n); dropped_at = some end }))
  unfolding allow live incremented
  allow-running now end n s held early =
      ground (
        arith,
        redis.incr_answer (rate_key user_id) now s,
        redis.incr_self (rate_key user_id) now s,
      )

  -- The first request opens a window.
  allow-first :
      (now : ℕ) (s : redis.Store)
      → live now (redis.under s (rate_key user_id)) ≡ none
      → 0 < window_minutes
      → ((allow redis max_attempts window_minutes user_id now s).0 ≡ leb 1 max_attempts)
        × (redis.under (allow redis max_attempts window_minutes user_id now s).1 (rate_key user_id)
            ≡ some (record { count = 1; dropped_at = some (now + window) }))
  unfolding allow live incremented
  allow-first now s absent some_time =
      let s₁ = (redis.incr (rate_key user_id) now s).1 in
      ground (
        arith,
        redis.incr_answer (rate_key user_id) now s,
        redis.incr_self (rate_key user_id) now s,
        redis.expire_self (rate_key user_id) (window_minutes * 60) now s₁
            (record { count = 1; dropped_at = none }),
      )

  allowed_count-running :
      (calls : List Call) (end n : ℕ) (s : redis.Store)
      → redis.under s (rate_key user_id) ≡ some (record { count = suc n; dropped_at = some end })
      → AllBefore end calls
      → allowed_count calls s ≡ (
          if leb (n + 1 + own_count calls) max_attempts
          then own_count calls
          else max_attempts - (n + 1))
  unfolding allowed_count
  allowed_count-running [] end n s held early = ground arith
  allowed_count-running (c ∷ calls) end n s held (first, rest) =
      let s' = (allow redis max_attempts window_minutes c.user_id c.at s).1 in
      elim (Bool-cases (is_own c)) [
        | inl own ↦
            let same = (eq_iff c.user_id user_id).0 own in
            let (answer, held') = rw (← same) at (allow-running c.at end n s held first) in
            ground (
              arith,
              own,
              answer,
              allowed_count-running calls end (suc n) s' (rw (← same) held') rest,
            )
        | inr other ↦
            let apart : c.user_id ≢ user_id =
              λ same. cc (other, (eq_iff c.user_id user_id).1 same) in
            let kept = allow-other c.user_id c.at s apart in
            ground (arith, other, allowed_count-running calls end n s' (rw kept held) rest)
      ]

  -- Among the requests of all users from one that opens a window of this user to the end of that
  -- window, at most the configured number of this user's are let through: all of them, if they are
  -- no more, and that number otherwise, whatever the other users send.
  pub allowed_count-window :
      (first : ℕ) (calls : List Call) (s : redis.Store)
      → live first (redis.under s (rate_key user_id)) ≡ none
      → 0 < window_minutes
      → AllBefore (first + window_minutes * 60 * 1000) calls
      → (let all = record { user_id = user_id; at = first } ∷ calls in
          allowed_count all s
          ≡ (if leb (own_count all) max_attempts then own_count all else max_attempts))
  unfolding allowed_count
  allowed_count-window first calls s absent some_time early =
      let (answer, held) = allow-first first s absent some_time in
      let s' = (allow redis max_attempts window_minutes user_id first s).1 in
      ground (
        arith,
        eq_refl user_id,
        answer,
        allowed_count-running calls (first + window) 0 s' held early,
      )
