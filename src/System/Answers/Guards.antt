-- ===== src/System/Answers/Guards.antt =====
-- What the answers of the routes give away, and who is let in.
use test_specs_to_code.Common.{Option-cases}
use test_specs_to_code.Model.{>>=-eq-ok}
use test_specs_to_code.Common.{ap, inl, inr, ◌⊎◌}
use test_specs_to_code.Common.Text.{trim}
use test_specs_to_code.Controllers.PasswordController.{post_recovery, recovery_response}
use test_specs_to_code.Http.{Field, Response, filled, respond}
use test_specs_to_code.Middleware.{after_prefix, bearer_prefix}
use test_specs_to_code.Services.PasswordRecoveryService.{RecoveryConfig, request_recovery}
use test_specs_to_code.Services.SessionService.{valid, validate_session}
use test_specs_to_code.Common.{ℕ, String, ◌≡◌, ◌≢◌, refl, Option, some, arith}
use test_specs_to_code.Model.{Crypto, World, Exec, Result, ok, thrown}
use test_specs_to_code.Middleware.{
  Answer, passed, refused, reason_answer, result_answer, session_validation_middleware, check_token,
}
use test_specs_to_code.Middleware.Guarded.{middleware-passed}
use test_specs_to_code.System.{require_session, after_session}

respond-constant :
    {S A : Type 0} (m : Exec S A) (r : Response) (s : S) → (respond m (λ a. r) (λ e. r) s).0 ≡ ok r
respond-constant {S} {A} m r s = go (m s)
  where
    go :
        (o : Result A × S)
        → (elim o.0 as (λ x. Result Response × S) [ ok a ↦ (ok r, o.1) | thrown e ↦ (ok r, o.1) ]).0
          ≡ ok r
    go (ok a, t) = refl
    go (thrown e, t) = refl

-- The answer to a request for a recovery link depends on the body alone: it is the same in any two
-- states, so it does not tell whether the account exists, nor whether a row could be stored.
pub post_recovery-uniform :
    (config : RecoveryConfig) (email : Field) (token id token' id' : String)
    (requested_at requested_at' : ℕ) (w w' : World)
    → (post_recovery config email token id requested_at w).0
      ≡ (post_recovery config email token' id' requested_at' w').0
unfolding post_recovery
post_recovery-uniform config email token id token' id' requested_at requested_at' w w' =
    elim (Option-cases (filled email)) [
      | inl missing ↦ ground (arith, missing)
      | inr (e, given) ↦ ground (
        arith,
        given,
        respond-constant (request_recovery config (trim e) token id requested_at) recovery_response
            w,
        respond-constant (request_recovery config (trim e) token' id' requested_at')
            recovery_response w',
      )
    ]

module _ (crypto : Crypto) where
  middleware-refused :
      (header : Option String) (now swept_at : ℕ) (w : World) (status : ℕ) (code message : String)
      → (session_validation_middleware crypto header now swept_at w).0
        ≡ ok (refused status code message)
      → (status ≡ 401) ⊎ (status ≡ 403)
  unfolding session_validation_middleware check_token result_answer reason_answer
  middleware-refused header now swept_at w status code message e = ground arith

  -- A protected route that answers with a status other than 401 and 403 has been called with a
  -- bearer token whose session is valid, and what it answers and does is what its handler does for
  -- the owner of that session, in the state that the check of the session left.
  pub require_session-admits :
      (header : Option String) (now swept_at : ℕ) (next : String → Exec World Response)
      (w w' : World) (r : Response)
      → require_session crypto header now swept_at next w ≡ (ok r, w')
      → r.status ≢ 401
      → r.status ≢ 403
      → (authorization : String) × (rest : String) × (user_id : String) × (header
          ≡ some authorization)
        × (after_prefix bearer_prefix authorization ≡ some rest)
        × ((validate_session crypto (trim rest) now swept_at w).0 ≡ ok (valid user_id))
        × (next user_id (session_validation_middleware crypto header now swept_at w).1 ≡ (ok r, w'))
  unfolding require_session
  require_session-admits header now swept_at next w w' r e not_401 not_403 =
      let (a, v, checked, rest) =
        >>=-eq-ok (session_validation_middleware crypto header now swept_at)
          (λ answer. after_session next answer) w w' r e in
      go a v checked rest
    where
      go :
          (a : Answer) (v : World)
          → session_validation_middleware crypto header now swept_at w ≡ (ok a, v)
          → after_session next a v ≡ (ok r, w')
          → (authorization : String) × (rest : String) × (user_id : String) × (header
              ≡ some authorization)
            × (after_prefix bearer_prefix authorization ≡ some rest)
            × ((validate_session crypto (trim rest) now swept_at w).0 ≡ ok (valid user_id))
            × (next user_id (session_validation_middleware crypto header now swept_at w).1
                ≡ (ok r, w'))
      go (passed user_id) v checked rest =
          let (authorization, tail, given, prefixed, is_valid) =
            middleware-passed crypto header now swept_at w user_id (ap (λ o. o.0) checked) in
          (
            authorization,
            tail,
            user_id,
            given,
            prefixed,
            is_valid,
            cc (rest, ap (λ o. o.1) checked),
          )
      go (refused status code message) v checked rest =
          elim (middleware-refused header now swept_at w status code message
            (ap (λ o. o.0) checked)) [
              | inl h ↦ absurd (ground arith)
              | inr h ↦ absurd (ground arith)
            ]
