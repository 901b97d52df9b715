-- ===== src/Middleware/Guarded.antt =====
-- Who gets past the session middleware.
use test_specs_to_code.Common.{
  ℕ, String, ◌≡◌, ◌≢◌, ◌≤◌, refl, Option, some, none, arith, Option-cases, inl, inr,
}
use test_specs_to_code.Common.Text.{trim}
use test_specs_to_code.Model.{Crypto, World, ok, Result-cases}
use test_specs_to_code.Services.SessionService.{
  valid, invalid, not_found, expired, invalidated, account_suspended, validate_session,
  SessionValidationResult, invalidate_session,
}
use test_specs_to_code.Services.SessionService.Closing.{invalidate_session-final}
use test_specs_to_code.Middleware.{
  passed, after_prefix, bearer_prefix, reason_answer, result_answer, check_token,
  session_validation_middleware,
}

-- Only a valid result is passed on.
result_answer-passed :
    (result : SessionValidationResult) (user_id : String)
    → result_answer result ≡ passed user_id
    → result ≡ valid user_id
unfolding result_answer reason_answer
result_answer-passed (valid v) user_id e = ground arith
result_answer-passed (invalid not_found) user_id e = absurd (ground arith)
result_answer-passed (invalid expired) user_id e = absurd (ground arith)
result_answer-passed (invalid invalidated) user_id e = absurd (ground arith)
result_answer-passed (invalid account_suspended) user_id e = absurd (ground arith)

module _ (crypto : Crypto) where
  check_token-passed :
      (raw_token : String) (now swept_at : ℕ) (w : World) (user_id : String)
      → (check_token crypto raw_token now swept_at w).0 ≡ ok (passed user_id)
      → (validate_session crypto raw_token now swept_at w).0 ≡ ok (valid user_id)
  unfolding check_token
  check_token-passed raw_token now swept_at w user_id e =
      elim (Result-cases (validate_session crypto raw_token now swept_at w).0) [
        | inl (result, made) ↦
            let same : result_answer result ≡ passed user_id = ground arith in
            ground (arith, result_answer-passed result user_id same)
        | inr (x, failed) ↦ absurd (ground arith)
      ]

  -- A request that is passed on carries a bearer token whose session is valid at that time, and the
  -- user's id that it is given is the one of the session's owner.
  pub middleware-passed :
      (header : Option String) (now swept_at : ℕ) (w : World) (user_id : String)
      → (session_validation_middleware crypto header now swept_at w).0 ≡ ok (passed user_id)
      → (authorization : String) × (rest : String) × (header ≡ some authorization)
        × (after_prefix bearer_prefix authorization ≡ some rest)
        × ((validate_session crypto (trim rest) now swept_at w).0 ≡ ok (valid user_id))
  unfolding session_validation_middleware
  middleware-passed none now swept_at w user_id e = absurd (ground arith)
  middleware-passed (some authorization) now swept_at w user_id e =
      elim (Option-cases (after_prefix bearer_prefix authorization)) [
        | inl other ↦ absurd (ground arith)
        | inr (rest, bearer) ↦ (
          authorization,
          rest,
          refl,
          bearer,
          check_token-passed (trim rest) now swept_at w user_id (ground arith),
        )
      ]

  -- After a logout the middleware passes no request that carries the same token, at the same time
  -- or later.
  pub invalidate_session-middleware :
      (authorization rest user_id : String) (t closed_at now swept_at : ℕ) (w : World)
      → after_prefix bearer_prefix authorization ≡ some rest
      → t ≤ now
      → (session_validation_middleware crypto
          (some authorization)
          now
          swept_at
          (invalidate_session crypto (trim rest) t closed_at w).1).0
        ≢ ok (passed user_id)
  invalidate_session-middleware authorization rest user_id t closed_at now swept_at w bearer later
        passes =
      let w' = (invalidate_session crypto (trim rest) t closed_at w).1 in
      let (a, other, same, prefixed, is_valid) =
        middleware-passed (some authorization) now swept_at w' user_id passes in
      let is_rest : other ≡ rest = ground (arith, same, prefixed, bearer) in
      invalidate_session-final crypto (trim rest) t closed_at now swept_at w user_id later
        (rw is_rest at is_valid)
