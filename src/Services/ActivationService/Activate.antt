-- ===== src/Services/ActivationService/Activate.antt =====
-- Activating an account by its token.
use test_specs_to_code.Common.{not, ◌||◌}
use test_specs_to_code.Model.{UserEntity, is_pending}
use test_specs_to_code.Repositories.UserRepository.{find_by_id}
use test_specs_to_code.Services.ActivationService.{require_pending}
use test_specs_to_code.Common.{
  ℕ, ◌≤◌, String, ◌≡◌, refl, true, false, none, some, arith, eq_refl, ltb, if◌then◌else◌,
  Option-cases, inl, inr,
}
use test_specs_to_code.Table.Laws.{select_first-update}
use test_specs_to_code.Model.{
  AccountStatus, ActivationToken, ok, thrown, token_not_found, token_expired, token_consumed, World,
}
use test_specs_to_code.Repositories.UserRepository.{update_status, update_user}
use test_specs_to_code.Repositories.TokenRepository.{
  has_id, has_token_value, find_by_token_value, mark_consumed, consumed_token,
}
use test_specs_to_code.Services.ActivationService.{ActivationResult, activate}

find_by_token_value-activated :
    (token_value user_id : String) (at : ℕ) (w : World) (t : ActivationToken)
    → find_by_token_value token_value w.db ≡ some t
    → find_by_token_value token_value
        (mark_consumed t.id at (update_status user_id AccountStatus.active at w.db))
      ≡ some (consumed_token at t)
unfolding find_by_token_value mark_consumed update_status update_user
find_by_token_value-activated token_value user_id at w t found = ground (
  arith,
  found,
  eq_refl t.id,
  select_first-update (has_token_value token_value) (has_id t.id) (consumed_token at)
      w.db.activation_tokens (λ r. refl),
)

-- The branches of an activation whose token is known.
pub activate-no_token :
    (token_value : String) (now activated_at : ℕ) (w : World)
    → find_by_token_value token_value w.db ≡ none
    → activate token_value now activated_at w ≡ (thrown token_not_found, w)
unfolding activate
activate-no_token token_value now activated_at w missing = ground arith

pub activate-no_user :
    (token_value : String) (now activated_at : ℕ) (w : World) (t : ActivationToken)
    → find_by_token_value token_value w.db ≡ some t
    → find_by_id t.user_id w.db ≡ none
    → (activate token_value now activated_at w).1 ≡ w
unfolding activate require_pending
activate-no_user token_value now activated_at w t found missing = ground arith

-- The branches of an activation whose token and account are known.
pub activate-checks :
    (token_value : String) (now activated_at : ℕ) (w : World) (t : ActivationToken) (u : UserEntity)
    → find_by_token_value token_value w.db ≡ some t
    → find_by_id t.user_id w.db ≡ some u
    → (activate token_value now activated_at w).1 ≡ (
        if ltb t.expires_at now || (t.consumed || not (is_pending u.status)) then w else record w {
          db =
              mark_consumed t.id activated_at
                (update_status u.id AccountStatus.active activated_at w.db);
        })
unfolding activate require_pending
activate-checks token_value now activated_at w t u found listed = ground arith

activate-consumed :
    (token_value : String) (now activated_at : ℕ) (w : World) (t : ActivationToken)
    → find_by_token_value token_value w.db ≡ some t
    → t.consumed ≡ true
    → activate token_value now activated_at w
      ≡ (if ltb t.expires_at now then (thrown token_expired, w) else (thrown token_consumed, w))
unfolding activate
activate-consumed token_value now activated_at w t found used = ground arith

-- The account that an activation which returned has found pending, and the state that it left.
activate-ok :
    (token_value : String) (now activated_at : ℕ) (w w' : World) (r : ActivationResult)
    (t : ActivationToken)
    → find_by_token_value token_value w.db ≡ some t
    → activate token_value now activated_at w ≡ (ok r, w')
    → (now ≤ t.expires_at)
      × (t.consumed ≡ false)
      × (w' ≡ record w {
        db =
            mark_consumed t.id activated_at
              (update_status r.user_id AccountStatus.active activated_at w.db);
      })
unfolding activate
activate-ok token_value now activated_at w w' r t found e =
    (ground arith, ground arith, ground arith)

-- An activation that returned leaves its token consumed.
pub activate-uses :
    (token_value : String) (now activated_at : ℕ) (w w' : World) (r : ActivationResult)
    → activate token_value now activated_at w ≡ (ok r, w')
    → (t : ActivationToken) × (find_by_token_value token_value w.db ≡ some t)
      × (find_by_token_value token_value w'.db ≡ some (consumed_token activated_at t))
activate-uses token_value now activated_at w w' r e =
    elim (Option-cases (find_by_token_value token_value w.db)) [
      | inl missing ↦ absurd (cc (e, activate-no_token token_value now activated_at w missing))
      | inr (t, found) ↦
          let (early, unused, state) = activate-ok token_value now activated_at w w' r t found e in
          (
            t,
            found,
            rw (state) (find_by_token_value-activated token_value r.user_id activated_at w t found),
          )
    ]

-- An activation token works once: after an activation that returned, a further one with the same
-- token is refused, as consumed up to the expiry of the token and as expired later, and writes
-- nothing.
pub activate-once :
    (token_value : String) (now activated_at : ℕ) (w w' : World) (r : ActivationResult)
    → activate token_value now activated_at w ≡ (ok r, w')
    → (later activated_at' : ℕ)
    → (t : ActivationToken) × (find_by_token_value token_value w.db ≡ some t)
      × (activate token_value later activated_at' w' ≡ (
          if ltb t.expires_at later
          then (thrown token_expired, w')
          else (thrown token_consumed, w')))
activate-once token_value now activated_at w w' r e later activated_at' =
    let (t, found, used) = activate-uses token_value now activated_at w w' r e in
    (
      t,
      found,
      activate-consumed token_value later activated_at' w' (consumed_token activated_at t) used
          refl,
    )
