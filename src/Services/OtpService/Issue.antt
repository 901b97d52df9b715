-- ===== src/Services/OtpService/Issue.antt =====
-- Issuing a code: it replaces the former one, and no account has two active codes.
use test_specs_to_code.Common.{
  ℕ, ◌≤◌, String, ◌≡◌, refl, true, ◌&&◌, ◌||◌, none, some, arith, eq_refl, eq_iff, if◌then◌else◌,
  Option-cases, inl, inr,
}
use test_specs_to_code.Table.{select_first, count_where}
use test_specs_to_code.Table.Laws.{
  select_first-append, select_first-update, select_first-none_iff, count_where-append,
  count_where-update-le, count_where-update_all, count_where-same,
}
use test_specs_to_code.Model.{
  UserEntity, OtpRequestEntity, OtpStatus, is_active, is_pending, ok, Crypto, World, Db,
}
use test_specs_to_code.Repositories.UserRepository.{find_by_id}
use test_specs_to_code.Repositories.Constraints.{user_exists}
use test_specs_to_code.Repositories.OtpRequestRepository.{
  has_id, is_active_for, invalidated_otp, with_otp_status, create_otp_request,
  otp_request_violations, find_active_by_user_id, invalidate_active_by_user_id, mark_delivered,
  mark_failed, get_next_attempt_sequence,
}
use test_specs_to_code.Services.RateLimitGuard.{RateLimitGuard}
use test_specs_to_code.Services.OtpService.{
  OtpConfig, OtpState, OtpInputs, new_otp_request, store_otp, deliver_otp, issue_otp,
}

-- The number of active codes of an account.
abbrev pub active_count : String → Db → ℕ
active_count user_id db = count_where (is_active_for user_id) db.otp_requests

-- uidx_otp_requests_active_per_user
abbrev pub AtMostOneActive : Db → Type 0
AtMostOneActive db = (user_id : String) → active_count user_id db ≤ 1

-- Closing the active codes of an account leaves it none, and opens none elsewhere.
invalidate_active-count :
    (user_id : String) (at : ℕ) (db : Db)
    → active_count user_id (invalidate_active_by_user_id user_id at db) ≡ 0
unfolding invalidate_active_by_user_id
invalidate_active-count user_id at db =
    count_where-update_all (is_active_for user_id) (is_active_for user_id) (invalidated_otp at)
      db.otp_requests (λ r h. h) (λ r. ground arith)

invalidate_active-le :
    (user_id other : String) (at : ℕ) (db : Db)
    → active_count other (invalidate_active_by_user_id user_id at db) ≤ active_count other db
unfolding invalidate_active_by_user_id
invalidate_active-le user_id other at db =
    count_where-update-le (is_active_for other) (is_active_for user_id) (invalidated_otp at)
      db.otp_requests (λ r h. ground arith)

module _ (crypto : Crypto) (config : OtpConfig) where
  -- Storing a code keeps the invariant, whether the INSERT is refused or not.
  pub store_otp-AtMostOne :
      (user_id : String) (user : UserEntity) (inputs : OtpInputs) (w : World)
      → AtMostOneActive w.db
      → AtMostOneActive (store_otp crypto config user_id user inputs w).1.db
  unfolding store_otp create_otp_request
  store_otp-AtMostOne user_id user inputs w inv other =
      let db = invalidate_active_by_user_id user_id inputs.invalidated_at w.db in
      let row =
        new_otp_request crypto config user_id user (get_next_attempt_sequence user_id db) inputs in
      ground (
        arith,
        inv other,
        eq_iff user_id other,
        invalidate_active-count user_id inputs.invalidated_at w.db,
        invalidate_active-le user_id other inputs.invalidated_at w.db,
        count_where-append (is_active_for other) row db.otp_requests,
      )

  -- For a user on file and a fresh row id the INSERT is never refused, and the new row is the
  -- active one.
  store_otp-ok :
      (user_id : String) (user : UserEntity) (inputs : OtpInputs) (w : World)
      → find_by_id user_id w.db ≡ some user
      → select_first (has_id inputs.request_id) w.db.otp_requests ≡ none
      → (n : ℕ) × ((store_otp crypto config user_id user inputs w).0 ≡ ok tt)
        × (find_active_by_user_id user_id (store_otp crypto config user_id user inputs w).1.db
            ≡ some (new_otp_request crypto config user_id user n inputs))
        × ((store_otp crypto config user_id user inputs w).1.db.users ≡ w.db.users)
  unfolding store_otp create_otp_request otp_request_violations user_exists find_by_id
      find_active_by_user_id invalidate_active_by_user_id
  store_otp-ok user_id user inputs w listed fresh =
      let db = invalidate_active_by_user_id user_id inputs.invalidated_at w.db in
      let n = get_next_attempt_sequence user_id db in
      let row = new_otp_request crypto config user_id user n inputs in
      let none_active =
        (select_first-none_iff (is_active_for user_id) db.otp_requests).1
          (invalidate_active-count user_id inputs.invalidated_at w.db) in
      let unused =
        select_first-update (has_id inputs.request_id) (is_active_for user_id)
          (invalidated_otp inputs.invalidated_at) w.db.otp_requests (λ r. refl) in
      let found = select_first-append (is_active_for user_id) row db.otp_requests in
      (
        n,
        ground (arith, none_active, unused),
        ground (arith, none_active, unused, found, eq_refl user_id),
        ground (arith, none_active, unused),
      )

  -- Recording the outcome of the mail changes neither who has an active code nor how many there
  -- are.
  deliver_otp-AtMostOne :
      (user : UserEntity) (inputs : OtpInputs) (w : World)
      → AtMostOneActive w.db
      → AtMostOneActive (deliver_otp crypto config user inputs w).1.db
  unfolding deliver_otp mark_delivered mark_failed
  deliver_otp-AtMostOne user inputs w inv other = ground (
    arith,
    inv other,
    count_where-same (is_active_for other) (has_id inputs.request_id)
        (with_otp_status OtpStatus.delivered) w.db.otp_requests (λ r. refl),
    count_where-same (is_active_for other) (has_id inputs.request_id)
        (with_otp_status OtpStatus.failed) w.db.otp_requests (λ r. refl),
  )

  -- The outcome of the mail as the row records it.
  abbrev pub outcome : OtpInputs → OtpStatus
  outcome inputs =
      if config.otp_delivery_enabled && inputs.provider_accepts
      then OtpStatus.delivered
      else OtpStatus.failed

  deliver_otp-find :
      (user_id : String) (user : UserEntity) (inputs : OtpInputs) (w : World) (r : OtpRequestEntity)
      → find_active_by_user_id user_id w.db ≡ some r
      → r.id ≡ inputs.request_id
      → ((deliver_otp crypto config user inputs w).0
          ≡ ok (record { accepted = true; status = outcome inputs }))
        × (find_active_by_user_id user_id (deliver_otp crypto config user inputs w).1.db
            ≡ some (record r { status = outcome inputs }))
        × ((deliver_otp crypto config user inputs w).1.db.users ≡ w.db.users)
  unfolding deliver_otp mark_delivered mark_failed find_active_by_user_id
  deliver_otp-find user_id user inputs w r found same =
      let delivered =
        select_first-update (is_active_for user_id) (has_id inputs.request_id)
          (with_otp_status OtpStatus.delivered) w.db.otp_requests (λ r. refl) in
      let failed =
        select_first-update (is_active_for user_id) (has_id inputs.request_id)
          (with_otp_status OtpStatus.failed) w.db.otp_requests (λ r. refl) in
      let hit = (eq_iff r.id inputs.request_id).1 same in
      (ground (arith), ground (arith, delivered, failed, hit), ground arith)

  module _ {K : Type 0} (guard : RateLimitGuard K) where
    -- No account ever has two active codes: an issue keeps that, whatever its outcome.
    pub issue_otp-AtMostOne :
        (user_id : String) (inputs : OtpInputs) (s : OtpState K)
        → AtMostOneActive s.world.db
        → AtMostOneActive (issue_otp crypto config guard user_id inputs s).1.world.db
    unfolding issue_otp
    issue_otp-AtMostOne user_id inputs s inv other =
        elim (Option-cases (find_by_id user_id s.world.db)) [
          | inl missing ↦ ground (arith, inv other)
          | inr (user, listed) ↦
              let stored = store_otp-AtMostOne user_id user inputs s.world inv in
              ground (
                arith,
                inv other,
                stored other,
                deliver_otp-AtMostOne user inputs
                    (store_otp crypto config user_id user inputs s.world).1 stored other,
              )
        ]

    -- The account may be sent a code.
    pub record MayReceive (user_id : String) (inputs : OtpInputs) (s : OtpState K)
        (user : UserEntity) : Type 0 where
      pub listed : find_by_id user_id s.world.db ≡ some user
      pub status : (is_active user.status || is_pending user.status) ≡ true
      pub allowed : (guard.allow user_id inputs.asked_at s.counters).0 ≡ true
      pub fresh : select_first (has_id inputs.request_id) s.world.db.otp_requests ≡ none

    -- For an account on file that is pending or active, a guard that allows it and a fresh row id,
    -- an issue always returns; afterwards the account's active code is the new one, with the
    -- outcome of the mail as its status, and the users are as they were.
    pub issue_otp-ok :
        (user_id : String) (inputs : OtpInputs) (s : OtpState K) (user : UserEntity)
        → MayReceive user_id inputs s user
        → (n : ℕ) × ((issue_otp crypto config guard user_id inputs s).0
            ≡ ok (record { accepted = true; status = outcome inputs }))
          × (find_active_by_user_id user_id
                (issue_otp crypto config guard user_id inputs s).1.world.db
              ≡ some (record (new_otp_request crypto config user_id user n inputs) {
                status = outcome inputs;
              }))
          × ((issue_otp crypto config guard user_id inputs s).1.world.db.users ≡ s.world.db.users)
    unfolding issue_otp
    issue_otp-ok user_id inputs s user may =
        let (n, returned, found, kept) =
          store_otp-ok user_id user inputs s.world may.listed may.fresh in
        let (answer, row, same) =
          deliver_otp-find user_id user inputs
            (store_otp crypto config user_id user inputs s.world).1
            (new_otp_request crypto config user_id user n inputs) found refl in
        (
          n,
          ground (arith, may.listed, may.status, may.allowed, returned, answer),
          ground (arith, may.listed, may.status, may.allowed, returned, row),
          ground (arith, may.listed, may.status, may.allowed, returned, same, kept),
        )
