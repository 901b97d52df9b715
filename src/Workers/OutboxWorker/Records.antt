-- ===== src/Workers/OutboxWorker/Records.antt =====
-- What the outbox worker's loop does to the row of one record, whether or not it is that record's
-- turn.
use test_specs_to_code.Common.{
  ℕ, ◌+◌, ◌≤◌, ◌<◌, String, Bool, ◌≡◌, refl, false, List, [], ◌∷◌, ◌∙◌, Option, some, arith,
  eq_refl, ◌==◌, if◌then◌else◌, Option-cases, inl, inr, eq_iff,
}
use mathlib.Core.Option
use test_specs_to_code.Table.{select_first, count_where}
use test_specs_to_code.Table.Laws.{select_first-update, select_first-holds, count_where-same}
use test_specs_to_code.Model.{
  UserEntity, ActivationToken, RegistrationEmailRecord, DeliveryStatus, World, Db, ok,
}
use test_specs_to_code.Repositories.UserRepository.{find_by_id}
use test_specs_to_code.Repositories.TokenRepository
use test_specs_to_code.Repositories.EmailRecordRepository.{
  has_record_id, retried, with_delivery_status, update_status, increment_retry_count,
}
use test_specs_to_code.Workers.OutboxWorker.{
  OutboxConfig, handle_failure, dispatch_record, process_record, process_all,
}

abbrev pub find_record : String → Db → Option RegistrationEmailRecord
find_record record_id db = select_first (has_record_id record_id) db.registration_email_records

abbrev pub count_record : String → List RegistrationEmailRecord → ℕ
count_record record_id = count_where (has_record_id record_id)

find-increment :
    (k record_id : String) (db : Db)
    → find_record k (increment_retry_count record_id db)
      ≡ Option.map (λ r. if r.record_id == record_id then retried r else r) (find_record k db)
unfolding increment_retry_count
find-increment k record_id db =
    select_first-update (has_record_id k) (has_record_id record_id) retried
      db.registration_email_records (λ r. refl)

find-update_status :
    (k record_id : String) (status : DeliveryStatus) (db : Db)
    → find_record k (update_status record_id status db)
      ≡ Option.map
          (λ r. if r.record_id == record_id then with_delivery_status status r else r)
          (find_record k db)
unfolding update_status
find-update_status k record_id status db =
    select_first-update (has_record_id k) (has_record_id record_id) (with_delivery_status status)
      db.registration_email_records (λ r. refl)

count-increment :
    (k record_id : String) (db : Db)
    → count_record k (increment_retry_count record_id db).registration_email_records
      ≡ count_record k db.registration_email_records
unfolding increment_retry_count
count-increment k record_id db =
    count_where-same (has_record_id k) (has_record_id record_id) retried
      db.registration_email_records (λ r. refl)

count-update_status :
    (k record_id : String) (status : DeliveryStatus) (db : Db)
    → count_record k (update_status record_id status db).registration_email_records
      ≡ count_record k db.registration_email_records
unfolding update_status
count-update_status k record_id status db =
    count_where-same (has_record_id k) (has_record_id record_id) (with_delivery_status status)
      db.registration_email_records (λ r. refl)

-- Two databases with the same users and tokens.
abbrev SameOwners : Db → Db → Type 0
SameOwners db db' = (db'.users ≡ db.users) × (db'.activation_tokens ≡ db.activation_tokens)

-- The record waits in the outbox after so many retries, on the only row with its id, and its user
-- and token are on file.
pub record Waiting (r : RegistrationEmailRecord) (retries : ℕ) (w : World) : Type 0 where
  pub row : find_record r.record_id w.db ≡ some (record r { retry_count = retries })
  pub one : count_record r.record_id w.db.registration_email_records ≤ 1
  pub token : ActivationToken
  pub has_token : TokenRepository.find_by_user_id r.user_id w.db ≡ some token
  pub user : UserEntity
  pub has_user : find_by_id r.user_id w.db ≡ some user

module _ (config : OutboxConfig) (accepts : String → Bool) where
  pub process_record-count :
      (x : RegistrationEmailRecord) (k : String) (w : World)
      → count_record k (process_record config accepts x w).1.db.registration_email_records
        ≡ count_record k w.db.registration_email_records
  unfolding process_record dispatch_record handle_failure
  process_record-count x k w = ground (
    arith,
    count-increment k x.record_id w.db,
    count-update_status k x.record_id DeliveryStatus.failed w.db,
    count-update_status k x.record_id DeliveryStatus.sent w.db,
  )

  process_record-owners :
      (x : RegistrationEmailRecord) (w : World)
      → SameOwners w.db (process_record config accepts x w).1.db
  unfolding process_record dispatch_record handle_failure increment_retry_count update_status
  process_record-owners x w = ground arith

  -- The row of another record stays as it is.
  pub process_record-other :
      (x : RegistrationEmailRecord) (k : String) (w : World)
      → (x.record_id == k) ≡ false
      → find_record k (process_record config accepts x w).1.db ≡ find_record k w.db
  unfolding process_record dispatch_record handle_failure
  process_record-other x k w apart =
      let incremented = find-increment k x.record_id w.db in
      let failed = find-update_status k x.record_id DeliveryStatus.failed w.db in
      let sent = find-update_status k x.record_id DeliveryStatus.sent w.db in
      elim (Option-cases (find_record k w.db)) [
        | inl missing ↦ ground (arith, incremented, failed, sent)
        | inr (row, found) ↦
            let own =
              select_first-holds (has_record_id k) w.db.registration_email_records row found in
            let other : (row.record_id == x.record_id) ≡ false = ground (
              arith,
              eq_iff row.record_id k,
              eq_iff row.record_id x.record_id,
              eq_iff x.record_id k,
              own,
            ) in
            ground (arith, incremented, failed, sent, other)
      ]

  process_record-ok :
      (x : RegistrationEmailRecord) (w : World) → (process_record config accepts x w).0 ≡ ok tt
  unfolding process_record dispatch_record handle_failure
  process_record-ok x w = ground arith

  pub process_all-step :
      (x : RegistrationEmailRecord) (l : List RegistrationEmailRecord) (w : World)
      → (process_all config accepts (x ∷ l) w).1
        ≡ (process_all config accepts l (process_record config accepts x w).1).1
  unfolding process_all
  process_all-step x l w = ground (arith, process_record-ok x w)

  -- A record that is not in the list stays as it is.
  pub process_all-absent :
      (l : List RegistrationEmailRecord) (k : String) (w : World)
      → count_record k l ≡ 0
      → find_record k (process_all config accepts l w).1.db ≡ find_record k w.db
  unfolding count_where process_all
  process_all-absent [] k w absent = refl
  process_all-absent (x ∷ l) k w absent =
      let w₁ = (process_record config accepts x w).1 in
      let here = process_record-other x k w (ground arith) in
      rw (process_all-step x l w) (process_all-absent l k w₁ (ground arith) ∙ here)

  module _ (r : RegistrationEmailRecord) where
    -- What the record waits for is not touched by a process that leaves its row.
    Waiting-kept :
        (n m : ℕ) (x : RegistrationEmailRecord) (w : World)
        → Waiting r n w
        → find_record r.record_id (process_record config accepts x w).1.db
          ≡ some (record r { retry_count = m })
        → Waiting r m (process_record config accepts x w).1
    unfolding find_by_id TokenRepository.find_by_user_id
    Waiting-kept n m x w waits row =
        let (users, tokens) = process_record-owners x w in
        record {
          row = row;
          one = rw (process_record-count x r.record_id w) (waits.one);
          token = waits.token;
          has_token = rw tokens (waits.has_token);
          user = waits.user;
          has_user = rw users (waits.has_user);
        }

    pub process_record-Waiting :
        (n : ℕ) (x : RegistrationEmailRecord) (w : World)
        → Waiting r n w
        → (x.record_id == r.record_id) ≡ false
        → Waiting r n (process_record config accepts x w).1
    process_record-Waiting n x w waits apart =
        Waiting-kept n n x w waits (process_record-other x r.record_id w apart ∙ waits.row)

    pub process_all-Waiting :
        (l : List RegistrationEmailRecord) (n : ℕ) (w : World)
        → Waiting r n w
        → count_record r.record_id l ≡ 0
        → Waiting r n (process_all config accepts l w).1
    unfolding count_where process_all
    process_all-Waiting [] n w waits absent = waits
    process_all-Waiting (x ∷ l) n w waits absent =
        let w₁ = (process_record config accepts x w).1 in
        let next = process_record-Waiting n x w waits (ground arith) in
        rw (process_all-step x l w) (process_all-Waiting l n w₁ next (ground arith))

    module _ (refused : accepts r.record_id ≡ false) where
      pub process_record-retries :
          (n : ℕ) (w : World)
          → Waiting r n w
          → n < config.outbox_max_retries
          → Waiting r (n + 1) (process_record config accepts (record r { retry_count = n }) w).1
      unfolding process_record dispatch_record handle_failure
      process_record-retries n w waits below =
          Waiting-kept n (n + 1) (record r { retry_count = n }) w waits
            (ground (
              arith,
              refused,
              waits.row,
              waits.has_token,
              waits.has_user,
              eq_refl r.record_id,
              find-increment r.record_id r.record_id w.db,
            ))

      pub process_record-fails :
          (n : ℕ) (w : World)
          → Waiting r n w
          → config.outbox_max_retries ≤ n
          → find_record r.record_id
              (process_record config accepts (record r { retry_count = n }) w).1.db
            ≡ some (record r { retry_count = n; delivery_status = DeliveryStatus.failed })
      unfolding process_record dispatch_record handle_failure
      process_record-fails n w waits reached = ground (
        arith,
        refused,
        waits.row,
        waits.has_token,
        waits.has_user,
        eq_refl r.record_id,
        find-update_status r.record_id r.record_id DeliveryStatus.failed w.db,
      )
