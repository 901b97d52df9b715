-- ===== src/Workers/OutboxWorker/Retries.antt =====
-- How often the outbox worker tries to send one confirmation: its ticks, one after another.
use test_specs_to_code.Common.{
  ℕ, zero, suc, ◌+◌, ◌≤◌, ◌<◌, String, Bool, ◌==◌, ◌≡◌, ◌∙◌, refl, true, false, List, [], ◌∷◌, some,
  arith, Bool-cases, inl, inr,
}
use test_specs_to_code.Table.{select_first, select_all, count_where}
use test_specs_to_code.Table.Selected.{
  select_first-select_all, count_where-select_all, select_first-order_by, count_where-order_by,
  count_where-left_out,
}
use test_specs_to_code.Model.{RegistrationEmailRecord, DeliveryStatus, is_queued, World}
use test_specs_to_code.Repositories.EmailRecordRepository.{
  has_record_id, has_status, find_by_status,
}
use test_specs_to_code.Workers.OutboxWorker.{
  OutboxConfig, process_record, process_all, process_queued_records,
}
use test_specs_to_code.Workers.OutboxWorker.Records.{
  find_record, count_record, Waiting, process_record-count, process_all-step, process_all-absent,
  process_all-Waiting, process_record-Waiting, process_record-retries, process_record-fails,
}

-- The row is in the list of queued records that a tick reads, and no other with its id.
queued-listed :
    (r : RegistrationEmailRecord) (w : World)
    → is_queued r.delivery_status ≡ true
    → find_record r.record_id w.db ≡ some r
    → count_record r.record_id w.db.registration_email_records ≤ 1
    → (select_first (has_record_id r.record_id) (find_by_status DeliveryStatus.queued w.db)
        ≡ some r)
      × (count_record r.record_id (find_by_status DeliveryStatus.queued w.db) ≤ 1)
unfolding find_by_status
queued-listed r w queued found one =
    let rows = w.db.registration_email_records in
    let at = λ (x : RegistrationEmailRecord). x.dispatch_timestamp in
    let k = has_record_id r.record_id in
    let kept = select_all (has_status DeliveryStatus.queued) rows in
    let fewer = count_where-select_all k (has_status DeliveryStatus.queued) rows in
    let there =
      select_first-select_all k (has_status DeliveryStatus.queued) rows r found (ground arith) in
    (
      select_first-order_by k at r kept (omega (arith, fewer)) there,
      omega (arith, fewer, count_where-order_by k at kept),
    )

-- A row that is not queued is not in that list.
failed-unlisted :
    (r : RegistrationEmailRecord) (w : World)
    → find_record r.record_id w.db ≡ some r
    → r.delivery_status ≡ DeliveryStatus.failed
    → count_record r.record_id w.db.registration_email_records ≤ 1
    → count_record r.record_id (find_by_status DeliveryStatus.queued w.db) ≡ 0
unfolding find_by_status
failed-unlisted r w found given_up one =
    let rows = w.db.registration_email_records in
    let k = has_record_id r.record_id in
    count_where-order_by k (λ (x : RegistrationEmailRecord). x.dispatch_timestamp)
      (select_all (has_status DeliveryStatus.queued) rows)
    ∙ count_where-left_out k (has_status DeliveryStatus.queued) rows r one found (ground arith)

module _ (config : OutboxConfig) (accepts : String → Bool) where
  -- The state after so many polling ticks.
  unfoldable pub ticks : ℕ → World → World
  ticks zero w = w
  ticks (suc n) w = (process_queued_records config accepts (ticks n w)).1

  tick-process_all :
      (w : World)
      → (process_queued_records config accepts w).1
        ≡ (process_all config accepts (find_by_status DeliveryStatus.queued w.db) w).1
  unfolding process_queued_records
  tick-process_all w = refl

  process_all-count :
      (l : List RegistrationEmailRecord) (k : String) (w : World)
      → count_record k (process_all config accepts l w).1.db.registration_email_records
        ≡ count_record k w.db.registration_email_records
  unfolding process_all
  process_all-count [] k w = refl
  process_all-count (x ∷ l) k w = rw (process_all-step config accepts x l w) (
      process_all-count l k (process_record config accepts x w).1
      ∙ process_record-count config accepts x k w)

  module _ (r : RegistrationEmailRecord) (refused : accepts r.record_id ≡ false) where
    process_all-retries :
        (l : List RegistrationEmailRecord) (n : ℕ) (w : World)
        → Waiting r n w
        → n < config.outbox_max_retries
        → select_first (has_record_id r.record_id) l ≡ some (record r { retry_count = n })
        → count_record r.record_id l ≤ 1
        → Waiting r (n + 1) (process_all config accepts l w).1
    unfolding select_first count_where
    process_all-retries [] n w waits below listed one = absurd (ground arith)
    process_all-retries (x ∷ l) n w waits below listed one =
        let w₁ = (process_record config accepts x w).1 in
        elim (Bool-cases (x.record_id == r.record_id)) [
          | inl own ↦
              let same : x ≡ record r { retry_count = n } = ground arith in
              let next : Waiting r (n + 1) w₁ =
                rw same (process_record-retries config accepts r refused n w waits below) in
              rw (process_all-step config accepts x l w)
                (process_all-Waiting config accepts r l (n + 1) w₁ next (ground arith))
          | inr other ↦ rw (process_all-step config accepts x l w) (
              process_all-retries l n w₁ (process_record-Waiting config accepts r n x w waits other)
                below (ground arith) (ground arith))
        ]

    process_all-fails :
        (l : List RegistrationEmailRecord) (n : ℕ) (w : World)
        → Waiting r n w
        → config.outbox_max_retries ≤ n
        → select_first (has_record_id r.record_id) l ≡ some (record r { retry_count = n })
        → count_record r.record_id l ≤ 1
        → find_record r.record_id (process_all config accepts l w).1.db
          ≡ some (record r { retry_count = n; delivery_status = DeliveryStatus.failed })
    unfolding select_first count_where
    process_all-fails [] n w waits reached listed one = absurd (ground arith)
    process_all-fails (x ∷ l) n w waits reached listed one =
        let w₁ = (process_record config accepts x w).1 in
        elim (Bool-cases (x.record_id == r.record_id)) [
          | inl own ↦
              let same : x ≡ record r { retry_count = n } = ground arith in
              let given_up =
                rw (← same) at (process_record-fails config accepts r refused n w waits reached) in
              rw (process_all-step config accepts x l w)
                (process_all-absent config accepts l r.record_id w₁ (ground arith) ∙ given_up)
          | inr other ↦ rw (process_all-step config accepts x l w) (
              process_all-fails l n w₁ (process_record-Waiting config accepts r n x w waits other)
                reached (ground arith) (ground arith))
        ]

    tick-retries :
        (n : ℕ) (w : World)
        → is_queued r.delivery_status ≡ true
        → Waiting r n w
        → n < config.outbox_max_retries
        → Waiting r (n + 1) (process_queued_records config accepts w).1
    tick-retries n w queued waits below =
        let row = record r { retry_count = n } in
        let (there, alone) = queued-listed row w queued (waits.row) (waits.one) in
        rw (tick-process_all w) (
          process_all-retries (find_by_status DeliveryStatus.queued w.db) n w waits below there
            alone)

    ticks-Waiting :
        (n : ℕ) (w : World)
        → is_queued r.delivery_status ≡ true
        → Waiting r r.retry_count w
        → r.retry_count + n ≤ config.outbox_max_retries
        → Waiting r (r.retry_count + n) (ticks n w)
    unfolding ticks
    ticks-Waiting zero w queued waits below =
        let none_yet : r.retry_count + 0 ≡ r.retry_count = omega arith in rw none_yet waits
    ticks-Waiting (suc n) w queued waits below =
        let next : r.retry_count + suc n ≡ r.retry_count + n + 1 = omega arith in
        rw next (
          tick-retries (r.retry_count + n) (ticks n w) queued
            (ticks-Waiting n w queued waits (omega arith)) (omega arith))

    tick-fails :
        (n : ℕ) (w : World)
        → is_queued r.delivery_status ≡ true
        → Waiting r n w
        → config.outbox_max_retries ≤ n
        → find_record r.record_id (process_queued_records config accepts w).1.db
          ≡ some (record r { retry_count = n; delivery_status = DeliveryStatus.failed })
    tick-fails n w queued waits reached =
        let row = record r { retry_count = n } in
        let (there, alone) = queued-listed row w queued (waits.row) (waits.one) in
        rw (tick-process_all w) (
          process_all-fails (find_by_status DeliveryStatus.queued w.db) n w waits reached there
            alone)

  tick-count :
      (k : String) (w : World)
      → count_record k (process_queued_records config accepts w).1.db.registration_email_records
        ≡ count_record k w.db.registration_email_records
  tick-count k w =
      rw (tick-process_all w) (process_all-count (find_by_status DeliveryStatus.queued w.db) k w)

  -- A record that is given up is left alone by every later tick.
  ticks-failed :
      (m : ℕ) (r : RegistrationEmailRecord) (w : World)
      → r.delivery_status ≡ DeliveryStatus.failed
      → count_record r.record_id w.db.registration_email_records ≤ 1
      → find_record r.record_id w.db ≡ some r
      → (find_record r.record_id (ticks m w).db ≡ some r)
        × (count_record r.record_id (ticks m w).db.registration_email_records ≤ 1)
  unfolding ticks
  ticks-failed zero r w given_up one found = (found, one)
  ticks-failed (suc m) r w given_up one found =
      let v = ticks m w in
      let (still, alone) = ticks-failed m r w given_up one found in
      let skipped = failed-unlisted r v still given_up alone in
      (
        rw (tick-process_all v) (
            process_all-absent config accepts (find_by_status DeliveryStatus.queued v.db)
              r.record_id v skipped
            ∙ still),
        rw (tick-count r.record_id v) alone,
      )

  -- A queued record whose mail the provider always refuses, with its user and its token on file and
  -- no other row with its id, in ticks that follow one another with nothing between them: each tick
  -- up to the configured maximum adds one to its retry count and leaves it queued, the tick after
  -- those marks it as failed, and no later tick changes it. So no such record is tried without end,
  -- and none is given up earlier.
  pub ticks-bound :
      (r : RegistrationEmailRecord) (i n m : ℕ) (w : World)
      → is_queued r.delivery_status ≡ true
      → accepts r.record_id ≡ false
      → Waiting r r.retry_count w
      → i ≤ n
      → r.retry_count + n ≡ config.outbox_max_retries
      → Waiting r (r.retry_count + i) (ticks i w)
        × (find_record r.record_id (ticks m (ticks (suc n) w)).db
            ≡ some (record r {
              retry_count = config.outbox_max_retries;
              delivery_status = DeliveryStatus.failed;
            }))
  unfolding ticks
  ticks-bound r i n m w queued refused waits within reached =
      let last = rw reached at (ticks-Waiting r refused n w queued waits (omega arith)) in
      let after =
        tick-fails r refused config.outbox_max_retries (ticks n w) queued last (omega arith) in
      let row = record r {
        retry_count = config.outbox_max_retries;
        delivery_status = DeliveryStatus.failed;
      } in
      let alone : count_record r.record_id (ticks (suc n) w).db.registration_email_records ≤ 1 =
        rw (tick-count r.record_id (ticks n w)) (last.one) in
      (
        ticks-Waiting r refused i w queued waits (omega arith),
        (ticks-failed m row (ticks (suc n) w) refl alone after).0,
      )
