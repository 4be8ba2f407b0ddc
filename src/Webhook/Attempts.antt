-- ===== src/Webhook/Attempts.antt =====
-- How many requests the dispatcher of src/scrapeyard/webhook/dispatcher.py makes for a delivery.
use scrapeyard.Prelude.{
  ℕ, ◌-◌, ◌≤◌, ◌<◌, String, Bool, true, false, not, leb, inl, inr, arith, some, List, [], ◌∷◌,
  text_keys, Bool-cases, if◌then◌else◌,
}
use scrapeyard.Prelude.Dict.{AllEntries}
use scrapeyard.Outbox.{
  Row, Table, WebhookFailureReason, is_open, begin_change, delivered_change, retry_change,
  failed_change, reserve_attempt, pending_update, mark_delivered, mark_retryable_failure,
  mark_failed,
}
use scrapeyard.Outbox.Deletion.{AllEntries-keep, AllEntries-delete, is_tombstone, prune_tombstones}
use scrapeyard.Outbox.Codec.{Coding, WebhookDelivery, new_row, begin_attempt}
use scrapeyard.Outbox.Entries.{
  AllEntries-update_row, IsStable, begin_reserved-All, enqueue-All, scrub-All,
}
use scrapeyard.Webhook.{
  Settings, WebhookDispatchResult, WebhookDispatchStatus, delivered, retryable_failed,
  permanent_failed,
}
use scrapeyard.Webhook.Process.{
  fail_delivery, fail_if_exhausted, start_delivery, retry_later, settle, finish_delivery,
  delivery_deadline, retry_delay, DispatchStep, start, finish, sweep, submit, clean,
  drop_job_deliveries, drop_run_deliveries, dispatch, dispatch_all,
}

-- No row has more attempts than allowed.
abbrev pub AtMost : ℕ → Table → Type 0
AtMost most t = AllEntries (λ _ r. r.attempts ≤ most) t

AtMost-if :
    (most : ℕ) (b : Bool) (t u : Table)
    → AtMost most t
    → AtMost most u
    → AtMost most (if b then t else u)
AtMost-if most true t u p q = p
AtMost-if most false t u p q = q

module _ (most : ℕ) where
  expected_update :
      (id : String) (n : ℕ) (change : Row → Row) (t : Table)
      → ((r : Row) → r.attempts ≤ most → (change r).attempts ≤ most)
      → AtMost most t
      → AtMost most (pending_update id change (some n) t).1
  unfolding pending_update
  expected_update id n change t h all =
      AllEntries-update_row (λ r. r.attempts ≤ most) id (is_open (some n)) change t (λ r p _. h r p)
        all

  fail-AtMost :
      (code : Coding) (id : String) (n at : ℕ) (reason : WebhookFailureReason) (error : String)
      (t : Table)
      → AtMost most t
      → AtMost most (fail_delivery code id n at reason error t)
  unfolding fail_delivery mark_failed
  fail-AtMost code id n at reason error t all =
      expected_update id n (failed_change at reason (some _) (some n) 0) t (λ r h. h) all

  reserve-AtMost :
      (id : String) (n at : ℕ) (t : Table)
      → n < most
      → AtMost most t
      → AtMost most (reserve_attempt id n at t).1
  unfolding reserve_attempt
  reserve-AtMost id n at t l all =
      AllEntries-update_row (λ r. r.attempts ≤ most) id (is_open (some n)) (begin_change at) t
        (λ r _ m. ground arith) all

  AtMost-IsStable : (code : Coding) → IsStable (λ r. r.attempts ≤ most) code
  AtMost-IsStable code = record {
    quarantined = λ at r p. p;
    scrubbed = λ at r p _. p;
    created = λ d now. unfold new_row in omega arith;
  }

module _ (code : Coding) (c : Settings) (id : String) where
  sweep-AtMost :
      (d : WebhookDelivery) (now : ℕ) (t : Table)
      → AtMost c.max_delivery_attempts t
      → AtMost c.max_delivery_attempts (fail_if_exhausted code c id d now t).1
  unfolding fail_if_exhausted
  sweep-AtMost d now t all = elim (Bool-cases (leb c.max_delivery_attempts d.row.attempts)) [
    | inl used ↦ rw used (fail-AtMost c.max_delivery_attempts code id _ _ _ _ t all)
    | inr fresh ↦ rw fresh (elim (Bool-cases (leb (delivery_deadline c d.row) now)) [
      | inl old ↦ rw old (fail-AtMost c.max_delivery_attempts code id _ _ _ _ t all)
      | inr young ↦ rw young all
    ])
  ]

  start-AtMost :
      (d : WebhookDelivery) (now : ℕ) (t : Table)
      → AtMost c.max_delivery_attempts t
      → AtMost c.max_delivery_attempts (start_delivery code c id d now t).1
  unfolding start_delivery fail_if_exhausted begin_attempt
  start-AtMost d now t all = elim (Bool-cases (leb c.max_delivery_attempts d.row.attempts)) [
    | inl used ↦ rw used (fail-AtMost c.max_delivery_attempts code id _ _ _ _ t all)
    | inr fresh ↦ rw fresh (elim (Bool-cases (leb (delivery_deadline c d.row) now)) [
      | inl old ↦ rw old (fail-AtMost c.max_delivery_attempts code id _ _ _ _ t all)
      | inr young ↦ rw young (
          let (b, t') = reserve_attempt id d.row.attempts now t in
          begin_reserved-All (λ r. r.attempts ≤ c.max_delivery_attempts) code
            (AtMost-IsStable c.max_delivery_attempts code) id now b t'
            (reserve-AtMost c.max_delivery_attempts id d.row.attempts now t (ground arith) all))
    ])
  ]

  retry-AtMost :
      (row : Row) (at : ℕ) (result : WebhookDispatchResult) (t : Table)
      → AtMost c.max_delivery_attempts t
      → AtMost c.max_delivery_attempts (retry_later code c id row at result t)
  unfolding retry_later mark_retryable_failure
  retry-AtMost row at result t all =
      let most = c.max_delivery_attempts in
      AtMost-if most (leb most row.attempts) _ _ (fail-AtMost most code id _ at _ _ t all) (
        AtMost-if most (leb (delivery_deadline c row) at) _ _
          (fail-AtMost most code id _ at _ _ t all)
          (AtMost-if most (leb (delivery_deadline c row - at) (retry_delay code c id row result)) _
            _ (fail-AtMost most code id _ at _ _ t all)
            (expected_update most id row.attempts (retry_change at _ _ (some row.attempts) 0) t
              (λ r h. h) all)))

  finish-AtMost :
      (d : WebhookDelivery) (at : ℕ) (result : WebhookDispatchResult) (t : Table)
      → AtMost c.max_delivery_attempts t
      → AtMost c.max_delivery_attempts (finish_delivery code c id d at result t)
  unfolding finish_delivery
  finish-AtMost d at result t all = settled result.status
    where
      settled :
          (s : WebhookDispatchStatus)
          → AtMost c.max_delivery_attempts (settle code c id s d.row at result t)
      settled delivered =
          unfold mark_delivered in
          expected_update c.max_delivery_attempts id d.row.attempts
            (delivered_change at (some d.row.attempts) 0) t (λ r h. h) all
      settled permanent_failed = fail-AtMost c.max_delivery_attempts code id _ _ _ _ t all
      settled retryable_failed = retry-AtMost d.row at result t all

dispatch-AtMost :
    (code : Coding) (c : Settings) (s : DispatchStep) (t : Table)
    → AtMost c.max_delivery_attempts t
    → AtMost c.max_delivery_attempts (dispatch code c s t)
unfolding dispatch prune_tombstones
dispatch-AtMost code c (start id d now) t all = start-AtMost code c id d now t all
dispatch-AtMost code c (finish id d at result) t all = finish-AtMost code c id d at result t all
dispatch-AtMost code c (sweep id d now) t all = sweep-AtMost code c id d now t all
dispatch-AtMost code c (submit d now) t all =
    enqueue-All (λ r. r.attempts ≤ c.max_delivery_attempts) code
      (AtMost-IsStable c.max_delivery_attempts code) d now t all
dispatch-AtMost code c (clean d f at limit) t all =
    scrub-All (λ r. r.attempts ≤ c.max_delivery_attempts) code
      (AtMost-IsStable c.max_delivery_attempts code) d f at limit t all
dispatch-AtMost code c (drop_job_deliveries job_id) t all =
    AllEntries-delete (λ r. r.attempts ≤ c.max_delivery_attempts) job_id t all
dispatch-AtMost code c (drop_run_deliveries job_id run_id before) t all =
    AllEntries-keep (λ r. r.attempts ≤ c.max_delivery_attempts)
      (λ row. not (is_tombstone job_id run_id before row)) t all

-- No delivery has more attempts than the dispatcher allows, however many workers start and finish
-- deliveries from whatever copies of them, in any order, with sweeps, new deliveries, retention
-- and deletions in between, if none had before.
pub dispatch_all-AtMost :
    (code : Coding) (c : Settings) (steps : List DispatchStep) (t : Table)
    → AtMost c.max_delivery_attempts t
    → AtMost c.max_delivery_attempts (dispatch_all code c steps t)
unfolding dispatch_all
dispatch_all-AtMost code c [] t all = all
dispatch_all-AtMost code c (s ∷ ss) t all =
    dispatch_all-AtMost code c ss (dispatch code c s t) (dispatch-AtMost code c s t all)
