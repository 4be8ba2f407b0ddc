-- ===== src/Webhook/Settle.antt =====
-- What becomes of a delivery after its request in src/scrapeyard/webhook/dispatcher.py.
use scrapeyard.Prelude.{
  ℕ, ◌+◌, ◌-◌, ◌≤◌, ◌<◌, ◌≡◌, refl, ◌∙◌, ◌⊎◌, String, Bool, true, false, ◌&&◌, leb, nat_eq, inl,
  inr, arith, some, text_keys, ==-self, if◌then◌else◌,
}
use scrapeyard.Prelude.Dict.{get, get-put}
use scrapeyard.Outbox.{
  WebhookDeliveryStatus, Row, Table, WebhookFailureReason, pending, failed,
  delivered as delivered_row, is_pending, is_open, update_row, delivered_change, retry_change,
  failed_change, pending_update, mark_delivered, mark_retryable_failure, mark_failed,
}
use scrapeyard.Outbox.Codec.{Coding, webhook_last_error, WebhookDelivery}
use scrapeyard.Webhook.{
  Settings, backoff_delay, WebhookDispatchResult, WebhookDispatchStatus, delivered,
  retryable_failed, permanent_failed,
}
use scrapeyard.Webhook.Process.{
  fail_delivery, retry_later, settle, finish_delivery, delivery_deadline, error_or, retry_delay,
}

-- The delivery waits for another attempt: it has one left, waits for the backoff, and is due before
-- its deadline.
pub record Waits (c : Settings) (reserved : Row) (completed_at : ℕ) (r : Row) : Type 0 where
  pub is_waiting : r.status ≡ pending
  pub attempt_left : reserved.attempts < c.max_delivery_attempts
  pub backs_off : completed_at + backoff_delay c (reserved.attempts - 1) ≤ r.next_attempt_at
  pub in_time : r.next_attempt_at < delivery_deadline c reserved

abbrev pub Settled : Settings → Row → ℕ → WebhookDispatchStatus → Row → Type 0
Settled c reserved at delivered r = r.status ≡ delivered_row
Settled c reserved at permanent_failed r = r.status ≡ failed
Settled c reserved at retryable_failed r = (r.status ≡ failed) ⊎ Waits c reserved at r

status_of_pending :
    (s : WebhookDeliveryStatus) → (elim s [ pending ↦ true | _ ↦ false ]) ≡ true → s ≡ pending
status_of_pending pending h = refl
status_of_pending delivered_row h = cc
status_of_pending failed h = cc

open_status : (n : ℕ) (r : Row) → is_open (some n) r ≡ true → r.status ≡ pending
open_status n r h = status_of_pending r.status (and_first (is_pending r) (nat_eq r.attempts n) h)
  where
    and_first : (a b : Bool) → (a && b) ≡ true → a ≡ true
    and_first true b g = refl
    and_first false b g = g

abbrev Written : String → Table → (Row → Type 0) → Type 0
Written id t P = (r : Row) × (get id t ≡ some r) × P r

Written-if :
    (id : String) (b : Bool) (t u : Table) (P : Row → Type 0)
    → (b ≡ true → Written id t P)
    → (b ≡ false → Written id u P)
    → Written id (if b then t else u) P
Written-if id true t u P p q = p refl
Written-if id false t u P p q = q refl

module _ (id : String) (n : ℕ) (r : Row) (t : Table) (e : get id t ≡ some r)
    (m : is_open (some n) r ≡ true) where
  update_written :
      (change : Row → Row) → get id (pending_update id change (some n) t).1 ≡ some (change r)
  unfolding pending_update update_row
  update_written change = rw (e, m) (get-put id id (change r) t ∙ rw (==-self id) refl)

  fail_written :
      (code : Coding) (at : ℕ) (reason : WebhookFailureReason) (error : String) (P : Row → Type 0)
      → ((q : Row) → q.status ≡ failed → P q)
      → Written id (fail_delivery code id n at reason error t) P
  unfolding fail_delivery mark_failed
  fail_written code at reason error P h = (
    failed_change at reason (some _) (some n) 0 r,
    update_written (failed_change at reason (some _) (some n) 0),
    h (failed_change at reason (some _) (some n) 0 r) refl,
  )

retry_written :
    (code : Coding) (c : Settings) (id : String) (row r : Row) (at : ℕ)
    (result : WebhookDispatchResult) (t : Table)
    → get id t ≡ some r
    → is_open (some row.attempts) r ≡ true
    → Written id
        (retry_later code c id row at result t)
        (λ q. (q.status ≡ failed) ⊎ Waits c row at q)
unfolding retry_later mark_retryable_failure
retry_written code c id row r at result t e m =
    let P : Row → Type 0 = λ q. (q.status ≡ failed) ⊎ Waits c row at q in
    Written-if id (leb c.max_delivery_attempts row.attempts) _ _ P
      (λ _. fail_written id row.attempts r t e m code at _ _ P (λ q f. inl f))
      (λ fresh.
        Written-if id (leb (delivery_deadline c row) at) _ _ P
          (λ _. fail_written id row.attempts r t e m code at _ _ P (λ q f. inl f))
          (λ young.
            Written-if id (leb (delivery_deadline c row - at) (retry_delay code c id row result)) _
              _ P (λ _. fail_written id row.attempts r t e m code at _ _ P (λ q f. inl f))
              (λ room.
                let error =
                  code.protect (webhook_last_error id)
                    (error_or result.last_error "Retryable webhook delivery failure") in
                let change : Row → Row =
                  retry_change at (at + retry_delay code c id row result) error (some row.attempts)
                    0 in
                (
                  change r,
                  update_written id row.attempts r t e m change,
                  inr (record {
                    is_waiting = open_status row.attempts r m;
                    attempt_left = ground arith;
                    backs_off = omega arith;
                    in_time = ground arith;
                  }),
                ))))

-- When the request of a reserved delivery has ended and its row is still pending with the attempts of
-- the reservation, its row is settled: delivered after a success, failed after a permanent failure,
-- and after a retryable failure either failed or waiting, with an attempt left, at least the backoff
-- away and before its deadline.
pub finish_settles :
    (code : Coding) (c : Settings) (id : String) (d : WebhookDelivery) (at : ℕ)
    (result : WebhookDispatchResult) (r : Row) (t : Table)
    → get id t ≡ some r
    → is_open (some d.row.attempts) r ≡ true
    → (q : Row) × (get id (finish_delivery code c id d at result t) ≡ some q)
      × Settled c d.row at result.status q
unfolding finish_delivery
finish_settles code c id d at result r t e m = settled result.status
  where
    settled :
        (s : WebhookDispatchStatus)
        → (q : Row) × (get id (settle code c id s d.row at result t) ≡ some q)
          × Settled c d.row at s q
    settled delivered =
        unfold mark_delivered in
        (
          delivered_change at (some d.row.attempts) 0 r,
          update_written id d.row.attempts r t e m (delivered_change at (some d.row.attempts) 0),
          refl,
        )
    settled permanent_failed =
        fail_written id d.row.attempts r t e m code at _ _ (λ q. q.status ≡ failed) (λ q f. f)
    settled retryable_failed = retry_written code c id d.row r at result t e m
