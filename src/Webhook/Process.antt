-- ===== src/Webhook/Process.antt =====
-- `_process_delivery` of src/scrapeyard/webhook/dispatcher.py: what it does to the outbox before and
-- after the request.
use scrapeyard.Prelude.{
  ℕ, ◌+◌, ◌-◌, max, String, Bool, true, false, leb, ◌==◌, text_keys, Option, none, some, List, [],
  ◌∷◌, if◌then◌else◌,
}
use scrapeyard.Outbox.Deletion.{delete_deliveries, prune_tombstones}
use scrapeyard.Outbox.{
  Row, Table, WebhookFailureReason, attempt_exhausted, age_exhausted, mark_delivered,
  mark_retryable_failure, mark_failed,
}
use scrapeyard.Outbox.Codec.{
  Coding, webhook_last_error, WebhookDelivery, WebhookDeliveryCreate, begin_attempt,
  enqueue_delivery,
}
use scrapeyard.Outbox.Scrub.{scrub_terminal_deliveries}
use scrapeyard.Webhook.{
  Settings, WebhookDispatchResult, WebhookDispatchStatus, delivered, retryable_failed,
  permanent_failed, backoff_delay, terminal_reason,
}

-- `result.last_error or default`.
abbrev pub error_or : Option String → String → String
error_or none default = default
error_or (some error) default = if error == "" then default else error

-- `result.retry_after_seconds or 0.0`.
abbrev pub or_nothing : Option ℕ → ℕ
or_nothing none = 0
or_nothing (some delay) = delay

unfoldable pub delivery_deadline : Settings → Row → ℕ
delivery_deadline c row = row.created_at + c.max_delivery_age

unfoldable pub fail_delivery :
    Coding → String → ℕ → ℕ → WebhookFailureReason → String → Table → Table
fail_delivery code id attempts failed_at reason error t =
    (mark_failed id failed_at reason (some (code.protect (webhook_last_error id) error))
      (some attempts) 0 t).1

module _ (code : Coding) (c : Settings) (id : String) where
  -- `_fail_if_exhausted`: whether the delivery is exhausted.
  unfoldable pub fail_if_exhausted : WebhookDelivery → ℕ → Table → Bool × Table
  unfolding fail_delivery delivery_deadline
  fail_if_exhausted d now t =
      if leb c.max_delivery_attempts d.row.attempts
      then (
        true,
        fail_delivery code id d.row.attempts now attempt_exhausted
            "Maximum total webhook delivery attempts reached" t,
      )
      else if leb (delivery_deadline c d.row) now
      then (
        true,
        fail_delivery code id d.row.attempts now age_exhausted
            "Maximum webhook delivery age reached" t,
      )
      else (false, t)

  abbrev pub begin_unless : WebhookDelivery → ℕ → Bool × Table → Option WebhookDelivery × Table
  begin_unless d now (true, t) = (none, t)
  begin_unless d now (false, t) = begin_attempt code id d.row.attempts now t

  -- Up to the request: the reserved delivery, if the attempt was won.
  unfoldable pub start_delivery : WebhookDelivery → ℕ → Table → Option WebhookDelivery × Table
  unfolding fail_if_exhausted
  start_delivery d now t = begin_unless d now (fail_if_exhausted d now t)

  abbrev pub retry_delay : Row → WebhookDispatchResult → ℕ
  retry_delay row result = max (backoff_delay c (row.attempts - 1)) (or_nothing result.retry_after)

  unfoldable pub retry_later : Row → ℕ → WebhookDispatchResult → Table → Table
  unfolding fail_delivery delivery_deadline backoff_delay
  retry_later row completed_at result t =
      let deadline = delivery_deadline c row in
      let delay = retry_delay row result in
      if leb c.max_delivery_attempts row.attempts
      then fail_delivery code id row.attempts completed_at attempt_exhausted
          "Maximum total webhook delivery attempts reached" t
      else if leb deadline completed_at
      then fail_delivery code id row.attempts completed_at age_exhausted
          "Maximum webhook delivery age reached after retryable failure" t
      else if leb (deadline - completed_at) delay
      then fail_delivery code id row.attempts completed_at age_exhausted
          "Next retry cannot occur before maximum delivery age" t
      else (mark_retryable_failure id completed_at (completed_at + delay)
          (code.protect (webhook_last_error id)
            (error_or result.last_error "Retryable webhook delivery failure"))
          (some row.attempts) 0 t).1

  abbrev pub settle : WebhookDispatchStatus → Row → ℕ → WebhookDispatchResult → Table → Table
  settle delivered row completed_at result t =
      (mark_delivered id completed_at (some row.attempts) 0 t).1
  settle permanent_failed row completed_at result t =
      fail_delivery code id row.attempts completed_at (terminal_reason result.reason_code)
        (error_or result.last_error "Non-retryable webhook failure") t
  settle retryable_failed row completed_at result t = retry_later row completed_at result t

  -- What is done with the result of the request.
  unfoldable pub finish_delivery : WebhookDelivery → ℕ → WebhookDispatchResult → Table → Table
  unfolding fail_delivery retry_later terminal_reason
  finish_delivery reserved completed_at result t =
      settle result.status reserved.row completed_at result t

-- The steps on the table while dispatchers run: the two halves of a delivery, by any worker and for
-- any copy of the delivery, the coordinator's sweep, new deliveries, the retention,
-- and the deletion of deliveries with their job or their run.
pub data DispatchStep : Type 0 where
  start : String → WebhookDelivery → ℕ → DispatchStep
  finish : String → WebhookDelivery → ℕ → WebhookDispatchResult → DispatchStep
  sweep : String → WebhookDelivery → ℕ → DispatchStep
  submit : WebhookDeliveryCreate → ℕ → DispatchStep
  clean : ℕ → ℕ → ℕ → ℕ → DispatchStep
  drop_job_deliveries : String → DispatchStep
  drop_run_deliveries : String → String → ℕ → DispatchStep

unfoldable pub dispatch : Coding → Settings → DispatchStep → Table → Table
dispatch code c (start id d now) t = (start_delivery code c id d now t).1
dispatch code c (finish id d completed_at result) t =
    finish_delivery code c id d completed_at result t
dispatch code c (sweep id d now) t = (fail_if_exhausted code c id d now t).1
dispatch code c (submit d now) t = (enqueue_delivery code d now t).1
dispatch code c (clean delivered_before failed_before at limit) t =
    (scrub_terminal_deliveries delivered_before failed_before at limit t).1
dispatch code c (drop_job_deliveries job_id) t = delete_deliveries job_id t
dispatch code c (drop_run_deliveries job_id run_id before) t =
    prune_tombstones job_id run_id before t

unfoldable pub dispatch_all : Coding → Settings → List DispatchStep → Table → Table
unfolding dispatch
dispatch_all code c [] t = t
dispatch_all code c (s ∷ ss) t = dispatch_all code c ss (dispatch code c s t)
