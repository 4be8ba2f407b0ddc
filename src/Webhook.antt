-- ===== src/Webhook.antt =====
-- The webhook dispatcher, src/scrapeyard/webhook/dispatcher.py, over the outbox. Sending a request is
-- a parameter; other tasks may change the table between the reservation of an attempt and its
-- outcome. Times and delays are whole microseconds.
pub mod Send
pub mod Process
pub mod Attempts
pub mod Settle
use scrapeyard.Prelude.{
  ℕ, zero, suc, ◌+◌, ◌*◌, ◌^◌, min, max, String, Bool, true, false, ◌||◌, leb, ltb, nat_eq, Option,
  none, some, if◌then◌else◌,
}
use scrapeyard.Outbox.{
  WebhookFailureReason, permanent_http_response, unsafe_url, non_retryable_failure,
}

pub data WebhookDispatchStatus : Type 0 where
  delivered retryable_failed permanent_failed : WebhookDispatchStatus

pub data WebhookDispatchReason : Type 0 where
  retryable_http_response transport_failure : WebhookDispatchReason
  for_good : WebhookFailureReason → WebhookDispatchReason

pub record WebhookDispatchResult : Type 0 where
  pub status : WebhookDispatchStatus
  pub last_error : Option String
  pub reason_code : Option WebhookDispatchReason
  pub retry_after : Option ℕ

-- What the dispatcher is built with.
pub record Settings : Type 0 where
  pub max_delivery_attempts : ℕ
  pub max_delivery_age : ℕ
  pub backoff_base : ℕ
  pub backoff_max : ℕ

unfoldable pub backoff_delay : Settings → ℕ → ℕ
backoff_delay c attempt_index = min (c.backoff_base * 2 ^ min attempt_index 62) c.backoff_max

unfoldable pub is_retryable_status : ℕ → Bool
is_retryable_status status_code = leb 500 status_code || nat_eq status_code 429

-- `_terminal_reason`.
unfoldable pub terminal_reason : Option WebhookDispatchReason → WebhookFailureReason
terminal_reason (some (for_good permanent_http_response)) = permanent_http_response
terminal_reason (some (for_good unsafe_url)) = unsafe_url
terminal_reason _ = non_retryable_failure
