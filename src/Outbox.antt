-- ===== src/Outbox.antt =====
-- The durable webhook outbox, src/scrapeyard/storage/webhook_outbox.py: the table of deliveries and
-- the statements on it. A transaction on the table is one step. Times are whole microseconds and
-- time-outs whole milliseconds. The decoding of a row is in the child Codec.
pub mod Codec
pub mod Roundtrip
pub mod Scrub
pub mod Deletion
pub mod Steps
pub mod Evolution
pub mod Entries
pub mod Secrecy
pub mod Once
pub mod Evolves
use scrapeyard.Prelude.{
  ℕ, zero, suc, ◌+◌, String, Bool, true, false, ◌&&◌, not, nat_eq, Option, none, some, List, [],
  ◌∷◌, text_keys, if◌then◌else◌,
}
use scrapeyard.Prelude.Dict.{Dict, get, put}

pub data WebhookDeliveryStatus : Type 0 where
  pending delivered failed : WebhookDeliveryStatus

pub data WebhookFailureReason : Type 0 where
  attempt_exhausted age_exhausted permanent_http_response : WebhookFailureReason
  unsafe_url non_retryable_failure decode_failure : WebhookFailureReason

-- A row of `webhook_deliveries`; its texts are protected.
pub record Row : Type 0 where
  pub job_id : String
  pub run_id : Option String
  pub event : String
  pub url : String
  pub headers_json : String
  pub timeout_ms : ℕ
  pub payload_json : String
  pub status : WebhookDeliveryStatus
  pub attempts : ℕ
  pub next_attempt_at : ℕ
  pub last_attempt_at : Option ℕ
  pub delivered_at : Option ℕ
  pub failed_at : Option ℕ
  pub failure_reason : Option WebhookFailureReason
  pub last_error : Option String
  pub scrubbed_at : Option ℕ
  pub created_at : ℕ
  pub updated_at : ℕ

abbrev pub Table : Type 0
Table = Dict String Row

abbrev pub is_pending : Row → Bool
is_pending row = elim row.status [ pending ↦ true | _ ↦ false ]

-- `UPDATE webhook_deliveries SET ... WHERE delivery_id = ? AND ...`: whether a row was changed, and
-- the table.
abbrev pub update_found : String → (Row → Bool) → (Row → Row) → Option Row → Table → Bool × Table
update_found delivery_id matches change none t = (false, t)
update_found delivery_id matches change (some row) t =
    if matches row then (true, put delivery_id (change row) t) else (false, t)

unfoldable pub update_row : String → (Row → Bool) → (Row → Row) → Table → Bool × Table
update_row delivery_id matches change t =
    update_found delivery_id matches change (get delivery_id t) t

-- `_pending_update`: the row is pending, and has the expected attempts if any are expected.
abbrev pub is_expected : Option ℕ → Row → Bool
is_expected none row = true
is_expected (some n) row = nat_eq row.attempts n

abbrev pub is_open : Option ℕ → Row → Bool
is_open expected row = is_pending row && is_expected expected row

unfoldable pub pending_update : String → (Row → Row) → Option ℕ → Table → Bool × Table
unfolding update_row
pending_update delivery_id change expected = update_row delivery_id (is_open expected) change

-- Without expected attempts the update counts the attempts itself.
abbrev pub count_attempts : Option ℕ → ℕ → ℕ → Row → Row
count_attempts (some n) more at row = row
count_attempts none more at row = record row {
  attempts = row.attempts + more;
  last_attempt_at = some at;
}

abbrev pub begin_change : ℕ → Row → Row
begin_change at row = record row {
  attempts = row.attempts + 1;
  last_attempt_at = some at;
  updated_at = at;
}

-- The compare-and-set of `begin_attempt`.
unfoldable pub reserve_attempt : String → ℕ → ℕ → Table → Bool × Table
unfolding update_row
reserve_attempt delivery_id expected at =
    update_row delivery_id (is_open (some expected)) (begin_change at)

abbrev pub delivered_change : ℕ → Option ℕ → ℕ → Row → Row
delivered_change at expected more row = count_attempts expected more at (record row {
  status = delivered;
  delivered_at = some at;
  failed_at = none;
  failure_reason = none;
  last_error = none;
  updated_at = at;
})

unfoldable pub mark_delivered : String → ℕ → Option ℕ → ℕ → Table → Bool × Table
unfolding pending_update
mark_delivered delivery_id at expected more =
    pending_update delivery_id (delivered_change at expected more) expected

-- The error's text is already protected.
abbrev pub retry_change : ℕ → ℕ → String → Option ℕ → ℕ → Row → Row
retry_change at next error expected more row =
    count_attempts expected more at
      (record row { next_attempt_at = next; last_error = some error; updated_at = at })

unfoldable pub mark_retryable_failure :
    String → ℕ → ℕ → String → Option ℕ → ℕ → Table → Bool × Table
unfolding pending_update
mark_retryable_failure delivery_id at next error expected more =
    pending_update delivery_id (retry_change at next error expected more) expected

-- `if expected_attempts is None and attempts`.
abbrev pub count_some_attempts : Option ℕ → ℕ → ℕ → Row → Row
count_some_attempts expected zero at row = row
count_some_attempts expected (suc n) at row = count_attempts expected (suc n) at row

abbrev pub failed_change : ℕ → WebhookFailureReason → Option String → Option ℕ → ℕ → Row → Row
failed_change at reason error expected more row = count_some_attempts expected more at (record row {
  status = failed;
  failed_at = some at;
  failure_reason = some reason;
  last_error = error;
  updated_at = at;
})

unfoldable pub mark_failed :
    String → ℕ → WebhookFailureReason → Option String → Option ℕ → ℕ → Table → Bool × Table
unfolding pending_update
mark_failed delivery_id at reason error expected more =
    pending_update delivery_id (failed_change at reason error expected more) expected

-- The attempts of a modelled row are a number already.
abbrev pub quarantine_change : ℕ → Row → Row
quarantine_change at row = record row {
  url = "";
  headers_json = "{}";
  timeout_ms = 0;
  payload_json = "{}";
  status = failed;
  next_attempt_at = at;
  last_attempt_at = none;
  delivered_at = none;
  failed_at = some at;
  failure_reason = some decode_failure;
  last_error = none;
  scrubbed_at = some at;
  created_at = at;
  updated_at = at;
}

unfoldable pub quarantine_malformed_row : String → ℕ → Table → Bool × Table
unfolding update_row
quarantine_malformed_row delivery_id at = update_row delivery_id is_pending (quarantine_change at)
