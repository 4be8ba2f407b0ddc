-- ===== src/Webhook/Send.antt =====
-- How one HTTP exchange becomes a result in `send_once` of src/scrapeyard/webhook/dispatcher.py. The
-- exchange itself and the parsing of header values are parameters.
use scrapeyard.Prelude.{
  ℕ, ◌-◌, ◌*◌, String, Bool, ◌&&◌, ◌||◌, leb, nat_eq, Option, none, some, if◌then◌else◌,
}
use scrapeyard.Outbox.{permanent_http_response, unsafe_url, non_retryable_failure}
use scrapeyard.Webhook.{
  WebhookDispatchStatus, delivered, retryable_failed, permanent_failed, WebhookDispatchReason,
  retryable_http_response, transport_failure, for_good, WebhookDispatchResult, is_retryable_status,
}

-- The texts of header values as numbers of seconds and as dates with a time zone, and of numbers
-- and names in messages.
pub record Texts : Type 0 where
  pub as_seconds : String → Option ℕ
  pub as_date : String → Option ℕ
  pub http_error : ℕ → String
  pub transport_error : String → String
  pub dispatcher_error : String → String

-- How the exchange ended: a response with its status code and its `Retry-After` header, the guard's
-- refusal of the URL, a failure of name, transport or deadline, or another exception.
pub data Exchange : Type 0 where
  response : ℕ → Option String → Exchange
  unsafe_target : Exchange
  transport : String → Exchange
  other_error : String → Exchange

abbrev pub later_than : ℕ → ℕ → Option ℕ
later_than now date = if leb date now then none else some (date - now)

abbrev pub parse_date : ℕ → Option ℕ → Option ℕ
parse_date now none = none
parse_date now (some date) = later_than now date

abbrev pub parse_delay : Texts → ℕ → String → Option ℕ → Option ℕ
parse_delay x now value (some seconds) = some (1000000 * seconds)
parse_delay x now value none = parse_date now (x.as_date value)

-- `_parse_retry_after`, without the word for the log.
unfoldable pub parse_retry_after : Texts → ℕ → ℕ → Option String → Option ℕ
parse_retry_after x now status_code none = none
parse_retry_after x now status_code (some value) =
    if nat_eq status_code 429 || nat_eq status_code 503
    then parse_delay x now value (x.as_seconds value)
    else none

abbrev pub is_success : ℕ → Bool
is_success status_code = leb 200 status_code && leb status_code 299

abbrev pub result_of :
    WebhookDispatchStatus → String → WebhookDispatchReason → Option ℕ → WebhookDispatchResult
result_of s error reason retry = record {
  status = s;
  last_error = some error;
  reason_code = some reason;
  retry_after = retry;
}

abbrev pub delivered_result : WebhookDispatchResult
delivered_result = record {
  status = delivered;
  last_error = none;
  reason_code = none;
  retry_after = none;
}

unfoldable pub send_result : Texts → ℕ → Exchange → WebhookDispatchResult
unfolding is_retryable_status parse_retry_after
send_result x now (response code header) =
    if is_success code
    then delivered_result
    else if is_retryable_status code
    then result_of retryable_failed (x.http_error code) retryable_http_response
        (parse_retry_after x now code header)
    else result_of permanent_failed (x.http_error code) (for_good permanent_http_response) none
send_result x now unsafe_target =
    result_of permanent_failed "Webhook URL is unsafe or non-public" (for_good unsafe_url) none
send_result x now (transport error) =
    result_of retryable_failed (x.transport_error error) transport_failure none
-- `_process_delivery` catches what `send_once` lets through.
send_result x now (other_error error) =
    result_of permanent_failed (x.dispatcher_error error) (for_good non_retryable_failure) none
