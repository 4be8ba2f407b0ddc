-- ===== src/Examples/Webhook.antt =====
-- Tests and examples for the webhook dispatcher, src/scrapeyard/webhook/dispatcher.py.
use scrapeyard.Prelude.{ℕ, ◌≡◌, refl, arith, none, some, List, [], ◌∷◌, text_keys}
use scrapeyard.Prelude.Dict.{get}
use scrapeyard.Outbox.{Row, Table}
use scrapeyard.Outbox.Codec.{WebhookDelivery, new_row}
use scrapeyard.Webhook.{Settings, WebhookDispatchResult, WebhookDispatchStatus}
use scrapeyard.Webhook.Send.{Texts, response, send_result}
use scrapeyard.Webhook.Process.{DispatchStep, start, finish, dispatch_all, finish_delivery}
use scrapeyard.Webhook.Attempts.{AtMost, dispatch_all-AtMost}
use scrapeyard.Webhook.Settle.{Settled, finish_settles}
use scrapeyard.Examples.Outbox.{plain, first, table}

-- Two attempts in a day, from one second to half a minute apart.
abbrev settings : Settings
settings = record {
  max_delivery_attempts = 2;
  max_delivery_age = 86400000000;
  backoff_base = 1000000;
  backoff_max = 30000000;
}

abbrev texts : Texts
texts = record {
  as_seconds = λ _. some 7;
  as_date = λ _. none;
  http_error = λ _. "HTTP error";
  transport_error = λ _. "Transport failure";
  dispatcher_error = λ _. "Non-retryable dispatcher failure";
}

-- The delivery before and after its first reservation, as a worker reads it.
abbrev read_at : ℕ → WebhookDelivery
read_at n = record {
  row = record (new_row plain first 5) { attempts = n };
  url = "https://example.org/hook";
  headers = [];
  payload = [];
  last_error = none;
}

abbrev busy : WebhookDispatchResult
busy = send_result texts 20 (response 503 (some "7"))

abbrev turns : List DispatchStep
turns =
    start "d1" (read_at 0) 10
    ∷ finish "d1" (read_at 1) 20 busy
    ∷ start "d1" (read_at 0) 30
    ∷ start "d1" (read_at 1) 7000020
    ∷ finish "d1" (read_at 2) 7000030 busy
    ∷ start "d1" (read_at 2) 9000000
    ∷ []

dispatch_all-AtMost_example : AtMost 2 (dispatch_all plain settings turns table)
dispatch_all-AtMost_example =
    dispatch_all-AtMost plain settings turns table (unfold new_row in (omega arith, tt))

abbrev reserved_table : Table
reserved_table = ("d1", record (new_row plain first 5) { attempts = 1 }) ∷ []

finish_settles_example :
    (q : Row) × (get "d1" (finish_delivery plain settings "d1" (read_at 1) 20 busy reserved_table)
      ≡ some q)
    × Settled settings (read_at 1).row 20 busy.status q
unfolding get new_row
finish_settles_example =
    finish_settles plain settings "d1" (read_at 1) 20 busy
      (record (new_row plain first 5) { attempts = 1 }) reserved_table refl refl

-- A busy receiver asks for seven seconds, and gets them.
busy_waits : busy.retry_after ≡ some 7000000
unfolding send_result
busy_waits = refl

not_found_is_final :
    (send_result texts 20 (response 404 none)).status ≡ WebhookDispatchStatus.permanent_failed
unfolding send_result
not_found_is_final = refl
