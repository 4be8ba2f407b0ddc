-- ===== src/Outbox/Codec.antt =====
-- How src/scrapeyard/storage/webhook_outbox.py writes a delivery into a row and reads it back.
-- Encryption and JSON are parameters.
use scrapeyard.Prelude.{
  ℕ, String, Bool, true, false, ◌==◌, Option, none, some, [], ◌∷◌, text_keys, if◌then◌else◌,
}
use scrapeyard.Prelude.Dict.{Dict, get, put}
use scrapeyard.Outbox.{pending, Row, Table, reserve_attempt, quarantine_malformed_row}

-- JSON values: a text, or another value with what Python's `str` makes of it.
pub data Json : Type 0 where
  text : String → Json
  other : String → Json

pub data Purpose : Type 0 where
  webhook_url webhook_headers_json webhook_payload_json webhook_last_error : String → Purpose

-- `protect_text` and `reveal_text`, `_dumps_json`, which sorts the keys, and the parser of JSON objects; nothing for the
-- `ValueError` of a text that cannot be revealed or is no object.
pub record Coding : Type 0 where
  pub protect : Purpose → String → String
  pub reveal : Purpose → String → Option String
  pub dumps : Dict String Json → String
  pub loads : String → Option (Dict String Json)

pub record WebhookDeliveryCreate : Type 0 where
  pub delivery_id : String
  pub job_id : String
  pub run_id : Option String
  pub event : String
  pub url : String
  pub headers : Dict String String
  pub timeout_ms : ℕ
  pub payload : Dict String Json
  pub next_attempt_at : ℕ

pub record WebhookDelivery : Type 0 where
  pub row : Row
  pub url : String
  pub headers : Dict String String
  pub payload : Dict String Json
  pub last_error : Option String

unfoldable pub as_json : Dict String String → Dict String Json
as_json [] = []
as_json ((k, v) ∷ d) = (k, text v) ∷ as_json d

abbrev pub to_text : Json → String
to_text (text t) = t
to_text (other t) = t

-- `{str(key): str(item) for ...}`.
unfoldable pub as_texts : Dict String Json → Dict String String
as_texts [] = []
as_texts ((k, v) ∷ d) = (k, to_text v) ∷ as_texts d

abbrev pub bind {ℓ κ} : {A : Type ℓ} {B : Type κ} → Option A → (A → Option B) → Option B
bind none f = none
bind (some a) f = f a

unfoldable pub new_row : Coding → WebhookDeliveryCreate → ℕ → Row
unfolding as_json
new_row c d now = record {
  job_id = d.job_id;
  run_id = d.run_id;
  event = d.event;
  url = c.protect (webhook_url d.delivery_id) d.url;
  headers_json = c.protect (webhook_headers_json d.delivery_id) (c.dumps (as_json d.headers));
  timeout_ms = d.timeout_ms;
  payload_json = c.protect (webhook_payload_json d.delivery_id) (c.dumps d.payload);
  status = pending;
  attempts = 0;
  next_attempt_at = d.next_attempt_at;
  last_attempt_at = none;
  delivered_at = none;
  failed_at = none;
  failure_reason = none;
  last_error = none;
  scrubbed_at = none;
  created_at = now;
  updated_at = now;
}

abbrev pub names_itself : WebhookDeliveryCreate → Option Json → Bool
names_itself d (some (text t)) = t == d.delivery_id
names_itself d _ = false

-- `INSERT OR IGNORE`.
abbrev pub insert_ignore : String → Row → Option Row → Table → Table
insert_ignore delivery_id row (some _) t = t
insert_ignore delivery_id row none t = put delivery_id row t

-- Whether the payload names the delivery (`ValueError` if not), and the table.
unfoldable pub enqueue_delivery : Coding → WebhookDeliveryCreate → ℕ → Table → Bool × Table
enqueue_delivery c d now t =
    if names_itself d (get "delivery_id" d.payload)
    then (true, insert_ignore d.delivery_id (new_row c d now) (get d.delivery_id t) t)
    else (false, t)

abbrev pub reveal_error : Coding → String → Option String → Option (Option String)
reveal_error c delivery_id none = some none
reveal_error c delivery_id (some e) =
    bind (c.reveal (webhook_last_error delivery_id) e) (λ t. some (some t))

-- `row_to_webhook_delivery`: nothing where it raises.
unfoldable pub row_to_webhook_delivery : Coding → String → Row → Option WebhookDelivery
unfolding as_texts
row_to_webhook_delivery c delivery_id row = bind (c.reveal (webhook_url delivery_id) row.url) λ url.
    bind (bind (c.reveal (webhook_headers_json delivery_id) row.headers_json) c.loads) λ headers.
      bind (bind (c.reveal (webhook_payload_json delivery_id) row.payload_json) c.loads) λ payload.
        bind (reveal_error c delivery_id row.last_error) λ last_error. some (record {
          row = row;
          url = url;
          headers = as_texts headers;
          payload = payload;
          last_error = last_error;
        })

-- A row that cannot be decoded is quarantined.
abbrev pub answer_decoded :
    String → ℕ → Option WebhookDelivery → Table → Option WebhookDelivery × Table
answer_decoded delivery_id at (some d) t = (some d, t)
answer_decoded delivery_id at none t = (none, (quarantine_malformed_row delivery_id at t).1)

abbrev pub read_reserved : Coding → String → ℕ → Option Row → Table → Option WebhookDelivery × Table
read_reserved c delivery_id at none t = (none, t)
read_reserved c delivery_id at (some row) t =
    answer_decoded delivery_id at (row_to_webhook_delivery c delivery_id row) t

abbrev pub begin_reserved : Coding → String → ℕ → Bool × Table → Option WebhookDelivery × Table
begin_reserved c delivery_id at (false, t) = (none, t)
begin_reserved c delivery_id at (true, t) = read_reserved c delivery_id at (get delivery_id t) t

unfoldable pub begin_attempt : Coding → String → ℕ → ℕ → Table → Option WebhookDelivery × Table
unfolding reserve_attempt row_to_webhook_delivery quarantine_malformed_row
begin_attempt c delivery_id expected at t =
    begin_reserved c delivery_id at (reserve_attempt delivery_id expected at t)

-- `get_delivery` quarantines a row that it cannot decode.
unfoldable pub get_delivery : Coding → String → ℕ → Table → Option WebhookDelivery × Table
unfolding row_to_webhook_delivery quarantine_malformed_row
get_delivery c delivery_id now t = read_reserved c delivery_id now (get delivery_id t) t
