-- ===== src/Examples/Outbox.antt =====
-- Tests and examples for the webhook outbox, src/scrapeyard/storage/webhook_outbox.py.
use scrapeyard.Prelude.{
  ◌≡◌, refl, String, true, false, none, some, List, [], ◌∷◌, text_keys, if◌then◌else◌, ◌==◌,
  sort_by, insert_by,
}
use scrapeyard.Prelude.Dict.{Dict, get, put, keep}
use scrapeyard.Outbox.{Table, unsafe_url, mark_delivered, mark_failed}
use scrapeyard.Outbox.Codec.{
  Coding, Json, text, WebhookDeliveryCreate, new_row, as_json, as_texts, enqueue_delivery,
  row_to_webhook_delivery, begin_attempt, WebhookDelivery,
}
use scrapeyard.Outbox.Roundtrip.{ComesBack, row_to_webhook_delivery-new_row}
use scrapeyard.Prelude.SortedDict.{sort_keys}
use scrapeyard.Outbox.Scrub.{scrub_terminal_deliveries, select_old, filter_rows}
use scrapeyard.Outbox.Deletion.{delete_deliveries, has_pending_delivery}
use scrapeyard.Outbox.Steps.{
  Step, apply, apply_all, enqueue, begin, deliver, scrub, delete_job, prune_run,
}
use scrapeyard.Outbox.Evolution.{Endures, apply_all-Endures}
use scrapeyard.Outbox.Secrecy.{AllKeepNothing, apply_all-AllKeepNothing}
use scrapeyard.Outbox.Once.{begin_attempt_once, enqueue_delivery_once}

abbrev the_payload : Dict String Json
the_payload = ("event", text "job.complete") ∷ ("delivery_id", text "d1") ∷ []

abbrev sorted_payload : Dict String Json
sorted_payload = ("delivery_id", text "d1") ∷ ("event", text "job.complete") ∷ []

-- A coding that knows two texts.
abbrev the_dumps : Dict String Json → String
the_dumps [] = "{}"
the_dumps (_ ∷ _) = "{\"delivery_id\":\"d1\",\"event\":\"job.complete\"}"

abbrev pub plain : Coding
plain = record {
  protect = λ _ t. t;
  reveal = λ _ t. some t;
  dumps = the_dumps;
  loads = λ t. if t == "{}" then some [] else some sorted_payload;
}

abbrev pub first : WebhookDeliveryCreate
first = record {
  delivery_id = "d1";
  job_id = "j";
  run_id = some "r";
  event = "job.complete";
  url = "https://example.org/hook";
  headers = [];
  timeout_ms = 10000;
  payload = the_payload;
  next_attempt_at = 5;
}

row_to_webhook_delivery-new_row_example :
    (w : WebhookDelivery) × (row_to_webhook_delivery plain "d1" (new_row plain first 5) ≡ some w)
    × (w.row ≡ new_row plain first 5)
    × ComesBack first w
unfolding as_json sort_keys sort_by insert_by get
row_to_webhook_delivery-new_row_example =
    row_to_webhook_delivery-new_row plain first 5
      (record { reveal-protect = λ _ _. refl; headers_read = refl; payload_read = refl }) tt
      (refl, (refl, tt))

abbrev pub table : Table
table = ("d1", new_row plain first 5) ∷ []

abbrev some_steps : List Step
some_steps =
    deliver "d1" 9 (some 1) 0
    ∷ scrub 20 20 30 8
    ∷ enqueue first 40
    ∷ delete_job "other"
    ∷ prune_run "j" "older" 50
    ∷ []

apply_all-Endures_example :
    Endures "d1" (new_row plain first 5) (apply_all plain (begin "d1" 0 7 ∷ some_steps) table)
unfolding new_row get
apply_all-Endures_example =
    apply_all-Endures plain (begin "d1" 0 7 ∷ some_steps) "d1" (new_row plain first 5) table refl
      (refl, (refl, (refl, (refl, (refl, (refl, tt))))))

begin_attempt_once_example :
    begin_attempt plain "d1" 0 8 (apply_all plain some_steps (begin_attempt plain "d1" 0 7 table).1)
    ≡ (none, apply_all plain some_steps (begin_attempt plain "d1" 0 7 table).1)
unfolding begin_attempt get put new_row as_json as_texts row_to_webhook_delivery
begin_attempt_once_example =
    begin_attempt_once plain "d1" 0 7 8 table (new_row plain first 5) _ some_steps refl refl
      (refl, (refl, (refl, (refl, (refl, tt)))))

enqueue_delivery_once_example :
    enqueue_delivery plain first 50
      (apply_all plain some_steps (enqueue_delivery plain first 5 []).1)
    ≡ (true, apply_all plain some_steps (enqueue_delivery plain first 5 []).1)
unfolding enqueue_delivery new_row get put
enqueue_delivery_once_example =
    enqueue_delivery_once plain first 5 50 some_steps [] (new_row plain first 5) refl refl
      (refl, (refl, (refl, (refl, (refl, tt)))))

apply_all-AllKeepNothing_example :
    AllKeepNothing (apply_all plain (enqueue first 5 ∷ begin "d1" 0 7 ∷ some_steps) [])
apply_all-AllKeepNothing_example =
    apply_all-AllKeepNothing plain (enqueue first 5 ∷ begin "d1" 0 7 ∷ some_steps) [] tt

-- When its job is deleted a delivery goes, and can be enqueued again.
deleted_with_its_job :
    get "d1" (apply_all plain (deliver "d1" 9 none 1 ∷ delete_job "j" ∷ []) table) ≡ none
unfolding apply_all apply mark_delivered delete_deliveries has_pending_delivery keep get put new_row
deleted_with_its_job = refl

-- While it is pending its job cannot be deleted.
pending_is_kept : apply_all plain (delete_job "j" ∷ []) table ≡ table
unfolding apply_all apply delete_deliveries has_pending_delivery keep get put new_row
pending_is_kept = refl

scrub_counts_one :
    (scrub_terminal_deliveries 20 20 30 8 (mark_delivered "d1" 9 none 1 table).1).0
    ≡ some (record { delivered_scrubbed = 1; failed_scrubbed = 0 })
unfolding scrub_terminal_deliveries select_old filter_rows mark_delivered get put new_row
scrub_counts_one = refl

failed_is_not_delivered :
    (mark_delivered "d1" 9 none 1 (mark_failed "d1" 8 unsafe_url none none 0 table).1).0 ≡ false
unfolding mark_delivered mark_failed get put new_row
failed_is_not_delivered = refl
