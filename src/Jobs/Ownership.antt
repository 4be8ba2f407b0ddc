-- ===== src/Jobs/Ownership.antt =====
-- The life of an owned run in src/scrapeyard/storage/job_store.py: heartbeat, end. With the
-- terminal webhook intent of src/scrapeyard/storage/job_terminal_reconciliation.py and the insertion
-- of src/scrapeyard/storage/webhook_outbox.py.
use scrapeyard.Prelude.{
  String, ℕ, ltb, Bool, true, false, ◌&&◌, not, Option, none, some, ◌==◌, text_keys, if◌then◌else◌,
}
use scrapeyard.Prelude.Dict.{Dict, get, put}
use scrapeyard.Jobs.{
  JobStatus, queued, running, complete, partial, failed, cancelled, deleting, same_status,
  is_terminal, is_same, Secrets, Job, JobRun, pending, WebhookDelivery, JobStore,
  run_ownership_error, value_error, Tx, next, raised, ◌>>=◌, ◌>>◌, return, raise, Reply, error,
  transaction, select_job, update_job, owned_by, update_run,
}
use scrapeyard.Jobs.Queue.{insert_failed_queued_run, is_queued_for, to_status}

abbrev pub is_running_for : String → Job → Bool
is_running_for run_id job =
    same_status job.status running && is_same job.current_run_id (some run_id)

abbrev pub is_running : JobRun → Bool
is_running run = same_status run.status running

-- `run_is_active`.
abbrev pub active : String → Option Job → Option JobRun → Bool
active run_id (some job) (some run) = is_running_for run_id job && is_running run
active run_id _ _ = false

unfoldable pub run_is_active : String → String → JobStore → Bool
run_is_active job_id run_id s =
    active run_id (get job_id s.jobs) (owned_by job_id (get run_id s.job_runs))

-- `current_trigger = ? OR current_trigger IS NULL`.

abbrev pub beat : ℕ → JobRun → JobRun
beat now run = record run { heartbeat_at = now }

-- The `EXISTS` of the statement.
abbrev pub holds_job : String → Option Job → Bool
holds_job run_id none = false
holds_job run_id (some job) = is_running_for run_id job

unfoldable pub heartbeat_run : String → String → ℕ → JobStore → Reply (Unit {0}) × JobStore
heartbeat_run job_id run_id now = transaction (
    select_job job_id >>= λ job.
    update_run job_id run_id (λ run. is_running run && holds_job run_id job) (beat now)
    >>= λ matched. if matched then return tt else raise run_ownership_error)

-- JSON values, of which only texts are looked at.
pub data Json : Type 0 where
  text : String → Json
  other : String → Json

pub record WebhookDeliveryCreate : Type 0 where
  pub delivery_id : String
  pub job_id : String
  pub run_id : Option String
  pub event : String
  pub payload : Dict String Json

-- `f"job.{status}"`.
abbrev pub event_of : JobStatus → String
event_of queued = "job.queued"
event_of running = "job.running"
event_of complete = "job.complete"
event_of partial = "job.partial"
event_of failed = "job.failed"
event_of cancelled = "job.cancelled"
event_of deleting = "job.deleting"

abbrev pub status_value : JobStatus → String
status_value queued = "queued"
status_value running = "running"
status_value complete = "complete"
status_value partial = "partial"
status_value failed = "failed"
status_value cancelled = "cancelled"
status_value deleting = "deleting"

abbrev pub is_text : String → Option Json → Bool
is_text expected (some (text t)) = t == expected
is_text expected _ = false

unfoldable pub delivery_matches : String → String → JobStatus → WebhookDeliveryCreate → Bool
delivery_matches job_id run_id status d =
    d.job_id == job_id
    && is_same d.run_id (some run_id)
    && d.event == event_of status
    && is_text job_id (get "job_id" d.payload)
    && is_text run_id (get "run_id" d.payload)
    && is_text (event_of status) (get "event" d.payload)
    && is_text (status_value status) (get "status" d.payload)

-- `validate_terminal_delivery`, where there is a delivery.
abbrev pub is_valid_delivery : String → String → JobStatus → Option WebhookDeliveryCreate → Bool
is_valid_delivery job_id run_id status none = true
is_valid_delivery job_id run_id status (some d) = delivery_matches job_id run_id status d

-- `INSERT OR IGNORE`, whose primary key is `delivery_id`.
abbrev pub insert_delivery :
    {R : Type 0} → WebhookDeliveryCreate → ℕ → Option WebhookDelivery → Tx R (Unit {0})
insert_delivery d now (some _) s = next tt s
insert_delivery d now none s = next tt (record s {
  webhook_deliveries =
      put d.delivery_id
        (record {
          job_id = d.job_id;
          run_id = d.run_id;
          event = d.event;
          status = pending;
          created_at = now;
        })
        s.webhook_deliveries;
})

-- `insert_webhook_delivery`, where there is a delivery; the commit is the end of the transaction.
unfoldable pub commit_terminal_intent :
    {R : Type 0} → Option WebhookDeliveryCreate → ℕ → Tx R (Unit {0})
commit_terminal_intent none now s = next tt s
commit_terminal_intent (some d) now s =
    if is_text d.delivery_id (get "delivery_id" d.payload)
    then insert_delivery d now (get d.delivery_id s.webhook_deliveries) s
    else raised value_error

-- What a finished run reports.
pub record RunEnd : Type 0 where
  pub status : JobStatus
  pub record_count : ℕ
  pub error_count : ℕ
  pub completed_at : ℕ
  pub heartbeat_cutoff : ℕ
  pub webhook_delivery : Option WebhookDeliveryCreate

abbrev pub finish_run : RunEnd → JobRun → JobRun
finish_run e run = record run {
  status = e.status;
  completed_at = some e.completed_at;
  record_count = some e.record_count;
  error_count = e.error_count;
  webhook_reconciled_at = some e.completed_at;
}

abbrev pub is_fresh : ℕ → JobRun → Bool
is_fresh cutoff run = is_running run && ltb cutoff run.heartbeat_at

unfoldable pub finalize_tx : String → String → RunEnd → Tx (Unit {0}) (Unit {0})
finalize_tx job_id run_id e =
    update_run job_id run_id (is_fresh e.heartbeat_cutoff) (finish_run e) >>= λ matched.
    if matched
    then (update_job job_id (is_running_for run_id) (to_status e.status e.completed_at) >>= λ owned.
        if owned
        then commit_terminal_intent e.webhook_delivery e.completed_at
        else raise run_ownership_error)
    else raise run_ownership_error

unfoldable pub finalize_owned_run :
    String → String → RunEnd → JobStore → Reply (Unit {0}) × JobStore
finalize_owned_run job_id run_id e s =
    if not (is_terminal e.status)
    then (error value_error, s)
    else if not (is_valid_delivery job_id run_id e.status e.webhook_delivery)
    then (error value_error, s)
    else transaction (finalize_tx job_id run_id e) s

-- The arguments of `fail_owned_run` beside the job and the run.
pub record RunFailure : Type 0 where
  pub failed_at : ℕ
  pub heartbeat_cutoff : Option ℕ
  pub error_count : ℕ
  pub webhook_delivery : Option WebhookDeliveryCreate

abbrev pub or_zero : Option ℕ → ℕ
or_zero none = 0
or_zero (some n) = n

abbrev pub fail_run : RunFailure → JobRun → JobRun
fail_run f run = record run {
  status = failed;
  completed_at = some f.failed_at;
  record_count = some (or_zero run.record_count);
  error_count = f.error_count;
  webhook_reconciled_at = some f.failed_at;
}

abbrev pub beats_after : Option ℕ → JobRun → Bool
beats_after none run = is_running run
beats_after (some cutoff) run = is_fresh cutoff run

abbrev pub fail_job :
    String → (String → Job → Bool) → String → RunFailure → Tx (Unit {0}) (Unit {0})
fail_job job_id matches run_id f =
    update_job job_id (matches run_id) (to_status failed f.failed_at) >>= λ owned.
    if owned
    then commit_terminal_intent f.webhook_delivery f.failed_at
    else raise run_ownership_error

abbrev pub fail_owned :
    Secrets → String → String → RunFailure → Option Job → Tx (Unit {0}) (Unit {0})
fail_owned secrets job_id run_id f none = raise run_ownership_error
fail_owned secrets job_id run_id f (some job) =
    if not (is_same job.current_run_id (some run_id))
    then raise run_ownership_error
    else if same_status job.status queued
    then (insert_failed_queued_run secrets job_id run_id f.failed_at f.error_count
          "preclaim_execution_failure"
        >> fail_job job_id is_queued_for run_id f)
    else if not (same_status job.status running)
    then raise run_ownership_error
    else (update_run job_id run_id (beats_after f.heartbeat_cutoff) (fail_run f) >>= λ matched.
        if matched then fail_job job_id is_running_for run_id f else raise run_ownership_error)

unfoldable pub fail_owned_tx : Secrets → String → String → RunFailure → Tx (Unit {0}) (Unit {0})
fail_owned_tx secrets job_id run_id f = select_job job_id >>= fail_owned secrets job_id run_id f

unfoldable pub fail_owned_run :
    Secrets → String → String → RunFailure → JobStore → Reply (Unit {0}) × JobStore
fail_owned_run secrets job_id run_id f s =
    if not (is_valid_delivery job_id run_id failed f.webhook_delivery)
    then (error value_error, s)
    else transaction (fail_owned_tx secrets job_id run_id f) s
