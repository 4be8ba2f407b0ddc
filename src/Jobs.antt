-- ===== src/Jobs.antt =====
-- The database of jobs, src/scrapeyard/storage/job_store.py: its tables and the transactions on
-- them. A `BEGIN IMMEDIATE` transaction holds the write lock of the database, so it is one step; it
-- commits, rolls back and returns, or raises and is rolled back. Times are whole microseconds, whose
-- order is the order of the stored texts. Columns that no modelled condition reads are left out:
-- project, name, created_at and schedule_timezone of a job, and of a webhook delivery its protected
-- texts, its timeout and the times of its attempts.
pub mod Queue
pub mod Ownership
pub mod Recovery
pub mod Deletion
pub mod Steps
pub mod Rules
pub mod Running
pub mod Exclusive
pub mod History
pub mod Lifecycle
pub mod Claim
pub mod Reconcile
use scrapeyard.Prelude.{
  String, ℕ, Bool, true, false, ◌&&◌, Option, none, some, List, ◌==◌, text_keys, if◌then◌else◌,
}
use scrapeyard.Prelude.Dict.{Dict, get, put}

pub data JobStatus : Type 0 where
  queued running complete partial failed cancelled deleting : JobStatus

-- `str` values of the two enumerations are compared as they are.
abbrev pub same_status : JobStatus → JobStatus → Bool
same_status queued queued = true
same_status running running = true
same_status complete complete = true
same_status partial partial = true
same_status failed failed = true
same_status cancelled cancelled = true
same_status deleting deleting = true
same_status _ _ = false

-- `TERMINAL_RUN_STATUSES`.
abbrev pub is_terminal : JobStatus → Bool
is_terminal complete = true
is_terminal partial = true
is_terminal failed = true
is_terminal _ = false

-- SQL's `IS`, and its `=` against a value that is not NULL.
abbrev pub is_same : Option String → Option String → Bool
is_same none none = true
is_same (some a) (some b) = a == b
is_same _ _ = false

-- What a protected text is bound to.
pub data Purpose : Type 0 where
  job_config snapshot_config run_config : String → Purpose

-- `protect_text`, `reveal_text` (nothing for `SecretDecryptionError`) and the SHA-256 of a text.
pub record Secrets : Type 0 where
  pub protect : Purpose → String → String
  pub reveal : Purpose → String → Option String
  pub digest : String → String

pub record Job : Type 0 where
  pub status : JobStatus
  pub config_yaml : String
  pub config_hash : String
  pub updated_at : Option ℕ
  pub schedule_cron : Option String
  pub schedule_enabled : Bool
  pub current_run_id : Option String
  pub current_trigger : Option String
  pub deletion_requested_at : Option ℕ
  pub delete_results_on_delete : Option Bool
  pub schedule_failure_at : Option ℕ
  pub schedule_failure_code : Option String
  pub schedule_consecutive_failures : ℕ

pub record JobRun : Type 0 where
  pub job_id : String
  pub status : JobStatus
  pub trigger : String
  pub config_hash : String
  pub config_yaml : Option String
  pub started_at : ℕ
  pub heartbeat_at : ℕ
  pub completed_at : Option ℕ
  pub record_count : Option ℕ
  pub error_count : ℕ
  pub webhook_reconciled_at : Option ℕ
  pub failure_code : Option String

pub record QueuedRunSnapshot : Type 0 where
  pub job_id : String
  pub trigger : String
  pub config_hash : String
  pub config_yaml : String
  pub queued_at : ℕ

pub data DeliveryStatus : Type 0 where
  pending delivered failed_delivery : DeliveryStatus

pub record WebhookDelivery : Type 0 where
  pub job_id : String
  pub run_id : Option String
  pub event : String
  pub status : DeliveryStatus
  pub created_at : ℕ

pub record IdempotencyRecord : Type 0 where
  pub job_id : String
  pub run_id : String
  pub expires_at : ℕ

-- The tables by their primary keys.
pub record JobStore : Type 0 where
  pub jobs : Dict String Job
  pub job_runs : Dict String JobRun
  pub queued_run_snapshots : Dict String QueuedRunSnapshot
  pub webhook_deliveries : Dict String WebhookDelivery
  pub scrape_idempotency : Dict (String × String) IdempotencyRecord

pub data StoreError : Type 0 where
  run_ownership_error integrity_error secret_decryption_error value_error : StoreError
  runtime_error admission_backlog admission_memory : StoreError

-- A statement inside a transaction with result `R`: it goes on, or ends the transaction.
pub data Step (R A : Type 0) : Type 0 where
  next : A → JobStore → Step R A
  rolled_back : R → Step R A
  raised : StoreError → Step R A

abbrev pub Tx : Type 0 → Type 0 → Type 0
Tx R A = JobStore → Step R A

abbrev pub continue : {R A B : Type 0} → (A → Tx R B) → Step R A → Step R B
continue k (next a s) = k a s
continue k (rolled_back r) = rolled_back r
continue k (raised e) = raised e

infixl 5 ◌>>=◌ ◌>>◌
abbrev pub ◌>>=◌ : {R A B : Type 0} → Tx R A → (A → Tx R B) → Tx R B
◌>>=◌ m k s = continue k (m s)

abbrev pub ◌>>◌ : {R B : Type 0} → Tx R (Unit {0}) → Tx R B → Tx R B
m >> k = m >>= λ _. k

abbrev pub return : {R A : Type 0} → A → Tx R A
return a s = next a s

-- `await db.rollback(); return r`.
abbrev pub rollback : {R A : Type 0} → R → Tx R A
rollback r s = rolled_back r

abbrev pub raise : {R A : Type 0} → StoreError → Tx R A
raise e s = raised e

-- What the caller of a transaction gets.
pub data Reply (R : Type 0) : Type 0 where
  returned : R → Reply R
  error : StoreError → Reply R

abbrev pub conclude : {R : Type 0} → JobStore → Step R R → Reply R × JobStore
conclude s (next r s') = (returned r, s')
conclude s (rolled_back r) = (returned r, s)
conclude s (raised e) = (error e, s)

-- `async with get_db("jobs.db") as db, db_transaction(db)`.
abbrev pub transaction : {R : Type 0} → Tx R R → JobStore → Reply R × JobStore
transaction tx s = conclude s (tx s)

abbrev pub select_job : {R : Type 0} → String → Tx R (Option Job)
select_job job_id s = next (get job_id s.jobs) s

-- `UPDATE jobs SET ... WHERE job_id = ? AND ...`; whether its row count is 1.
abbrev pub update_found :
    {R : Type 0} → String → (Job → Bool) → (Job → Job) → Option Job → Tx R Bool
update_found job_id matches change none s = next false s
update_found job_id matches change (some job) s =
    if matches job
    then next true (record s { jobs = put job_id (change job) s.jobs })
    else next false s

abbrev pub update_job : {R : Type 0} → String → (Job → Bool) → (Job → Job) → Tx R Bool
update_job job_id matches change s = update_found job_id matches change (get job_id s.jobs) s

-- The row of a run of the given job.
abbrev pub owned_by : String → Option JobRun → Option JobRun
owned_by job_id none = none
owned_by job_id (some run) = if run.job_id == job_id then some run else none

abbrev pub select_run : {R : Type 0} → String → String → Tx R (Option JobRun)
select_run job_id run_id s = next (owned_by job_id (get run_id s.job_runs)) s

-- `UPDATE job_runs SET ... WHERE job_id = ? AND run_id = ? AND ...`.
abbrev pub update_run_found :
    {R : Type 0} → String → (JobRun → Bool) → (JobRun → JobRun) → Option JobRun → Tx R Bool
update_run_found run_id matches change none s = next false s
update_run_found run_id matches change (some run) s =
    if matches run
    then next true (record s { job_runs = put run_id (change run) s.job_runs })
    else next false s

abbrev pub update_run :
    {R : Type 0} → String → String → (JobRun → Bool) → (JobRun → JobRun) → Tx R Bool
update_run job_id run_id matches change s =
    update_run_found run_id matches change (owned_by job_id (get run_id s.job_runs)) s

-- `INSERT INTO job_runs`, whose primary key is `run_id`.
abbrev pub insert_run_found : {R : Type 0} → String → JobRun → Option JobRun → Tx R (Unit {0})
insert_run_found run_id run none s = next tt (record s { job_runs = put run_id run s.job_runs })
insert_run_found run_id run (some _) s = raised integrity_error

abbrev pub insert_run : {R : Type 0} → String → JobRun → Tx R (Unit {0})
insert_run run_id run s = insert_run_found run_id run (get run_id s.job_runs) s

-- `_reveal_verified`: a config is returned only if it hashes to the expected hash.
abbrev pub verified : {R : Type 0} → Secrets → String → Option String → Tx R (Option String)
verified secrets expected none = raise secret_decryption_error
verified secrets expected (some text) =
    return (if secrets.digest text == expected then some text else none)

abbrev pub reveal_verified :
    {R : Type 0} → Secrets → Purpose → String → String → Tx R (Option String)
reveal_verified secrets purpose stored expected =
    verified secrets expected (secrets.reveal purpose stored)
