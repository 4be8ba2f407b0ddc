-- ===== src/Jobs/Queue.antt =====
-- Queueing of runs in src/scrapeyard/storage/job_store.py, and the failure of a queued one, with
-- `insert_failed_queued_run` of src/scrapeyard/storage/job_recovery.py.
use scrapeyard.Prelude.{
  String, ℕ, ltb, leb, Bool, true, false, ◌&&◌, ◌||◌, not, Option, none, some, [], ◌∷◌, ◌+◌, ◌==◌,
  text_keys, if◌then◌else◌,
}
use scrapeyard.Prelude.Int.{ℤ, pos, leb_ℤ}
use scrapeyard.Prelude.Dict.{Dict, get, put, remove}
use scrapeyard.Jobs.{
  JobStatus, queued, running, failed, cancelled, deleting, same_status, is_same, job_config,
  snapshot_config, run_config, Secrets, Job, JobRun, QueuedRunSnapshot, JobStore,
  run_ownership_error, integrity_error, value_error, runtime_error, admission_backlog,
  admission_memory, Tx, next, raised, ◌>>=◌, ◌>>◌, return, rollback, raise, Reply, transaction,
  select_job, update_job, insert_run, reveal_verified,
}

-- The settings that admission reads, and the memory it finds.
pub record Capacity : Type 0 where
  pub workers_max_accepted_runs : ℕ
  pub memory_headroom_mb : ℤ

abbrev pub is_some : {A : Type 0} → Option A → Bool
is_some none = false
is_some (some _) = true

abbrev pub is_accepted : Job → Bool
is_accepted job =
    (same_status job.status queued || same_status job.status running) && is_some job.current_run_id

-- `SELECT COUNT(*) FROM jobs WHERE ...`.
unfoldable pub count_jobs : (Job → Bool) → Dict String Job → ℕ
count_jobs p [] = 0
count_jobs p ((_, job) ∷ jobs) = (if p job then 1 else 0) + count_jobs p jobs

unfoldable pub check_admission : {R : Type 0} → Capacity → Tx R (Unit {0})
check_admission a s =
    if ltb a.workers_max_accepted_runs (count_jobs is_accepted s.jobs)
    then raised admission_backlog
    else if leb_ℤ a.memory_headroom_mb (pos 0)
    then raised admission_memory
    else next tt s

-- `INSERT INTO queued_run_snapshots`, whose primary key is `run_id`.
abbrev pub insert_snapshot_found :
    {R : Type 0} → String → QueuedRunSnapshot → Option QueuedRunSnapshot → Tx R (Unit {0})
insert_snapshot_found run_id snapshot none s =
    next tt (record s { queued_run_snapshots = put run_id snapshot s.queued_run_snapshots })
insert_snapshot_found run_id snapshot (some _) s = raised integrity_error

abbrev pub insert_snapshot : {R : Type 0} → String → QueuedRunSnapshot → Tx R (Unit {0})
insert_snapshot run_id snapshot s =
    insert_snapshot_found run_id snapshot (get run_id s.queued_run_snapshots) s

abbrev pub of_job : String → Option QueuedRunSnapshot → Option QueuedRunSnapshot
of_job job_id none = none
of_job job_id (some snapshot) = if snapshot.job_id == job_id then some snapshot else none

abbrev pub select_snapshot : {R : Type 0} → String → String → Tx R (Option QueuedRunSnapshot)
select_snapshot job_id run_id s = next (of_job job_id (get run_id s.queued_run_snapshots)) s

-- `DELETE FROM queued_run_snapshots WHERE job_id = ? AND run_id = ?`.
abbrev pub delete_found : {R : Type 0} → String → Option QueuedRunSnapshot → Tx R (Unit {0})
delete_found run_id none s = next tt s
delete_found run_id (some _) s =
    next tt (record s { queued_run_snapshots = remove run_id s.queued_run_snapshots })

abbrev pub delete_snapshot : {R : Type 0} → String → String → Tx R (Unit {0})
delete_snapshot job_id run_id s =
    delete_found run_id (of_job job_id (get run_id s.queued_run_snapshots)) s

-- The arguments of `queue_run` beside the job.
pub record QueueRequest : Type 0 where
  pub expected_status : JobStatus
  pub expected_run_id : Option String
  pub new_run_id : String
  pub new_trigger : String
  pub queued_at : ℕ
  pub stale_before : Option ℕ
  pub expected_config_yaml : Option String
  pub require_schedule_enabled : Bool

abbrev pub is_stale : Option ℕ → Option ℕ → Bool
is_stale none _ = true
is_stale (some _) none = true
is_stale (some limit) (some updated) = leb updated limit

abbrev pub has_config : Secrets → Option String → Job → Bool
has_config secrets none job = true
has_config secrets (some yaml) job = job.config_hash == secrets.digest yaml

abbrev pub queue_matches : Secrets → QueueRequest → Job → Bool
queue_matches secrets q job =
    same_status job.status q.expected_status
    && is_same job.current_run_id q.expected_run_id
    && is_stale q.stale_before job.updated_at
    && has_config secrets q.expected_config_yaml job
    && (not q.require_schedule_enabled || job.schedule_enabled)

abbrev pub queue_change : QueueRequest → Job → Job
queue_change q job = record job {
  status = queued;
  updated_at = some q.queued_at;
  current_run_id = some q.new_run_id;
  current_trigger = some q.new_trigger;
}

abbrev pub snapshot_of : Secrets → String → QueueRequest → Job → Option String → Tx Bool Bool
snapshot_of secrets job_id q job none = raise value_error
snapshot_of secrets job_id q job (some yaml) =
    insert_snapshot q.new_run_id (record {
      job_id = job_id;
      trigger = q.new_trigger;
      config_hash = job.config_hash;
      config_yaml = secrets.protect (snapshot_config q.new_run_id) yaml;
      queued_at = q.queued_at;
    })
    >> return true

abbrev pub snapshot_parent : Secrets → String → QueueRequest → Option Job → Tx Bool Bool
snapshot_parent secrets job_id q none = raise runtime_error
snapshot_parent secrets job_id q (some job) =
    reveal_verified secrets (job_config job_id) job.config_yaml job.config_hash
    >>= snapshot_of secrets job_id q job

unfoldable pub queue_run_tx : Secrets → Capacity → String → QueueRequest → Tx Bool Bool
queue_run_tx secrets a job_id q =
    update_job job_id (queue_matches secrets q) (queue_change q) >>= λ matched.
    if matched
    then (check_admission a >> (select_job job_id >>= snapshot_parent secrets job_id q))
    else rollback false

unfoldable pub queue_run :
    Secrets → Capacity → String → QueueRequest → JobStore → Reply Bool × JobStore
queue_run secrets a job_id q s =
    if same_status q.expected_status cancelled || same_status q.expected_status deleting
    then (Reply.returned false, s)
    else transaction (queue_run_tx secrets a job_id q) s

-- `x or y` for a text that may be NULL: an empty text counts as missing.
abbrev pub or_else : Option String → Option String → Option String
or_else none y = y
or_else (some x) y = if x == "" then y else some x

abbrev pub or_text : Option String → String → String
or_text none y = y
or_text (some x) y = if x == "" then y else x

abbrev pub snapshot_hash : Option QueuedRunSnapshot → Option String
snapshot_hash none = none
snapshot_hash (some snapshot) = some snapshot.config_hash

abbrev pub snapshot_trigger : Option QueuedRunSnapshot → Option String
snapshot_trigger none = none
snapshot_trigger (some snapshot) = some snapshot.trigger

abbrev pub snapshot_text : Secrets → String → Option QueuedRunSnapshot → Option String
snapshot_text secrets run_id none = none
snapshot_text secrets run_id (some snapshot) =
    secrets.reveal (snapshot_config run_id) snapshot.config_yaml

abbrev pub started : ℕ → Option QueuedRunSnapshot → ℕ
started failed_at none = failed_at
started failed_at (some snapshot) = snapshot.queued_at

-- The parent's config stands in only under the same hash.
abbrev pub or_parent : Secrets → String → Job → String → Option String → Option String
or_parent secrets job_id job hash none =
    if job.config_hash == hash then secrets.reveal (job_config job_id) job.config_yaml else none
or_parent secrets job_id job hash (some text) = some text

-- Protected for the run, if the text still has the hash.
abbrev pub protect_verified : Secrets → String → String → Option String → Option String
protect_verified secrets run_id hash none = none
protect_verified secrets run_id hash (some text) =
    if secrets.digest text == hash then some (secrets.protect (run_config run_id) text) else none

unfoldable pub failed_run :
    Secrets → String → String → ℕ → ℕ → String → Job → Option QueuedRunSnapshot → JobRun
failed_run secrets job_id run_id failed_at errors code job snapshot =
    let hash = or_text (snapshot_hash snapshot) job.config_hash in
    record {
      job_id = job_id;
      status = failed;
      trigger = or_text (or_else (snapshot_trigger snapshot) job.current_trigger) "adhoc";
      config_hash = hash;
      config_yaml =
          protect_verified secrets run_id hash
            (or_parent secrets job_id job hash (snapshot_text secrets run_id snapshot));
      started_at = started failed_at snapshot;
      heartbeat_at = started failed_at snapshot;
      completed_at = some failed_at;
      record_count = some 0;
      error_count = errors;
      webhook_reconciled_at = none;
      failure_code = some code;
    }

abbrev pub insert_failed :
    {R : Type 0} → Secrets → String → String → ℕ → ℕ → String → Option Job → Tx R (Unit {0})
insert_failed secrets job_id run_id failed_at errors code none = raise run_ownership_error
insert_failed secrets job_id run_id failed_at errors code (some job) =
    if is_same job.current_run_id (some run_id)
    then (select_snapshot job_id run_id >>= λ snapshot.
        insert_run run_id (failed_run secrets job_id run_id failed_at errors code job snapshot)
        >> delete_snapshot job_id run_id)
    else raise run_ownership_error

unfoldable pub insert_failed_queued_run :
    {R : Type 0} → Secrets → String → String → ℕ → ℕ → String → Tx R (Unit {0})
insert_failed_queued_run secrets job_id run_id failed_at errors code =
    select_job job_id >>= insert_failed secrets job_id run_id failed_at errors code

abbrev pub is_queued_for : String → Job → Bool
is_queued_for run_id job = same_status job.status queued && is_same job.current_run_id (some run_id)

abbrev pub to_status : JobStatus → ℕ → Job → Job
to_status status now job = record job { status = status; updated_at = some now }

unfoldable pub fail_queued_run : Secrets → String → String → ℕ → JobStore → Reply Bool × JobStore
fail_queued_run secrets job_id run_id failed_at = transaction (
    update_job job_id (is_queued_for run_id) (to_status failed failed_at) >>= λ matched.
    if matched
    then (insert_failed_queued_run secrets job_id run_id failed_at 1 "enqueue_failure"
        >> return true)
    else rollback false)
