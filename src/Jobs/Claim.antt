-- ===== src/Jobs/Claim.antt =====
-- The claim of a queued run, `claim_run` of src/scrapeyard/storage/job_store.py.
use scrapeyard.Prelude.{
  String, ℕ, Bool, true, false, ◌&&◌, Option, none, some, ◌==◌, text_keys, if◌then◌else◌,
}
use scrapeyard.Jobs.{
  running, job_config, snapshot_config, run_config, Purpose, Secrets, Job, JobRun,
  QueuedRunSnapshot, JobStore, Tx, ◌>>=◌, ◌>>◌, return, rollback, Reply, transaction, select_job,
  update_job, insert_run, reveal_verified,
}
use scrapeyard.Jobs.Queue.{select_snapshot, delete_snapshot, is_queued_for}

abbrev pub trigger_matches : String → Option String → Bool
trigger_matches trigger none = true
trigger_matches trigger (some t) = t == trigger

abbrev pub claim_matches : String → String → Job → Bool
claim_matches run_id trigger job =
    is_queued_for run_id job && trigger_matches trigger job.current_trigger

abbrev pub claim_change : String → ℕ → Job → Job
claim_change trigger now job = record job {
  status = running;
  updated_at = some now;
  current_trigger = some trigger;
}

-- A text that does not have the hash ends the claim.
abbrev pub claim_found : Option String → Tx Bool String
claim_found none = rollback false
claim_found (some yaml) = return yaml

-- A stored config, its hash and the purpose that it is protected for.
abbrev pub claim_text : Secrets → String → Purpose → String → String → Tx Bool String
claim_text secrets expected purpose stored hash =
    if hash == expected
    then (reveal_verified secrets purpose stored expected >>= claim_found)
    else rollback false

-- The parent's config serves a delivery that was accepted before snapshots existed.
abbrev pub claim_parent : Secrets → String → String → Option Job → Tx Bool String
claim_parent secrets job_id expected none = rollback false
claim_parent secrets job_id expected (some job) =
    claim_text secrets expected (job_config job_id) job.config_yaml job.config_hash

abbrev pub claim_config :
    Secrets → String → String → String → String → Option QueuedRunSnapshot → Tx Bool String
claim_config secrets job_id run_id trigger expected none =
    select_job job_id >>= claim_parent secrets job_id expected
claim_config secrets job_id run_id trigger expected (some snapshot) =
    if snapshot.trigger == trigger
    then claim_text secrets expected (snapshot_config run_id) snapshot.config_yaml
        snapshot.config_hash
    else rollback false

abbrev pub claimed_run : Secrets → String → String → String → String → ℕ → String → JobRun
claimed_run secrets run_id job_id trigger hash now yaml = record {
  job_id = job_id;
  status = running;
  trigger = trigger;
  config_hash = hash;
  config_yaml = some (secrets.protect (run_config run_id) yaml);
  started_at = now;
  heartbeat_at = now;
  completed_at = none;
  record_count = none;
  error_count = 0;
  webhook_reconciled_at = none;
  failure_code = none;
}

abbrev pub claim_insert : Secrets → String → String → String → String → ℕ → String → Tx Bool Bool
claim_insert secrets run_id job_id trigger hash now yaml =
    insert_run run_id (claimed_run secrets run_id job_id trigger hash now yaml)
    >> delete_snapshot job_id run_id
    >> return true

unfoldable pub claim_tx : Secrets → String → String → String → String → ℕ → Tx Bool Bool
claim_tx secrets run_id job_id trigger hash now =
    update_job job_id (claim_matches run_id trigger) (claim_change trigger now) >>= λ matched.
    if matched
    then (select_snapshot job_id run_id
        >>= claim_config secrets job_id run_id trigger hash
        >>= claim_insert secrets run_id job_id trigger hash now)
    else rollback false

unfoldable pub claim_run :
    Secrets → String → String → String → String → ℕ → JobStore → Reply Bool × JobStore
claim_run secrets run_id job_id trigger hash now =
    transaction (claim_tx secrets run_id job_id trigger hash now)
