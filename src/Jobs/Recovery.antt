-- ===== src/Jobs/Recovery.antt =====
-- Recovery of queued and running jobs, src/scrapeyard/storage/job_recovery.py, and the rollback of
-- a submission in src/scrapeyard/storage/job_store.py.
use scrapeyard.Prelude.{
  String, ℕ, leb, Bool, true, false, ◌&&◌, not, Option, none, some, ◌==◌, nat_keys, text_keys,
  pair_keys, if◌then◌else◌, [], ◌∷◌,
}
use scrapeyard.Prelude.Dict.{Dict, get, remove, keep}
use scrapeyard.Jobs.{
  JobStatus, running, failed, same_status, is_terminal, is_same, Secrets, Job, JobRun,
  WebhookDelivery, JobStore, runtime_error, Tx, next, ◌>>=◌, ◌>>◌, return, rollback, raise, Reply,
  transaction, select_job, select_run, update_job, update_run,
}
use scrapeyard.Jobs.Queue.{insert_failed_queued_run, is_queued_for, to_status}
use scrapeyard.Jobs.Ownership.{is_running, is_running_for}

abbrev pub was_updated_at : ℕ → Job → Bool
was_updated_at at job = elim job.updated_at [ none ↦ false | some t ↦ t == at ]

abbrev pub recovery_matches : String → ℕ → ℕ → Job → Bool
recovery_matches run_id expected stale_before job =
    is_queued_for run_id job && was_updated_at expected job && leb expected stale_before

unfoldable pub reserve_queued_run_recovery :
    String → String → ℕ → ℕ → ℕ → JobStore → Reply Bool × JobStore
reserve_queued_run_recovery job_id run_id expected stale_before reserved_at = transaction (
    update_job job_id (recovery_matches run_id expected stale_before)
      (λ job. record job { updated_at = some reserved_at })
    >>= λ matched. if matched then return true else rollback false)

unfoldable pub fail_queued_run_recovery :
    Secrets → String → String → ℕ → ℕ → JobStore → Reply Bool × JobStore
fail_queued_run_recovery secrets job_id run_id expected failed_at = transaction (
    update_job job_id (λ job. is_queued_for run_id job && was_updated_at expected job)
      (to_status failed failed_at)
    >>= λ matched.
        if matched
        then (insert_failed_queued_run secrets job_id run_id failed_at 1
              "queued_reconciliation_failure"
            >> return true)
        else rollback false)

pub data RecoveryReason : Type 0 where
  failed_missing_run reconciled_terminal_run failed_stale_heartbeat : RecoveryReason

abbrev pub Recovered : Type 0
Recovered = Option RecoveryReason

abbrev pub has_run : JobStatus → Option String → Job → Bool
has_run status run_id job = same_status job.status status && is_same job.current_run_id run_id

-- The last statement of each branch: a parent that is not matched is no recovery.
abbrev pub settle_parent :
    String → Option String → JobStatus → ℕ → RecoveryReason → Tx Recovered Recovered
settle_parent job_id run_id status now reason =
    update_job job_id (has_run running run_id) (to_status status now) >>= λ matched.
    if matched then return (some reason) else return none

abbrev pub end_stale : ℕ → JobRun → JobRun
end_stale now run = record run { status = failed; completed_at = some now }

abbrev pub recover_run : String → String → ℕ → ℕ → Option JobRun → Tx Recovered Recovered
recover_run job_id run_id cutoff now none =
    settle_parent job_id (some run_id) failed now failed_missing_run
recover_run job_id run_id cutoff now (some run) =
    if is_terminal run.status
    then settle_parent job_id (some run_id) run.status now reconciled_terminal_run
    else if not (is_running run && leb run.heartbeat_at cutoff)
    then return none
    else (update_run job_id run_id is_running (end_stale now) >>= λ matched.
        if matched
        then (update_job job_id (is_running_for run_id) (to_status failed now) >>= λ owned.
            if owned then return (some failed_stale_heartbeat) else raise runtime_error)
        else return none)

abbrev pub recover_current : String → ℕ → ℕ → Option String → Tx Recovered Recovered
recover_current job_id cutoff now none = settle_parent job_id none failed now failed_missing_run
recover_current job_id cutoff now (some run_id) =
    select_run job_id run_id >>= recover_run job_id run_id cutoff now

abbrev pub recover_job : String → Option String → ℕ → ℕ → Option Job → Tx Recovered Recovered
recover_job job_id expected cutoff now none = return none
recover_job job_id expected cutoff now (some job) =
    if has_run running expected job
    then recover_current job_id cutoff now job.current_run_id
    else return none

unfoldable pub recover_current_run : String → Option String → ℕ → ℕ → Tx Recovered Recovered
recover_current_run job_id expected cutoff now =
    select_job job_id >>= recover_job job_id expected cutoff now

unfoldable pub recover_stale_run :
    String → Option String → ℕ → ℕ → JobStore → Reply Recovered × JobStore
recover_stale_run job_id expected cutoff now =
    transaction (recover_current_run job_id expected cutoff now)

abbrev pub no_run : String → Dict String JobRun → Bool
no_run job_id [] = true
no_run job_id ((_, run) ∷ runs) = not (run.job_id == job_id) && no_run job_id runs

abbrev pub no_delivery : String → Dict String WebhookDelivery → Bool
no_delivery job_id [] = true
no_delivery job_id ((_, d) ∷ ds) = not (d.job_id == job_id) && no_delivery job_id ds

abbrev pub is_fresh_submission : String → String → JobStore → Option Job → Bool
is_fresh_submission job_id run_id s none = false
is_fresh_submission job_id run_id s (some job) =
    is_queued_for run_id job && no_run job_id s.job_runs && no_delivery job_id s.webhook_deliveries

-- The row and what its removal cascades to.
abbrev pub drop_job : String → JobStore → JobStore
drop_job job_id s = record s {
  jobs = remove job_id s.jobs;
  queued_run_snapshots = keep (λ q. not (q.job_id == job_id)) s.queued_run_snapshots;
  scrape_idempotency = keep (λ i. not (i.job_id == job_id)) s.scrape_idempotency;
}

unfoldable pub rollback_queued_submission : String → String → JobStore → Reply Bool × JobStore
rollback_queued_submission job_id run_id = transaction λ s.
    if is_fresh_submission job_id run_id s (get job_id s.jobs)
    then next true (drop_job job_id s)
    else rollback false s
