-- ===== src/Jobs/Steps.antt =====
-- The transactions of src/scrapeyard/storage/job_store.py that touch runs, as steps: the API, the workers,
-- the reconcilers and the cleanup of a running service do a sequence of them. The creation of jobs, the
-- updates of their schedules, the record of a missed fire, a new row of its own, and the time of a
-- failed reconciliation, a column of its own, are not among them; nor are the migrations at startup,
-- which rewrite stored texts before the service takes work.
use scrapeyard.Prelude.{String, ℕ, Bool, Option, List, [], ◌∷◌}
use scrapeyard.Jobs.{Secrets, JobStore}
use scrapeyard.Jobs.Queue.{Capacity, QueueRequest, queue_run, fail_queued_run}
use scrapeyard.Jobs.Ownership.{
  heartbeat_run, WebhookDeliveryCreate, RunEnd, finalize_owned_run, RunFailure, fail_owned_run,
}
use scrapeyard.Jobs.Claim.{claim_run}
use scrapeyard.Jobs.Recovery.{
  reserve_queued_run_recovery, fail_queued_run_recovery, recover_stale_run,
  rollback_queued_submission,
}
use scrapeyard.Jobs.Reconcile.{
  TerminalWebhookCandidate, reconcile_terminal_webhook_candidate, prune_scheduled_run_for_retention,
}
use scrapeyard.Jobs.Deletion.{cancel_job, reserve_job_deletion, finalize_job_deletion}

pub data Transaction : Type 0 where
  queue_step : Capacity → String → QueueRequest → Transaction
  claim_step : String → String → String → String → ℕ → Transaction
  heartbeat_step : String → String → ℕ → Transaction
  finalize_step : String → String → RunEnd → Transaction
  fail_owned_step : String → String → RunFailure → Transaction
  fail_queued_step : String → String → ℕ → Transaction
  reserve_recovery_step : String → String → ℕ → ℕ → ℕ → Transaction
  fail_recovery_step : String → String → ℕ → ℕ → Transaction
  recover_step : String → Option String → ℕ → ℕ → Transaction
  rollback_step : String → String → Transaction
  cancel_step : String → ℕ → Option String → Transaction
  reserve_deletion_step : String → Bool → ℕ → Transaction
  finalize_deletion_step : String → Bool → Option ℕ → Transaction
  reconcile_step : TerminalWebhookCandidate → Option WebhookDeliveryCreate → Transaction
  prune_step : String → String → Bool → ℕ → ℕ → Transaction

unfoldable pub commit : Secrets → Transaction → JobStore → JobStore
commit secrets (queue_step a job_id q) s = (queue_run secrets a job_id q s).1
commit secrets (claim_step run_id job_id trigger hash now) s =
    (claim_run secrets run_id job_id trigger hash now s).1
commit secrets (heartbeat_step job_id run_id now) s = (heartbeat_run job_id run_id now s).1
commit secrets (finalize_step job_id run_id e) s = (finalize_owned_run job_id run_id e s).1
commit secrets (fail_owned_step job_id run_id f) s = (fail_owned_run secrets job_id run_id f s).1
commit secrets (fail_queued_step job_id run_id now) s =
    (fail_queued_run secrets job_id run_id now s).1
commit secrets (reserve_recovery_step job_id run_id expected stale now) s =
    (reserve_queued_run_recovery job_id run_id expected stale now s).1
commit secrets (fail_recovery_step job_id run_id expected now) s =
    (fail_queued_run_recovery secrets job_id run_id expected now s).1
commit secrets (recover_step job_id expected cutoff now) s =
    (recover_stale_run job_id expected cutoff now s).1
commit secrets (rollback_step job_id run_id) s = (rollback_queued_submission job_id run_id s).1
commit secrets (cancel_step job_id now expected) s = (cancel_job job_id now expected s).1
commit secrets (reserve_deletion_step job_id delete_results now) s =
    (reserve_job_deletion job_id delete_results now s).1
commit secrets (finalize_deletion_step job_id delete_results after) s =
    (finalize_job_deletion job_id delete_results after s).1
commit secrets (reconcile_step c d) s = (reconcile_terminal_webhook_candidate secrets c d s).1
commit secrets (prune_step job_id run_id scrubbed expired_before max_runs) s =
    (prune_scheduled_run_for_retention job_id run_id scrubbed expired_before max_runs s).1

unfoldable pub commit_all : Secrets → List Transaction → JobStore → JobStore
commit_all secrets [] s = s
commit_all secrets (t ∷ ts) s = commit_all secrets ts (commit secrets t s)
