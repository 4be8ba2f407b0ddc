-- ===== src/Jobs/Exclusive/All.antt =====
-- Exclusive execution in src/scrapeyard/storage/job_store.py.
use scrapeyard.Prelude.{String, ◌≡◌, ap, ◌∙◌, text_keys, true, false, some, List, [], ◌∷◌}
use scrapeyard.Prelude.Dict.{get}
use scrapeyard.Jobs.{JobRun, JobStore, Secrets, running, same_status}
use scrapeyard.Jobs.Ownership.{is_running, holds_job}
use scrapeyard.Jobs.Steps.{
  Transaction, queue_step, claim_step, heartbeat_step, finalize_step, fail_owned_step,
  fail_queued_step, reserve_recovery_step, fail_recovery_step, recover_step, rollback_step,
  cancel_step, reserve_deletion_step, finalize_deletion_step, reconcile_step, prune_step, commit,
  commit_all,
}
use scrapeyard.Jobs.Running.{IsOwned, one_holder}
use scrapeyard.Jobs.Exclusive.{queue_run-IsOwned, fail_queued_run-IsOwned}
use scrapeyard.Jobs.Exclusive.Claim.{claim_run-IsOwned}
use scrapeyard.Jobs.Exclusive.End.{heartbeat_run-IsOwned, finalize_owned_run-IsOwned}
use scrapeyard.Jobs.Exclusive.Removal.{
  fail_owned_run-IsOwned, reserve_queued_run_recovery-IsOwned, fail_queued_run_recovery-IsOwned,
  recover_stale_run-IsOwned,
}
use scrapeyard.Jobs.Reconcile.Owned.{reconcile-IsOwned, prune-IsOwned}
use scrapeyard.Jobs.Exclusive.Cancel.{
  cancel_job-IsOwned, reserve_job_deletion-IsOwned, finalize_job_deletion-IsOwned,
  rollback_queued_submission-IsOwned,
}

-- No replacement is queued for a job that was seen running.
abbrev pub IsProper : Transaction → Type 0
IsProper (queue_step a job_id q) = same_status q.expected_status running ≡ false
IsProper _ = Unit

abbrev pub AllProper : List Transaction → Type 0
AllProper [] = Unit
AllProper (t ∷ ts) = IsProper t × AllProper ts

commit-IsOwned :
    (secrets : Secrets) (t : Transaction) (s : JobStore)
    → IsProper t
    → IsOwned s
    → IsOwned (commit secrets t s)
unfolding commit
commit-IsOwned secrets (queue_step a job_id q) s p o = queue_run-IsOwned secrets a job_id q s p o
commit-IsOwned secrets (claim_step run_id job_id trigger hash now) s p o =
    claim_run-IsOwned secrets run_id job_id trigger hash now s o
commit-IsOwned secrets (heartbeat_step job_id run_id now) s p o =
    heartbeat_run-IsOwned job_id run_id now s o
commit-IsOwned secrets (finalize_step job_id run_id e) s p o =
    finalize_owned_run-IsOwned job_id run_id e s o
commit-IsOwned secrets (fail_owned_step job_id run_id f) s p o =
    fail_owned_run-IsOwned secrets job_id run_id f s o
commit-IsOwned secrets (fail_queued_step job_id run_id now) s p o =
    fail_queued_run-IsOwned secrets job_id run_id now s o
commit-IsOwned secrets (reserve_recovery_step job_id run_id expected stale now) s p o =
    reserve_queued_run_recovery-IsOwned job_id run_id expected stale now s o
commit-IsOwned secrets (fail_recovery_step job_id run_id expected now) s p o =
    fail_queued_run_recovery-IsOwned secrets job_id run_id expected now s o
commit-IsOwned secrets (recover_step job_id expected cutoff now) s p o =
    recover_stale_run-IsOwned job_id expected cutoff now s o
commit-IsOwned secrets (rollback_step job_id run_id) s p o =
    rollback_queued_submission-IsOwned job_id run_id s o
commit-IsOwned secrets (cancel_step job_id now expected) s p o =
    cancel_job-IsOwned job_id now expected s o
commit-IsOwned secrets (reserve_deletion_step job_id delete_results now) s p o =
    reserve_job_deletion-IsOwned job_id delete_results now s o
commit-IsOwned secrets (finalize_deletion_step job_id delete_results after) s p o =
    finalize_job_deletion-IsOwned job_id delete_results after s o
commit-IsOwned secrets (reconcile_step c d) s p o = reconcile-IsOwned secrets c d s o
commit-IsOwned secrets (prune_step job_id run_id scrubbed expired_before max_runs) s p o =
    prune-IsOwned job_id run_id scrubbed expired_before max_runs s o

-- From a store whose running runs each belong to the job that is running them, every sequence of
-- transactions in which no replacement is queued for a job that was seen running leads to such a
-- store again.
pub commit_all-IsOwned :
    (secrets : Secrets) (ts : List Transaction) (s : JobStore)
    → AllProper ts
    → IsOwned s
    → IsOwned (commit_all secrets ts s)
unfolding commit_all
commit_all-IsOwned secrets [] s p o = o
commit_all-IsOwned secrets (t ∷ ts) s (p, ps) o =
    commit_all-IsOwned secrets ts (commit secrets t s) ps (commit-IsOwned secrets t s p o)

-- From a store whose running runs each belong to the job that is running them, after any sequence of
-- transactions in which no replacement is queued for a job that was seen running, two runs of one
-- job that are both running are the same run.
pub one_running_run :
    (secrets : Secrets) (ts : List Transaction) (s : JobStore) (a b : String) (x y : JobRun)
    → AllProper ts
    → IsOwned s
    → get a (commit_all secrets ts s).job_runs ≡ some x
    → get b (commit_all secrets ts s).job_runs ≡ some y
    → x.job_id ≡ y.job_id
    → is_running x ≡ true
    → is_running y ≡ true
    → a ≡ b
one_running_run secrets ts s a b x y p o ea eb same live_x live_y =
    let final = commit_all-IsOwned secrets ts s p o in
    one_holder (get x.job_id (commit_all secrets ts s).jobs) a b (final.owned a x ea live_x) (
      ap (λ j. holds_job b (get j (commit_all secrets ts s).jobs)) same ∙ final.owned b y eb live_y)
