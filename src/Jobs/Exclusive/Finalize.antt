-- ===== src/Jobs/Exclusive/Finalize.antt =====
-- The end of an owned run in src/scrapeyard/storage/job_store.py.
use scrapeyard.Prelude.{
  String, ◌≡◌, refl, ◌∙◌, ap, subst, Bool, true, Option, none, some, text_keys,
}
use mathlib.Core.Bool.{false≢true}
use scrapeyard.Prelude.Dict.{get, put}
use scrapeyard.Jobs.{
  is_terminal, Job, JobRun, JobStore, next, returned, owned_by, update_found, update_run_found,
}
use scrapeyard.Jobs.Queue.{to_status}
use scrapeyard.Jobs.Ownership.{
  is_running_for, holds_job, commit_terminal_intent, RunEnd, finish_run, is_fresh, finalize_tx,
  finalize_owned_run,
}
use scrapeyard.Jobs.Rules.{with_job, with_run}
use scrapeyard.Jobs.Running.{IsOwned, and_left}

hit_run :
    (R : Type 0) (run_id : String) (matches : JobRun → Bool) (change : JobRun → JobRun)
    (row : Option JobRun) (run : JobRun) (s : JobStore)
    → row ≡ some run
    → matches run ≡ true
    → update_run_found {R = R} run_id matches change row s
      ≡ next true (with_run run_id (change run) s)
hit_run R run_id matches change row run s e m =
    ap (λ row. update_run_found {R = R} run_id matches change row s) e ∙ rw m refl

hit_job :
    (R : Type 0) (job_id : String) (matches : Job → Bool) (change : Job → Job) (row : Option Job)
    (job : Job) (s : JobStore)
    → row ≡ some job
    → matches job ≡ true
    → update_found {R = R} job_id matches change row s ≡ next true (with_job job_id (change job) s)
hit_job R job_id matches change row job s e m =
    ap (λ row. update_found {R = R} job_id matches change row s) e ∙ rw m refl

holding :
    (run_id : String) (row : Option Job)
    → holds_job run_id row ≡ true
    → (job : Job) × (row ≡ some job) × (is_running_for run_id job ≡ true)
holding run_id none h = absurd (false≢true h)
holding run_id (some job) h = (job, refl, h)

its_row :
    (job_id : String) (row : Option JobRun) (run : JobRun)
    → row ≡ some run
    → run.job_id ≡ job_id
    → owned_by job_id row ≡ some run
its_row job_id row run e mine =
    ap (owned_by job_id) e ∙ rw ((text_keys.decides run.job_id job_id).1 mine) refl

-- The store after a run has been finalized.
abbrev pub finalized : String → String → RunEnd → JobRun → Job → JobStore → JobStore
finalized job_id run_id e run job s = record s {
  jobs = put job_id (to_status e.status e.completed_at job) s.jobs;
  job_runs = put run_id (finish_run e run) s.job_runs;
}

-- In a store whose running runs each belong to the job that is running them, a run of the job that is
-- running and has beaten after the cutoff can always be finalized with a terminal status and no
-- webhook: the call returns, the job is there, its row and the run's row get the end of the run, and
-- nothing else changes.
pub finalize_succeeds :
    (s : JobStore) (job_id run_id : String) (e : RunEnd) (run : JobRun)
    → IsOwned s
    → is_terminal e.status ≡ true
    → e.webhook_delivery ≡ none
    → get run_id s.job_runs ≡ some run
    → run.job_id ≡ job_id
    → is_fresh e.heartbeat_cutoff run ≡ true
    → (job : Job) × (get job_id s.jobs ≡ some job)
      × (finalize_owned_run job_id run_id e s ≡ (returned tt, finalized job_id run_id e run job s))
unfolding finalize_owned_run finalize_tx commit_terminal_intent
finalize_succeeds s job_id run_id e run o final quiet f mine fresh =
    let (job, row, its) = holding run_id (get job_id s.jobs) (
      subst (λ j. holds_job run_id (get j s.jobs) ≡ true) mine
        (o.owned run_id run f (and_left _ _ fresh))) in
    (
      job,
      row,
      rw
          (
            final,
            quiet,
            hit_run (Unit {0}) run_id (is_fresh e.heartbeat_cutoff) (finish_run e)
                (owned_by job_id (get run_id s.job_runs)) run s
                (its_row job_id (get run_id s.job_runs) run f mine) fresh,
            hit_job (Unit {0}) job_id (is_running_for run_id) (to_status e.status e.completed_at)
                (get job_id s.jobs) job (with_run run_id (finish_run e run) s) row its,
          )
          refl,
    )
