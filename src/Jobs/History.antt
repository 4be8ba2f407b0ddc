-- ===== src/Jobs/History.antt =====
-- The table of runs under the transactions of src/scrapeyard/storage, for any property of it.
pub mod Closing
pub mod Final
pub mod Late
use scrapeyard.Prelude.{
  String, ℕ, ltb, leb, ◌≡◌, Bool, true, false, not, ◌&&◌, ◌||◌, Option, none, some, ◌==◌, text_keys,
  if◌then◌else◌, Bool-cases, inl, inr,
}
use scrapeyard.Prelude.Int.{pos, leb_ℤ}
use scrapeyard.Prelude.Dict.{Dict, get, put}
use scrapeyard.Jobs.{
  JobStatus, queued, running, failed, cancelled, deleting, same_status, is_same, is_terminal,
  job_config, snapshot_config, Secrets, Job, JobRun, QueuedRunSnapshot, WebhookDelivery, JobStore,
  value_error, error, run_ownership_error, Step, next, raised, Tx, owned_by, return, update_job,
  update_run, insert_run, transaction, reveal_verified,
}
use scrapeyard.Jobs.Queue.{
  Capacity, QueueRequest, queue_matches, queue_change, queue_run_tx, queue_run, snapshot_parent,
  of_job, delete_snapshot, select_snapshot, insert_failed, failed_run, insert_failed_queued_run,
  is_queued_for, to_status, fail_queued_run,
}
use scrapeyard.Jobs.Ownership.{
  is_running, is_running_for, holds_job, beat, heartbeat_run, WebhookDeliveryCreate,
  insert_delivery, is_text, is_valid_delivery, commit_terminal_intent, RunEnd, finish_run, is_fresh,
  finalize_tx, finalize_owned_run, RunFailure, fail_run, beats_after, fail_job, fail_owned,
  fail_owned_tx, fail_owned_run,
}
use scrapeyard.Jobs.Claim.{
  claim_matches, claim_change, claim_insert, claimed_run, claim_tx, claim_run,
}
use scrapeyard.Jobs.Rules.{
  Ends, continue-Ends, conclude-keeps, if-Ends, choose-Ends, update_job-Ends, update_run-Ends,
  insert_run-Ends,
}
use scrapeyard.Jobs.Running.{and_left}
use scrapeyard.Jobs.Exclusive.{delete_snapshot-Ends, check_admission-Ends, snapshot_parent-Ends}
use scrapeyard.Jobs.Exclusive.Claim.{claim_config-Ends}
use scrapeyard.Jobs.Exclusive.End.{owned_by-get}

pub record IsKept (P : Dict String JobRun → Type 0) : Type 0 where
  pub rewrite :
      (rows : Dict String JobRun) (run_id : String) (x y : JobRun)
      → P rows
      → get run_id rows ≡ some x
      → is_running x ≡ true
      → P (put run_id y rows)
  pub add :
      (rows : Dict String JobRun) (run_id : String) (y : JobRun)
      → P rows
      → get run_id rows ≡ none
      → P (put run_id y rows)

module _ (P : Dict String JobRun → Type 0) (kept : IsKept P) where
  abbrev pub OfRuns : JobStore → Type 0
  OfRuns s = P s.job_runs

  pub job_rows :
      (R : Type 0) (job_id : String) (matches : Job → Bool) (change : Job → Job) (s : JobStore)
      → OfRuns s
      → Ends (λ _. OfRuns) (update_job {R = R} job_id matches change s)
  job_rows R job_id matches change s p =
      update_job-Ends R (λ _. OfRuns) s job_id matches change p (λ job e m. p)

  pub run_rows :
      (R : Type 0) (job_id run_id : String) (matches : JobRun → Bool) (change : JobRun → JobRun)
      (s : JobStore)
      → ((run : JobRun) → matches run ≡ true → is_running run ≡ true)
      → OfRuns s
      → Ends (λ _. OfRuns) (update_run {R = R} job_id run_id matches change s)
  run_rows R job_id run_id matches change s live p =
      update_run-Ends R (λ _. OfRuns) s job_id run_id matches change p
        (λ run e m.
          kept.rewrite s.job_runs run_id run (change run) p
            (owned_by-get job_id (get run_id s.job_runs) run e).0 (live run m))

  pub insert_rows :
      (R : Type 0) (run_id : String) (run : JobRun) (s : JobStore)
      → OfRuns s
      → Ends (λ _. OfRuns) (insert_run {R = R} run_id run s)
  insert_rows R run_id run s p =
      insert_run-Ends R (λ _. OfRuns) s run_id run (kept.add s.job_runs run_id run p)

  insert_failed_rows :
      (R : Type 0) (secrets : Secrets) (job_id run_id : String) (now errors : ℕ) (code : String)
      (row : Option Job) (s : JobStore)
      → OfRuns s
      → Ends (λ _. OfRuns) (insert_failed {R = R} secrets job_id run_id now errors code row s)
  insert_failed_rows R secrets job_id run_id now errors code none s p = tt
  insert_failed_rows R secrets job_id run_id now errors code (some job) s p =
      if-Ends R (λ _. OfRuns) (is_same job.current_run_id (some run_id)) _ _ s
        (λ _.
          continue-Ends (λ _. OfRuns) (λ _. OfRuns) _ _
            (insert_rows R run_id
              (failed_run secrets job_id run_id now errors code job
                (of_job job_id (get run_id s.queued_run_snapshots)))
              s p)
            (λ _. delete_snapshot-Ends R OfRuns (λ s x q. q) job_id run_id))
        (λ _. tt)

  pub insert_failed_queued_run_rows :
      (R : Type 0) (secrets : Secrets) (job_id run_id : String) (now errors : ℕ) (code : String)
      (s : JobStore)
      → OfRuns s
      → Ends
          (λ _. OfRuns)
          (insert_failed_queued_run {R = R} secrets job_id run_id now errors code s)
  unfolding insert_failed_queued_run
  insert_failed_queued_run_rows R secrets job_id run_id now errors code s p =
      insert_failed_rows R secrets job_id run_id now errors code (get job_id s.jobs) s p

  pub fail_queued_run_rows :
      (secrets : Secrets) (job_id run_id : String) (now : ℕ) (s : JobStore)
      → OfRuns s
      → OfRuns (fail_queued_run secrets job_id run_id now s).1
  unfolding fail_queued_run
  fail_queued_run_rows secrets job_id run_id now s p = conclude-keeps OfRuns s _ p (
      continue-Ends (λ _. OfRuns) (λ _. OfRuns) _ _
        (job_rows Bool job_id (is_queued_for run_id) (to_status failed now) s p)
        (λ matched s' p'.
          if-Ends Bool (λ _. OfRuns) matched _ _ s'
            (λ _.
              continue-Ends (λ _. OfRuns) (λ _. OfRuns) _ _
                (insert_failed_queued_run_rows Bool secrets job_id run_id now 1 "enqueue_failure" s'
                  p')
                (λ _ s'' q. q))
            (λ _. tt)))

  pub queue_run_rows :
      (secrets : Secrets) (a : Capacity) (job_id : String) (q : QueueRequest) (s : JobStore)
      → OfRuns s
      → OfRuns (queue_run secrets a job_id q s).1
  unfolding queue_run queue_run_tx
  queue_run_rows secrets a job_id q s p =
      elim (Bool-cases
        (same_status q.expected_status cancelled || same_status q.expected_status deleting)) [
          | inl final ↦ rw final p
          | inr live ↦ rw live (
              conclude-keeps OfRuns s _ p (
                continue-Ends (λ _. OfRuns) (λ _. OfRuns) _ _
                  (job_rows Bool job_id (queue_matches secrets q) (queue_change q) s p)
                  (λ matched s' p'.
                    if-Ends Bool (λ _. OfRuns) matched _ _ s'
                      (λ _.
                        continue-Ends (λ _. OfRuns) (λ _. OfRuns) _ _
                          (check_admission-Ends Bool OfRuns a s' p')
                          (λ _ s'' p''.
                            snapshot_parent-Ends OfRuns (λ s x q. q) secrets job_id q
                              (get job_id s''.jobs) s'' p''))
                      (λ _. tt))))
        ]

  claim_insert_rows :
      (secrets : Secrets) (run_id job_id trigger hash : String) (now : ℕ) (yaml : String)
      (s : JobStore)
      → OfRuns s
      → Ends (λ _. OfRuns) (claim_insert secrets run_id job_id trigger hash now yaml s)
  claim_insert_rows secrets run_id job_id trigger hash now yaml s p =
      continue-Ends (λ _. OfRuns) (λ _. OfRuns) (λ _. return true) _
        (continue-Ends (λ _. OfRuns) (λ _. OfRuns) (λ _. delete_snapshot job_id run_id) _
          (insert_rows Bool run_id (claimed_run secrets run_id job_id trigger hash now yaml) s p)
          (λ _. delete_snapshot-Ends Bool OfRuns (λ s x q. q) job_id run_id))
        (λ _ s' q. q)

  pub claim_run_rows :
      (secrets : Secrets) (run_id job_id trigger hash : String) (now : ℕ) (s : JobStore)
      → OfRuns s
      → OfRuns (claim_run secrets run_id job_id trigger hash now s).1
  unfolding claim_run claim_tx
  claim_run_rows secrets run_id job_id trigger hash now s p = conclude-keeps OfRuns s _ p (
      continue-Ends (λ _. OfRuns) (λ _. OfRuns) _ _
        (job_rows Bool job_id (claim_matches run_id trigger) (claim_change trigger now) s p)
        (λ matched s' p'.
          if-Ends Bool (λ _. OfRuns) matched _ _ s'
            (λ _.
              continue-Ends (λ _. OfRuns) (λ _. OfRuns)
                (claim_insert secrets run_id job_id trigger hash now) _
                (claim_config-Ends secrets OfRuns hash job_id run_id trigger
                  (of_job job_id (get run_id s'.queued_run_snapshots)) s' p')
                (claim_insert_rows secrets run_id job_id trigger hash now))
            (λ _. tt)))

  pub heartbeat_run_rows :
      (job_id run_id : String) (now : ℕ) (s : JobStore)
      → OfRuns s
      → OfRuns (heartbeat_run job_id run_id now s).1
  unfolding heartbeat_run
  heartbeat_run_rows job_id run_id now s p = conclude-keeps OfRuns s _ p (
      continue-Ends (λ _. OfRuns) (λ _. OfRuns) _ _
        (run_rows (Unit {0}) job_id run_id
          (λ run. is_running run && holds_job run_id (get job_id s.jobs)) (beat now) s
          (λ run. and_left _ _) p)
        (λ matched s' p'. if-Ends (Unit {0}) (λ _. OfRuns) matched _ _ s' (λ _. p') (λ _. tt)))

  pub commit_rows :
      (R : Type 0) (d : Option WebhookDeliveryCreate) (now : ℕ) (s : JobStore)
      → OfRuns s
      → Ends (λ _. OfRuns) (commit_terminal_intent {R = R} d now s)
  unfolding commit_terminal_intent
  commit_rows R none now s p = p
  commit_rows R (some d) now s p =
      choose-Ends R (λ _. OfRuns) (is_text d.delivery_id (get "delivery_id" d.payload)) _
        (raised value_error) (λ _. insert (get d.delivery_id s.webhook_deliveries)) (λ _. tt)
    where
      insert :
          (row : Option WebhookDelivery) → Ends (λ _. OfRuns) (insert_delivery {R = R} d now row s)
      insert none = p
      insert (some _) = p
