-- ===== src/Jobs/Exclusive.antt =====
-- Who owns a running run in src/scrapeyard/storage: the transactions that queue runs.
pub mod End
pub mod Removal
pub mod Cancel
pub mod All
pub mod Finalize
pub mod Claim
use scrapeyard.Prelude.{
  String, ℕ, ltb, ◌≡◌, refl, ◌∙◌, sym, ap, subst, Bool, true, false, not, ◌&&◌, ◌||◌, Option, none,
  some, ◌==◌, ==-self, text_keys, inl, inr, arith, Bool-cases, if◌then◌else◌,
}
use mathlib.Core.Bool.{false≢true}
use scrapeyard.Prelude.Int.{pos, leb_ℤ}
use scrapeyard.Prelude.Dict.{Dict, get, put, get-put}
use scrapeyard.Jobs.{
  JobStatus, queued, running, failed, cancelled, deleting, same_status, is_same, job_config,
  snapshot_config, Purpose, Secrets, Job, JobRun, QueuedRunSnapshot, JobStore, run_ownership_error,
  admission_backlog, admission_memory, Step, next, raised, Tx, continue, ◌>>=◌, ◌>>◌, return,
  rollback, raise, select_job, update_job, insert_run, reveal_verified, transaction,
}
use scrapeyard.Jobs.Queue.{
  Capacity, count_jobs, is_accepted, check_admission, insert_snapshot_found, insert_snapshot,
  of_job, select_snapshot, delete_found, delete_snapshot, QueueRequest, queue_matches, queue_change,
  is_stale, has_config, snapshot_of, snapshot_parent, queue_run_tx, queue_run, failed_run,
  insert_failed, insert_failed_queued_run, is_queued_for, to_status, fail_queued_run,
}
use scrapeyard.Jobs.Ownership.{is_running, is_running_for, holds_job}
use scrapeyard.Jobs.Claim.{
  trigger_matches, claim_matches, claim_change, claim_found, claim_text, claim_insert, claim_parent,
  claim_config, claimed_run, claim_tx, claim_run,
}
use scrapeyard.Jobs.Rules.{
  Ends, continue-Ends, conclude-keeps, if-Ends, choose-Ends, with_job, update_job-Ends,
  insert_run-Ends, reveal_verified-Ends,
}
use scrapeyard.Jobs.Running.{
  IsOwned, Idle, same_status-running, and_left, and_right, put_job-IsOwned, quiet_job-IsOwned,
  put_run-IsOwned, quiet_of_status,
}

-- The property does not look at the queued snapshots.
abbrev pub Ignores : (JobStore → Type 0) → Type 0
Ignores P =
    (s : JobStore) (x : Dict String QueuedRunSnapshot)
    → P s
    → P (record s { queued_run_snapshots = x })

pub IsOwned-Ignores : Ignores IsOwned
IsOwned-Ignores s x o = record { unique = o.unique; owned = o.owned }

module _ (R : Type 0) (P : JobStore → Type 0) (ignores : Ignores P) where
  delete_found-Ends :
      (run_id : String) (o : Option QueuedRunSnapshot) (s : JobStore)
      → P s
      → Ends (λ _. P) (delete_found {R = R} run_id o s)
  delete_found-Ends run_id none s p = p
  delete_found-Ends run_id (some _) s p = ignores s _ p

  pub delete_snapshot-Ends :
      (job_id run_id : String) (s : JobStore)
      → P s
      → Ends (λ _. P) (delete_snapshot {R = R} job_id run_id s)
  delete_snapshot-Ends job_id run_id s p =
      delete_found-Ends run_id (of_job job_id (get run_id s.queued_run_snapshots)) s p

  insert_snapshot_found-Ends :
      (run_id : String) (x : QueuedRunSnapshot) (o : Option QueuedRunSnapshot) (s : JobStore)
      → P s
      → Ends (λ _. P) (insert_snapshot_found {R = R} run_id x o s)
  insert_snapshot_found-Ends run_id x none s p = ignores s _ p
  insert_snapshot_found-Ends run_id x (some _) s p = tt

pub check_admission-Ends :
    (R : Type 0) (P : JobStore → Type 0) (a : Capacity) (s : JobStore)
    → P s
    → Ends (λ _. P) (check_admission {R = R} a s)
unfolding check_admission
check_admission-Ends R P a s p =
    choose-Ends R (λ _. P) (ltb a.workers_max_accepted_runs (count_jobs is_accepted s.jobs))
      (raised admission_backlog) _ (λ _. tt)
      (λ _.
        choose-Ends R (λ _. P) (leb_ℤ a.memory_headroom_mb (pos 0)) (raised admission_memory)
          (next tt s) (λ _. tt) (λ _. p))

-- A queued run fails.

insert_failed-IsOwned :
    (R : Type 0) (secrets : Secrets) (job_id run_id : String) (now errors : ℕ) (code : String)
    (o : Option Job) (s : JobStore)
    → IsOwned s
    → Ends (λ _. IsOwned) (insert_failed {R = R} secrets job_id run_id now errors code o s)
unfolding failed_run
insert_failed-IsOwned R secrets job_id run_id now errors code none s o = tt
insert_failed-IsOwned R secrets job_id run_id now errors code (some job) s o =
    if-Ends R (λ _. IsOwned) (is_same job.current_run_id (some run_id)) _ _ s
      (λ _.
        continue-Ends (λ _. IsOwned) (λ _. IsOwned) (λ _. delete_snapshot job_id run_id) _
          (insert_run-Ends R (λ _. IsOwned) s run_id _
            (λ _. put_run-IsOwned s run_id _ o (λ e. absurd (false≢true e))))
          (λ _ s' o'. delete_snapshot-Ends R IsOwned IsOwned-Ignores job_id run_id s' o'))
      (λ _. tt)

pub insert_failed_queued_run-IsOwned :
    (R : Type 0) (secrets : Secrets) (job_id run_id : String) (now errors : ℕ) (code : String)
    (s : JobStore)
    → IsOwned s
    → Ends (λ _. IsOwned) (insert_failed_queued_run {R = R} secrets job_id run_id now errors code s)
unfolding insert_failed_queued_run
insert_failed_queued_run-IsOwned R secrets job_id run_id now errors code s o =
    insert_failed-IsOwned R secrets job_id run_id now errors code (get job_id s.jobs) s o

queued_is_not_running :
    (a : JobStatus) → same_status a queued ≡ true → same_status a running ≡ false
queued_is_not_running a h = same_status-running a queued h refl

-- A row that is not running may be changed in any way.
pub update_quiet_job-IsOwned :
    (R : Type 0) (job_id : String) (matches : Job → Bool) (change : Job → Job) (s : JobStore)
    → ((job : Job) → matches job ≡ true → same_status job.status running ≡ false)
    → IsOwned s
    → Ends (λ _. IsOwned) (update_job {R = R} job_id matches change s)
update_quiet_job-IsOwned R job_id matches change s h o =
    update_job-Ends R (λ _. IsOwned) s job_id matches change o
      (λ job e m.
        quiet_job-IsOwned s job_id (change job) o (quiet_of_status s job_id job o e (h job m)))

pub is_queued_for-quiet :
    (run_id : String) (job : Job)
    → is_queued_for run_id job ≡ true
    → same_status job.status running ≡ false
is_queued_for-quiet run_id job h = queued_is_not_running job.status (and_left _ _ h)

pub fail_queued_run-IsOwned :
    (secrets : Secrets) (job_id run_id : String) (now : ℕ) (s : JobStore)
    → IsOwned s
    → IsOwned (fail_queued_run secrets job_id run_id now s).1
unfolding fail_queued_run
fail_queued_run-IsOwned secrets job_id run_id now s o = conclude-keeps IsOwned s _ o (
    continue-Ends (λ _. IsOwned) (λ _. IsOwned) _ _
      (update_quiet_job-IsOwned Bool job_id (is_queued_for run_id) (to_status failed now) s
        (is_queued_for-quiet run_id) o)
      (λ matched s' o'.
        if-Ends Bool (λ _. IsOwned) matched _ _ s'
          (λ _.
            continue-Ends (λ _. IsOwned) (λ _. IsOwned) _ _
              (insert_failed_queued_run-IsOwned Bool secrets job_id run_id now 1 "enqueue_failure"
                s' o')
              (λ _ s'' o''. o''))
          (λ _. tt)))

-- `queue_run`.

module _ (P : JobStore → Type 0) (ignores : Ignores P) where
  snapshot_of-Ends :
      (secrets : Secrets) (job_id : String) (q : QueueRequest) (job : Job) (text : Option String)
      (s : JobStore)
      → P s
      → Ends (λ _. P) (snapshot_of secrets job_id q job text s)
  snapshot_of-Ends secrets job_id q job none s p = tt
  snapshot_of-Ends secrets job_id q job (some yaml) s p =
      continue-Ends (λ _. P) (λ _. P) _ _
        (insert_snapshot_found-Ends Bool P ignores q.new_run_id _
          (get q.new_run_id s.queued_run_snapshots) s p)
        (λ _ s' p'. p')

  pub snapshot_parent-Ends :
      (secrets : Secrets) (job_id : String) (q : QueueRequest) (row : Option Job) (s : JobStore)
      → P s
      → Ends (λ _. P) (snapshot_parent secrets job_id q row s)
  snapshot_parent-Ends secrets job_id q none s p = tt
  snapshot_parent-Ends secrets job_id q (some job) s p =
      continue-Ends (λ _. P) (λ _. P) (snapshot_of secrets job_id q job) _
        (reveal_verified-Ends Bool P secrets (job_config job_id) job.config_yaml job.config_hash s
          p)
        (snapshot_of-Ends secrets job_id q job)

queue_matches-status :
    (secrets : Secrets) (q : QueueRequest) (job : Job)
    → queue_matches secrets q job ≡ true
    → same_status job.status q.expected_status ≡ true
queue_matches-status secrets q job h = and_left _ _ (and_left _ _ (and_left _ _ (and_left _ _ h)))

queue_run_tx-IsOwned :
    (secrets : Secrets) (a : Capacity) (job_id : String) (q : QueueRequest) (s : JobStore)
    → same_status q.expected_status running ≡ false
    → IsOwned s
    → Ends (λ _. IsOwned) (queue_run_tx secrets a job_id q s)
unfolding queue_run_tx
queue_run_tx-IsOwned secrets a job_id q s proper o =
    continue-Ends (λ _. IsOwned) (λ _. IsOwned) _ _
      (update_quiet_job-IsOwned Bool job_id (queue_matches secrets q) (queue_change q) s
        (λ job m.
          same_status-running job.status q.expected_status (queue_matches-status secrets q job m)
            proper)
        o)
      (λ matched s' o'.
        if-Ends Bool (λ _. IsOwned) matched _ _ s'
          (λ _.
            continue-Ends (λ _. IsOwned) (λ _. IsOwned) _ _
              (check_admission-Ends Bool IsOwned a s' o')
              (λ _ s'' o''.
                snapshot_parent-Ends IsOwned IsOwned-Ignores secrets job_id q (get job_id s''.jobs)
                  s'' o''))
          (λ _. tt))

pub queue_run-IsOwned :
    (secrets : Secrets) (a : Capacity) (job_id : String) (q : QueueRequest) (s : JobStore)
    → same_status q.expected_status running ≡ false
    → IsOwned s
    → IsOwned (queue_run secrets a job_id q s).1
unfolding queue_run
queue_run-IsOwned secrets a job_id q s proper o =
    elim (Bool-cases
      (same_status q.expected_status cancelled || same_status q.expected_status deleting)) [
        | inl final ↦ rw final o
        | inr live ↦
            rw live
              (conclude-keeps IsOwned s _ o (queue_run_tx-IsOwned secrets a job_id q s proper o))
      ]

-- `claim_run`.

-- The job is running the run that is about to get its row.
