-- ===== src/Jobs/Deletion.antt =====
-- Cancellation and deletion of jobs, src/scrapeyard/storage/job_deletion.py.
use scrapeyard.Prelude.{
  String, ℕ, ltb, Bool, true, false, ◌&&◌, ◌||◌, not, Option, none, some, ◌==◌, text_keys,
  pair_keys, if◌then◌else◌, List, [], ◌∷◌,
}
use scrapeyard.Prelude.Dict.{Dict, remove, keep}
use scrapeyard.Jobs.{
  JobStatus, queued, running, cancelled, deleting, same_status, is_same, Job, JobRun, pending,
  WebhookDelivery, IdempotencyRecord, JobStore, runtime_error, Tx, next, ◌>>=◌, ◌>>◌, return,
  rollback, raise, Reply, transaction, select_job, update_job, update_run,
}
use scrapeyard.Jobs.Ownership.{is_running}
use scrapeyard.Jobs.Recovery.{has_run}

pub data CancellationAction : Type 0 where
  missing run_conflict already_cancelled conflict was_cancelled : CancellationAction

pub record CancellationOutcome : Type 0 where
  pub action : CancellationAction
  pub run_id : Option String
  pub prior_status : Option JobStatus
  pub status : Option JobStatus

abbrev pub cancel_outcome : CancellationAction → Job → JobStatus → CancellationOutcome
cancel_outcome action job status = record {
  action = action;
  run_id = job.current_run_id;
  prior_status = some job.status;
  status = some status;
}

abbrev pub end_cancelled : ℕ → JobRun → JobRun
end_cancelled now run = record run { status = cancelled; completed_at = some now }

-- A running job must have the run that it is cancelled with.
abbrev pub cancel_its_run : String → ℕ → Option String → Tx CancellationOutcome (Unit {0})
cancel_its_run job_id now none = raise runtime_error
cancel_its_run job_id now (some run_id) =
    update_run job_id run_id is_running (end_cancelled now) >>= λ matched.
    if matched then return tt else raise runtime_error

abbrev pub cancel_active : String → ℕ → Job → Tx CancellationOutcome CancellationOutcome
cancel_active job_id now job =
    update_job job_id (has_run job.status job.current_run_id)
      (λ j. record j { status = cancelled; schedule_enabled = false; updated_at = some now })
    >>= λ matched.
        if matched then return (cancel_outcome was_cancelled job cancelled) else raise runtime_error

abbrev pub is_expected : Option String → Option String → Bool
is_expected none current = true
is_expected (some expected) current = is_same current (some expected)

abbrev pub cancel_found :
    String → ℕ → Option String → Option Job → Tx CancellationOutcome CancellationOutcome
cancel_found job_id now expected none =
    rollback (record { action = missing; run_id = none; prior_status = none; status = none })
cancel_found job_id now expected (some job) =
    if not (is_expected expected job.current_run_id)
    then rollback (cancel_outcome run_conflict job job.status)
    else if same_status job.status cancelled
    then rollback (cancel_outcome already_cancelled job cancelled)
    else if not (same_status job.status queued || same_status job.status running)
    then rollback (cancel_outcome conflict job job.status)
    else if same_status job.status running
    then (cancel_its_run job_id now job.current_run_id >> cancel_active job_id now job)
    else cancel_active job_id now job

unfoldable pub cancel_tx : String → ℕ → Option String → Tx CancellationOutcome CancellationOutcome
cancel_tx job_id now expected = select_job job_id >>= cancel_found job_id now expected

unfoldable pub cancel_job :
    String → ℕ → Option String → JobStore → Reply CancellationOutcome × JobStore
cancel_job job_id now expected = transaction (cancel_tx job_id now expected)

pub data ReservationAction : Type 0 where
  reservation_missing active_conflict reservation_policy_conflict : ReservationAction
  resumed created pending_webhook_conflict : ReservationAction

pub record DeletionReservationOutcome : Type 0 where
  pub action : ReservationAction
  pub run_id : Option String
  pub prior_status : Option JobStatus
  pub run_ids : List String

-- An unset policy is a conflict.
abbrev pub same_policy : Bool → Option Bool → Bool
same_policy delete_results none = false
same_policy true (some p) = p
same_policy false (some p) = not p

abbrev pub has_pending : String → Dict String WebhookDelivery → Bool
has_pending job_id [] = false
has_pending job_id ((_, d) ∷ ds) =
    d.job_id == job_id && (elim d.status [ pending ↦ true | _ ↦ false ]) || has_pending job_id ds

-- The runs of a job as a list without an order; the source sorts its set of them.
unfoldable pub runs_of : String → Dict String JobRun → List String
runs_of job_id [] = []
runs_of job_id ((run_id, run) ∷ runs) =
    let rest = runs_of job_id runs in if run.job_id == job_id then run_id ∷ rest else rest

abbrev pub reservation : ReservationAction → Job → List String → DeletionReservationOutcome
reservation action job run_ids = record {
  action = action;
  run_id = job.current_run_id;
  prior_status = some job.status;
  run_ids = run_ids;
}

abbrev pub includes : String → List String → Bool
includes x [] = false
includes x (y ∷ ys) = y == x || includes x ys

abbrev pub with_current : Option String → List String → List String
with_current none ids = ids
with_current (some run_id) ids = if includes run_id ids then ids else run_id ∷ ids

abbrev pub answer_reservation :
    ReservationAction → String → Job → Tx DeletionReservationOutcome DeletionReservationOutcome
answer_reservation action job_id job s =
    next (reservation action job (with_current job.current_run_id (runs_of job_id s.job_runs))) s

abbrev pub unless_pending :
    {A : Type 0}
    → DeletionReservationOutcome
    → String
    → Tx DeletionReservationOutcome A
    → Tx DeletionReservationOutcome A
unless_pending refusal job_id tx s =
    if has_pending job_id s.webhook_deliveries then rollback refusal s else tx s

abbrev pub reserve_change : Bool → ℕ → Job → Job
reserve_change delete_results now job = record job {
  status = deleting;
  schedule_enabled = false;
  updated_at = some now;
  deletion_requested_at = some now;
  delete_results_on_delete = some delete_results;
}

abbrev pub reserve_new :
    String → Bool → ℕ → Job → Tx DeletionReservationOutcome DeletionReservationOutcome
reserve_new job_id delete_results now job =
    update_job job_id (has_run job.status job.current_run_id) (reserve_change delete_results now)
    >>= λ matched. if matched then answer_reservation created job_id job else raise runtime_error

abbrev pub reserve_found :
    String → Bool → ℕ → Option Job → Tx DeletionReservationOutcome DeletionReservationOutcome
reserve_found job_id delete_results now none =
    rollback
      (record { action = reservation_missing; run_id = none; prior_status = none; run_ids = [] })
reserve_found job_id delete_results now (some job) =
    if same_status job.status queued || same_status job.status running
    then rollback (reservation active_conflict job [])
    else if same_status job.status deleting
    then (if not (same_policy delete_results job.delete_results_on_delete)
        then rollback (reservation reservation_policy_conflict job [])
        else unless_pending (reservation pending_webhook_conflict job []) job_id
            (answer_reservation resumed job_id job))
    else unless_pending (reservation pending_webhook_conflict job []) job_id
        (reserve_new job_id delete_results now job)

unfoldable pub reserve_tx :
    String → Bool → ℕ → Tx DeletionReservationOutcome DeletionReservationOutcome
reserve_tx job_id delete_results now = select_job job_id >>= reserve_found job_id delete_results now

unfoldable pub reserve_job_deletion :
    String → Bool → ℕ → JobStore → Reply DeletionReservationOutcome × JobStore
reserve_job_deletion job_id delete_results now = transaction (reserve_tx job_id delete_results now)

pub data FinalizationAction : Type 0 where
  finalization_missing not_reserved finalization_policy_conflict : FinalizationAction
  webhook_conflict unexpired_idempotency_conflict deleted : FinalizationAction

abbrev pub has_unexpired : String → ℕ → Dict (String × String) IdempotencyRecord → Bool
has_unexpired job_id after [] = false
has_unexpired job_id after ((_, i) ∷ is) =
    i.job_id == job_id && ltb after i.expires_at || has_unexpired job_id after is

abbrev pub is_preserved : String → Option ℕ → JobStore → Bool
is_preserved job_id none s = false
is_preserved job_id (some after) s = has_unexpired job_id after s.scrape_idempotency

-- Every row of the job.
abbrev pub erase_job : String → JobStore → JobStore
erase_job job_id s = record {
  jobs = remove job_id s.jobs;
  job_runs = keep (λ r. not (r.job_id == job_id)) s.job_runs;
  queued_run_snapshots = keep (λ q. not (q.job_id == job_id)) s.queued_run_snapshots;
  webhook_deliveries = keep (λ d. not (d.job_id == job_id)) s.webhook_deliveries;
  scrape_idempotency = keep (λ i. not (i.job_id == job_id)) s.scrape_idempotency;
}

abbrev pub finalize_found :
    String → Bool → Option ℕ → Option Job → Tx FinalizationAction FinalizationAction
finalize_found job_id delete_results after none s = rollback finalization_missing s
finalize_found job_id delete_results after (some job) s =
    if not (same_status job.status deleting)
    then rollback not_reserved s
    else if not (same_policy delete_results job.delete_results_on_delete)
    then rollback finalization_policy_conflict s
    else if has_pending job_id s.webhook_deliveries
    then rollback webhook_conflict s
    else if is_preserved job_id after s
    then rollback unexpired_idempotency_conflict s
    else next deleted (erase_job job_id s)

unfoldable pub finalize_job_deletion :
    String → Bool → Option ℕ → JobStore → Reply FinalizationAction × JobStore
finalize_job_deletion job_id delete_results after =
    transaction (select_job job_id >>= finalize_found job_id delete_results after)
