-- ===== src/Examples/Jobs.antt =====
-- The database of src/scrapeyard/storage/job_store.py on small inputs.
use scrapeyard.Jobs.{
  cancelled, complete, error, run_ownership_error, running, Secrets, Job, JobRun, JobStore,
  returned,
}
use scrapeyard.Jobs.Ownership.{
  RunEnd, finalize_owned_run, finalize_tx, commit_terminal_intent, heartbeat_run,
}
use scrapeyard.Jobs.Claim.{claim_run, claim_tx}
use scrapeyard.Jobs.Steps.{
  cancel_step, prune_step, reconcile_step, Transaction, recover_step, queue_step, claim_step,
  heartbeat_step, commit, commit_all,
}
use scrapeyard.Jobs.Lifecycle.{is_closed}
use scrapeyard.Jobs.Lifecycle.All.{closed_stays_closed}
use scrapeyard.Prelude.{
  subst, String, ◌≡◌, refl, true, none, some, List, [], ◌∷◌, text_keys, pair_keys,
}
use scrapeyard.Jobs.Exclusive.Finalize.{finalized, finalize_succeeds}
use scrapeyard.Prelude.Int.{pos}
use scrapeyard.Prelude.Dict.{get, put, remove}
use scrapeyard.Jobs.Queue.{
  Capacity, QueueRequest, queue_run, queue_run_tx, check_admission, count_jobs,
}
use scrapeyard.Jobs.Reconcile.{
  TerminalWebhookCandidate, reconcile_terminal_webhook_candidate, mark_terminal_webhook_reconciled,
  earliest_intent,
}
use scrapeyard.Jobs.Running.{IsOwned}
use scrapeyard.Jobs.History.Final.{IsSettled, over_is_over}
use scrapeyard.Jobs.History.Late.{IsTurnedAway, late_worker_refused, recover_spares}
use scrapeyard.Jobs.Recovery.{failed_stale_heartbeat, recover_current_run, recover_stale_run}
use scrapeyard.Jobs.Exclusive.All.{commit_all-IsOwned, one_running_run}

-- Nothing is hidden, and a text is its own hash.
abbrev plain : Secrets
plain = record { protect = λ p t. t; reveal = λ p t. some t; digest = λ t. t }

abbrev parent : Job
parent = record {
  status = complete;
  config_yaml = "c";
  config_hash = "c";
  updated_at = none;
  schedule_cron = none;
  schedule_enabled = true;
  current_run_id = none;
  current_trigger = none;
  deletion_requested_at = none;
  delete_results_on_delete = none;
  schedule_failure_at = none;
  schedule_failure_code = none;
  schedule_consecutive_failures = 0;
}

abbrev idle : JobStore
idle = record {
  jobs = ("j", parent) ∷ [];
  job_runs = [];
  queued_run_snapshots = [];
  webhook_deliveries = [];
  scrape_idempotency = [];
}

idle-IsOwned : IsOwned idle
unfolding get
idle-IsOwned = record { unique = tt; owned = λ r x e live. absurd (cc) }

abbrev room : Capacity
room = record { workers_max_accepted_runs = 5; memory_headroom_mb = pos 100 }

abbrev request : QueueRequest
request = record {
  expected_status = complete;
  expected_run_id = none;
  new_run_id = "r";
  new_trigger = "scheduled";
  queued_at = 1;
  stale_before = none;
  expected_config_yaml = none;
  require_schedule_enabled = true;
}

abbrev started : List Transaction
started =
    queue_step room "j" request
    ∷ claim_step "r" "j" "scheduled" "c" 2
    ∷ heartbeat_step "j" "r" 3
    ∷ []

abbrev live_run : JobRun
live_run = record {
  job_id = "j";
  status = running;
  trigger = "scheduled";
  config_hash = "c";
  config_yaml = some "c";
  started_at = 2;
  heartbeat_at = 3;
  completed_at = none;
  record_count = none;
  error_count = 0;
  webhook_reconciled_at = none;
  failure_code = none;
}

abbrev live_job : Job
live_job = record parent {
  status = running;
  updated_at = some 2;
  current_run_id = some "r";
  current_trigger = some "scheduled";
}

abbrev active : JobStore
active = record idle { jobs = ("j", live_job) ∷ []; job_runs = ("r", live_run) ∷ [] }

commit_all-started : commit_all plain started idle ≡ active
unfolding commit_all commit queue_run queue_run_tx check_admission count_jobs claim_run claim_tx
    heartbeat_run get put remove
commit_all-started = refl

commit_all-IsOwned_example : IsOwned (commit_all plain started idle)
commit_all-IsOwned_example =
    commit_all-IsOwned plain started idle (refl, (tt, (tt, tt))) idle-IsOwned

one_running_run_example : ◌≡◌ {A = String} "r" "r"
unfolding commit_all commit queue_run queue_run_tx check_admission count_jobs claim_run claim_tx
    heartbeat_run get put remove
one_running_run_example =
    one_running_run plain started idle "r" "r" live_run live_run (refl, (tt, (tt, tt))) idle-IsOwned
      refl refl refl refl refl

-- A replacement that was asked for while the job was running takes it from its run.
displaced :
    (queue_run plain room "j"
      (record request { expected_status = running; expected_run_id = some "r"; new_run_id = "q" })
      active).0
    ≡ returned true
unfolding queue_run queue_run_tx check_admission count_jobs get put
displaced = refl

abbrev over_run : JobRun
over_run = record live_run { status = cancelled; completed_at = some 4 }

abbrev over : JobStore
over = record idle { job_runs = ("r", over_run) ∷ [] }

-- A second claim of the same run, a late recovery, a cancellation, and the pruning of another run.
abbrev late : List Transaction
late =
    claim_step "r" "j" "scheduled" "c" 5
    ∷ recover_step "j" (some "r") 9 10
    ∷ cancel_step "j" 11 none
    ∷ prune_step "j" "older" true 20 3
    ∷ []

over_is_over_example : IsSettled over_run (get "r" (commit_all plain late over).job_runs)
unfolding get
over_is_over_example =
    over_is_over plain late over "r" over_run (tt, (tt, (tt, (refl, tt)))) refl refl

abbrev the_end : RunEnd
the_end = record {
  status = complete;
  record_count = 7;
  error_count = 0;
  completed_at = 12;
  heartbeat_cutoff = 1;
  webhook_delivery = none;
}

late_worker_refused_example :
    IsTurnedAway
      (commit_all plain late over)
      (heartbeat_run "j" "r" 12 (commit_all plain late over))
    × IsTurnedAway
        (commit_all plain late over)
        (finalize_owned_run "j" "r" the_end (commit_all plain late over))
unfolding get
late_worker_refused_example =
    late_worker_refused plain late over "j" "r" over_run 12 the_end (tt, (tt, (tt, (refl, tt))))
      refl refl

in_time : (finalize_owned_run "j" "r" the_end active).0 ≡ returned tt
unfolding finalize_owned_run finalize_tx commit_terminal_intent get put
in_time = refl

too_late :
    (finalize_owned_run "j" "r" (record the_end { heartbeat_cutoff = 3 }) active).0
    ≡ error run_ownership_error
unfolding finalize_owned_run finalize_tx get put
too_late = refl

recover_spares_example : recover_stale_run "j" (some "r") 2 9 active ≡ (returned none, active)
unfolding get
recover_spares_example =
    recover_spares active "j" "r" (some "r") 2 9 live_job live_run refl refl refl refl refl

stale_is_recovered :
    (recover_stale_run "j" (some "r") 3 9 active).0 ≡ returned (some failed_stale_heartbeat)
unfolding recover_stale_run recover_current_run get put
stale_is_recovered = refl

-- A run that was complete is reconciled, which sets the time, and its job gets its status.
abbrev complete_run : JobRun
complete_run = record live_run { status = complete; completed_at = some 4 }

abbrev candidate : TerminalWebhookCandidate
candidate = record {
  job_id = "j";
  run_id = "r";
  status = complete;
  config_yaml = "c";
  has_config_snapshot = true;
  config_hash = "c";
  heartbeat_at = 3;
  completed_at = some 4;
}

reconciliation_settles :
    commit_all plain
      (reconcile_step candidate none ∷ [])
      (record active { job_runs = ("r", complete_run) ∷ [] })
    ≡ record active {
      jobs = ("j", record live_job { status = complete; updated_at = some 4 }) ∷ [];
      job_runs = ("r", record complete_run { webhook_reconciled_at = some 4 }) ∷ [];
    }
unfolding commit_all commit reconcile_terminal_webhook_candidate mark_terminal_webhook_reconciled
    earliest_intent get put
reconciliation_settles = refl

-- The only job is cancelled while it waits; a claim, a fire of the schedule and a recovery follow.
abbrev cancelled_job : Job
cancelled_job = record parent { status = cancelled; current_run_id = some "r" }

abbrev halted : JobStore
halted = record idle { jobs = ("j", cancelled_job) ∷ [] }

abbrev attempts : List Transaction
attempts =
    claim_step "r" "j" "scheduled" "c" 5
    ∷ queue_step room "j" request
    ∷ recover_step "j" (some "r") 9 10
    ∷ []

commit_all-halted : commit_all plain attempts halted ≡ halted
unfolding commit_all commit claim_run claim_tx queue_run queue_run_tx recover_stale_run
    recover_current_run get put
commit_all-halted = refl

closed_stays_closed_example : is_closed cancelled_job.status ≡ true
unfolding commit_all commit claim_run claim_tx queue_run queue_run_tx recover_stale_run
    recover_current_run get put
closed_stays_closed_example =
    closed_stays_closed plain attempts halted "j" cancelled_job cancelled_job refl refl refl

active-IsOwned : IsOwned active
active-IsOwned =
    subst IsOwned commit_all-started
      (commit_all-IsOwned plain started idle (refl, (tt, (tt, tt))) idle-IsOwned)

finalize_succeeds_example :
    (job : Job) × (get "j" active.jobs ≡ some job)
    × (finalize_owned_run "j" "r" the_end active
        ≡ (returned tt, finalized "j" "r" the_end live_run job active))
unfolding get
finalize_succeeds_example =
    finalize_succeeds active "j" "r" the_end live_run active-IsOwned refl refl refl refl refl
