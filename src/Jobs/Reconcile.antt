-- ===== src/Jobs/Reconcile.antt =====
-- The reconciliation of the webhook of a terminal run, src/scrapeyard/storage/job_terminal_reconciliation.py,
-- and the deletion of a run from the history, src/scrapeyard/storage/job_retention.py.
pub mod Keeps
pub mod Owned
use scrapeyard.Prelude.{
  String, ℕ, zero, suc, ◌+◌, ltb, leb, nat_eq, text_ltb, Bool, true, false, not, ◌&&◌, ◌||◌, Option,
  none, some, List, [], ◌∷◌, ◌==◌, text_keys, if◌then◌else◌,
}
use scrapeyard.Prelude.Dict.{Dict, get, remove, keep}
use scrapeyard.Jobs.{
  JobStatus, running, deleting, same_status, is_same, is_terminal, job_config, run_config, Secrets,
  Job, JobRun, WebhookDelivery, pending, JobStore, secret_decryption_error, value_error,
  runtime_error, Step, next, raised, Tx, ◌>>=◌, ◌>>◌, return, rollback, raise, Reply, transaction,
  select_job, update_job, owned_by, update_run,
}
use scrapeyard.Jobs.Queue.{is_some, to_status}
use scrapeyard.Jobs.Ownership.{
  is_running_for, WebhookDeliveryCreate, event_of, delivery_matches, commit_terminal_intent,
}

-- The columns that the transaction reads.
pub record TerminalWebhookCandidate : Type 0 where
  pub job_id : String
  pub run_id : String
  pub status : JobStatus
  pub config_yaml : String
  pub has_config_snapshot : Bool
  pub config_hash : String
  pub heartbeat_at : ℕ
  pub completed_at : Option ℕ

pub data TerminalIntentAction : Type 0 where
  intent_created intent_existing not_required race_noop : TerminalIntentAction

pub record TerminalIntentReconcileResult : Type 0 where
  pub action : TerminalIntentAction
  pub parent_converged : Bool
  pub delivery_id : Option String

abbrev pub or_time : Option ℕ → ℕ → ℕ
or_time none n = n
or_time (some m) n = m

abbrev pub reconciled_at : TerminalWebhookCandidate → ℕ
reconciled_at c = or_time c.completed_at c.heartbeat_at

-- `COALESCE(webhook_reconciled_at, ?)`.
abbrev pub mark_change : ℕ → JobRun → JobRun
mark_change at run = record run {
  webhook_reconciled_at = some (or_time run.webhook_reconciled_at at);
}

abbrev pub is_candidate : TerminalWebhookCandidate → JobRun → Bool
is_candidate c run = same_status run.status c.status && run.config_hash == c.config_hash

unfoldable pub mark_terminal_webhook_reconciled :
    {R : Type 0} → TerminalWebhookCandidate → Tx R (Unit {0})
mark_terminal_webhook_reconciled c =
    update_run c.job_id c.run_id (is_candidate c) (mark_change (reconciled_at c)) >>= λ matched.
    if matched then return tt else raise runtime_error

abbrev pub same_text : {R : Type 0} → String → Option String → Tx R Bool
same_text expected none = raise secret_decryption_error
same_text expected (some t) = return (t == expected)

abbrev pub config_matches :
    {R : Type 0} → Secrets → TerminalWebhookCandidate → Bool → Option String → Job → Tx R Bool
config_matches secrets c true (some stored) job =
    same_text c.config_yaml (secrets.reveal (run_config c.run_id) stored)
config_matches secrets c true none job = return false
config_matches secrets c false (some stored) job = return false
config_matches secrets c false none job =
    same_text c.config_yaml (secrets.reveal (job_config c.job_id) job.config_yaml)

abbrev pub reconcile_answer :
    TerminalIntentAction → Bool → Option String → TerminalIntentReconcileResult
reconcile_answer action parent_converged delivery_id = record {
  action = action;
  parent_converged = parent_converged;
  delivery_id = delivery_id;
}

abbrev pub lost_race : Tx TerminalIntentReconcileResult Bool
lost_race = rollback (reconcile_answer race_noop false none)

-- The parent job that still runs this run gets its status.
abbrev pub converge_parent : TerminalWebhookCandidate → Job → Tx TerminalIntentReconcileResult Bool
converge_parent c job =
    if is_running_for c.run_id job
    then (update_job c.job_id (is_running_for c.run_id) (to_status c.status (reconciled_at c))
        >>= λ matched. if matched then return true else lost_race)
    else return false

abbrev pub is_intent : TerminalWebhookCandidate → WebhookDelivery → Bool
is_intent c d =
    d.job_id == c.job_id && is_same d.run_id (some c.run_id) && d.event == event_of c.status

-- `ORDER BY created_at ASC, delivery_id ASC`.
abbrev pub first_of :
    String × WebhookDelivery → Option (String × WebhookDelivery) → String × WebhookDelivery
first_of x none = x
first_of (i, a) (some (j, b)) =
    if ltb b.created_at a.created_at || nat_eq b.created_at a.created_at && text_ltb j i
    then (j, b)
    else (i, a)

unfoldable pub earliest_intent :
    TerminalWebhookCandidate → Dict String WebhookDelivery → Option (String × WebhookDelivery)
earliest_intent c [] = none
earliest_intent c ((id, d) ∷ ds) =
    let rest = earliest_intent c ds in if is_intent c d then some (first_of (id, d) rest) else rest

-- Whether the delivery is a new one; the collision with another event is an error.
abbrev pub check_collision :
    {R : Type 0} → TerminalWebhookCandidate → Option WebhookDelivery → Tx R Bool
check_collision c none = return true
check_collision c (some d) = if is_intent c d then return false else raise runtime_error

abbrev pub finish_reconciliation :
    TerminalWebhookCandidate
    → TerminalIntentReconcileResult
    → Tx TerminalIntentReconcileResult TerminalIntentReconcileResult
finish_reconciliation c result = mark_terminal_webhook_reconciled c >>= λ _. return result

abbrev pub insert_intent :
    TerminalWebhookCandidate
    → Bool
    → WebhookDeliveryCreate
    → Tx TerminalIntentReconcileResult TerminalIntentReconcileResult
insert_intent c parent d s =
    (if delivery_matches c.job_id c.run_id c.status d
        then (commit_terminal_intent (some d) (reconciled_at c) >>= λ _.
            check_collision c (get d.delivery_id s.webhook_deliveries) >>= λ new.
            finish_reconciliation c (
              reconcile_answer (if new then intent_created else intent_existing) parent
                (some d.delivery_id)))
        else raise value_error)
      s

abbrev pub settle_intent :
    TerminalWebhookCandidate
    → Option WebhookDeliveryCreate
    → Bool
    → Option (String × WebhookDelivery)
    → Tx TerminalIntentReconcileResult TerminalIntentReconcileResult
settle_intent c d parent (some (id, _)) =
    finish_reconciliation c (reconcile_answer intent_existing parent (some id))
settle_intent c none parent none =
    finish_reconciliation c (reconcile_answer not_required parent none)
settle_intent c (some d) parent none = insert_intent c parent d

abbrev pub reconcile_found :
    Secrets
    → TerminalWebhookCandidate
    → Option WebhookDeliveryCreate
    → Option JobRun
    → Option Job
    → Tx TerminalIntentReconcileResult TerminalIntentReconcileResult
reconcile_found secrets c d none job = rollback (reconcile_answer race_noop false none)
reconcile_found secrets c d (some run) none = rollback (reconcile_answer race_noop false none)
reconcile_found secrets c d (some run) (some job) =
    if not (is_candidate c run && is_terminal run.status) || same_status job.status deleting
    then rollback (reconcile_answer race_noop false none)
    else (config_matches secrets c c.has_config_snapshot run.config_yaml job >>= λ matches.
        (if matches then converge_parent c job else lost_race) >>= λ parent s.
        settle_intent c d parent (earliest_intent c s.webhook_deliveries) s)

unfoldable pub reconcile_terminal_webhook_candidate :
    Secrets
    → TerminalWebhookCandidate
    → Option WebhookDeliveryCreate
    → JobStore
    → Reply TerminalIntentReconcileResult × JobStore
unfolding mark_terminal_webhook_reconciled earliest_intent
reconcile_terminal_webhook_candidate secrets c d = transaction (λ s.
    reconcile_found secrets c d (owned_by c.job_id (get c.run_id s.job_runs)) (get c.job_id s.jobs)
      s)

-- A run of the history.

abbrev pub is_newer : String → JobRun → String → JobRun → Bool
is_newer run_id run r x =
    x.job_id == run.job_id
    && is_terminal x.status
    && (ltb run.started_at x.started_at || nat_eq x.started_at run.started_at && text_ltb run_id r)

unfoldable pub count_newer : String → JobRun → Dict String JobRun → ℕ
count_newer run_id run [] = 0
count_newer run_id run ((r, x) ∷ rows) =
    (if is_newer run_id run r x then 1 else 0) + count_newer run_id run rows

abbrev pub is_delivery_of : String → String → WebhookDelivery → Bool
is_delivery_of job_id run_id d = d.job_id == job_id && is_same d.run_id (some run_id)

abbrev pub is_unsettled : WebhookDelivery → Bool
is_unsettled d = elim d.status [ pending ↦ true | _ ↦ false ]

unfoldable pub has_unsettled : String → String → Dict String WebhookDelivery → Bool
has_unsettled job_id run_id [] = false
has_unsettled job_id run_id ((_, d) ∷ ds) =
    let rest = has_unsettled job_id run_id ds in
    is_delivery_of job_id run_id d && is_unsettled d || rest

-- `scheduled_history_eligibility_sql`. Whether the deliveries of the run were scrubbed long enough ago,
-- which this database's columns do not say, is an argument.
unfoldable pub is_prunable :
    String → String → Bool → ℕ → ℕ → JobStore → Option Job → Option JobRun → Bool
unfolding count_newer has_unsettled
is_prunable job_id run_id scrubbed expired_before max_runs s none run = false
is_prunable job_id run_id scrubbed expired_before max_runs s (some job) none = false
is_prunable job_id run_id scrubbed expired_before max_runs s (some job) (some run) =
    is_some job.schedule_cron
    && is_terminal run.status
    && not (is_same job.current_run_id (some run_id))
    && is_some run.webhook_reconciled_at
    && not (has_unsettled job_id run_id s.webhook_deliveries)
    && scrubbed
    && (leb (or_time run.completed_at run.started_at) expired_before
        || leb max_runs (count_newer run_id run s.job_runs))

-- The deliveries of an eligible run are all settled and scrubbed.
abbrev pub drop_run : String → String → JobStore → JobStore
drop_run job_id run_id s = record s {
  webhook_deliveries = keep (λ d. not (is_delivery_of job_id run_id d)) s.webhook_deliveries;
  job_runs = remove run_id s.job_runs;
}

-- Whether the run was pruned.
unfoldable pub prune_scheduled_run_for_retention :
    String → String → Bool → ℕ → ℕ → JobStore → Reply Bool × JobStore
unfolding is_prunable
prune_scheduled_run_for_retention job_id run_id scrubbed expired_before max_runs = transaction (λ s.
    if is_prunable job_id run_id scrubbed expired_before max_runs s (get job_id s.jobs)
      (owned_by job_id (get run_id s.job_runs))
    then next true (drop_run job_id run_id s)
    else rollback false s)
