-- ===== src/Jobs/Reconcile/Owned.antt =====
-- Who owns a running run after reconciliation and pruning,
-- src/scrapeyard/storage/job_terminal_reconciliation.py and job_retention.py.
use scrapeyard.Prelude.{
  String, ℕ, ◌≡◌, sym, subst, ap, ◌∙◌, Bool, true, Option, none, some, ◌==◌, text_keys,
  if◌then◌else◌, inl, inr, Bool-cases, eq_of_some,
}
use scrapeyard.Prelude.Dict.{get, remove, get-remove, remove-IsUnique}
use scrapeyard.Jobs.{
  running, same_status, is_same, is_terminal, Secrets, Job, JobRun, JobStore, owned_by,
}
use scrapeyard.Jobs.Queue.{to_status}
use scrapeyard.Jobs.Ownership.{is_running, is_running_for, WebhookDeliveryCreate}
use scrapeyard.Jobs.Reconcile.{
  TerminalWebhookCandidate, TerminalIntentReconcileResult, reconciled_at, mark_change,
  reconcile_terminal_webhook_candidate, prune_scheduled_run_for_retention,
}
use scrapeyard.Jobs.Reconcile.Keeps.{KeepsAll, reconcile_keeps, prune_keeps}
use scrapeyard.Jobs.Rules.{with_job}
use scrapeyard.Jobs.Running.{
  IsOwned, put_run-IsOwned, quiet_job-IsOwned, quiet_of_end, and_right, terminal_is_not_running,
}
use scrapeyard.Jobs.Exclusive.End.{owned_by-get, commit-IsOwned}

converged-IsOwned :
    (c : TerminalWebhookCandidate) (s : JobStore) (run : JobRun) (job : Job)
    → IsOwned s
    → owned_by c.job_id (get c.run_id s.job_runs) ≡ some run
    → is_terminal run.status ≡ true
    → get c.job_id s.jobs ≡ some job
    → is_running_for c.run_id job ≡ true
    → IsOwned (with_job c.job_id (to_status c.status (reconciled_at c) job) s)
converged-IsOwned c s run job o e final f m =
    let (g, mine) = owned_by-get c.job_id (get c.run_id s.job_runs) run e in
    let current =
      and_right (same_status job.status running) (is_same job.current_run_id (some c.run_id)) m in
    quiet_job-IsOwned s c.job_id (to_status c.status (reconciled_at c) job) o (
      quiet_of_end s c.job_id c.run_id job o f current (λ x h _.
        ap is_running (eq_of_some (sym h ∙ g)) ∙ terminal_is_not_running run.status final))

IsOwned-KeepsAll : (c : TerminalWebhookCandidate) → KeepsAll IsOwned c
IsOwned-KeepsAll c = record {
  converged = λ s run o e final job f m. converged-IsOwned c s run job o e final f m;
  marked = λ s run o e.
      let (g, mine) = owned_by-get c.job_id (get c.run_id s.job_runs) run e in
      put_run-IsOwned s c.run_id (mark_change (reconciled_at c) run) o
        (λ live. o.owned c.run_id run g live);
  inserted = λ d now s o. commit-IsOwned TerminalIntentReconcileResult d now s o;
}

pub reconcile-IsOwned :
    (secrets : Secrets) (c : TerminalWebhookCandidate) (d : Option WebhookDeliveryCreate)
    (s : JobStore)
    → IsOwned s
    → IsOwned (reconcile_terminal_webhook_candidate secrets c d s).1
reconcile-IsOwned secrets c d s o = reconcile_keeps IsOwned c (IsOwned-KeepsAll c) secrets d s o

still_there :
    (s : JobStore) (run_id r : String) (x : JobRun)
    → get r (remove run_id s.job_runs) ≡ some x
    → get r s.job_runs ≡ some x
still_there s run_id r x e = elim (Bool-cases (run_id == r)) [
  | inl same ↦ absurd (
      let g : none ≡ some x =
        subst (λ b. (if b then none else get r s.job_runs) ≡ some x) same
          (sym (get-remove run_id r s.job_runs) ∙ e) in
      cc)
  | inr apart ↦
      subst (λ b. (if b then none else get r s.job_runs) ≡ some x) apart
        (sym (get-remove run_id r s.job_runs) ∙ e)
]

pub prune-IsOwned :
    (job_id run_id : String) (scrubbed : Bool) (expired_before max_runs : ℕ) (s : JobStore)
    → IsOwned s
    → IsOwned (prune_scheduled_run_for_retention job_id run_id scrubbed expired_before max_runs s).1
prune-IsOwned job_id run_id scrubbed expired_before max_runs s o =
    prune_keeps IsOwned job_id run_id scrubbed expired_before max_runs s o (record {
      unique = remove-IsUnique run_id s.job_runs o.unique;
      owned = λ r x e live. o.owned r x (still_there s run_id r x e) live;
    })
