-- ===== src/Jobs/Reconcile/Keeps.antt =====
-- What reconciliation and pruning, src/scrapeyard/storage/job_terminal_reconciliation.py and
-- job_retention.py, keep of the database, for any predicate.
use scrapeyard.Prelude.{
  String, ℕ, ◌≡◌, refl, subst, Bool, true, false, not, ◌&&◌, ◌||◌, Option, none, some, text_keys,
  if◌then◌else◌, arith,
}
use scrapeyard.Prelude.Dict.{get}
use scrapeyard.Jobs.{
  deleting, same_status, is_terminal, job_config, run_config, Secrets, Job, JobRun, JobStore,
  WebhookDelivery, next, rollback, owned_by,
}
use scrapeyard.Jobs.Queue.{to_status}
use scrapeyard.Jobs.Ownership.{
  is_running_for, WebhookDeliveryCreate, delivery_matches, commit_terminal_intent,
}
use scrapeyard.Jobs.Reconcile.{
  TerminalWebhookCandidate, TerminalIntentReconcileResult, reconciled_at, mark_change, is_candidate,
  mark_terminal_webhook_reconciled, same_text, config_matches, converge_parent, lost_race,
  earliest_intent, check_collision, finish_reconciliation, insert_intent, settle_intent, is_intent,
  reconcile_found, reconcile_terminal_webhook_candidate, is_prunable, drop_run,
  prune_scheduled_run_for_retention,
}
use scrapeyard.Jobs.Rules.{
  Ends, continue-Ends, conclude-keeps, if-Ends, choose-Ends, update_job-Ends, update_run-Ends,
  with_job, with_run,
}

-- What each statement of the transaction must keep.
pub record KeepsAll (Q : JobStore → Type 0) (c : TerminalWebhookCandidate) : Type 0 where
  pub converged :
      (s : JobStore) (run : JobRun)
      → Q s
      → owned_by c.job_id (get c.run_id s.job_runs) ≡ some run
      → is_terminal run.status ≡ true
      → (job : Job) → get c.job_id s.jobs ≡ some job
      → is_running_for c.run_id job ≡ true
      → Q (with_job c.job_id (to_status c.status (reconciled_at c) job) s)
  pub marked :
      (s : JobStore) (run : JobRun)
      → Q s
      → owned_by c.job_id (get c.run_id s.job_runs) ≡ some run
      → Q (with_run c.run_id (mark_change (reconciled_at c) run) s)
  pub inserted :
      (d : Option WebhookDeliveryCreate) (now : ℕ) (s : JobStore)
      → Q s
      → Ends (λ _. Q) (commit_terminal_intent {R = TerminalIntentReconcileResult} d now s)

module _ (Q : JobStore → Type 0) (c : TerminalWebhookCandidate) (kept : KeepsAll Q c) where
  abbrev Result : Type 0
  Result = TerminalIntentReconcileResult

  finish_keeps :
      (result : Result) (s : JobStore) → Q s → Ends (λ _. Q) (finish_reconciliation c result s)
  unfolding mark_terminal_webhook_reconciled
  finish_keeps result s q =
      continue-Ends (λ _. Q) (λ _. Q) _ _
        (continue-Ends (λ _. Q) (λ _. Q) _ _
          (update_run-Ends Result (λ _. Q) s c.job_id c.run_id (is_candidate c)
            (mark_change (reconciled_at c)) q (λ run e m. kept.marked s run q e))
          (λ matched s' q'. if-Ends Result (λ _. Q) matched _ _ s' (λ _. q') (λ _. tt)))
        (λ _ s' q'. q')

  collision_keeps :
      (row : Option WebhookDelivery) (s : JobStore)
      → Q s
      → Ends (λ _. Q) (check_collision {R = Result} c row s)
  collision_keeps none s q = q
  collision_keeps (some d) s q = if-Ends Result (λ _. Q) (is_intent c d) _ _ s (λ _. q) (λ _. tt)

  insert_keeps :
      (parent : Bool) (d : WebhookDeliveryCreate) (s : JobStore)
      → Q s
      → Ends (λ _. Q) (insert_intent c parent d s)
  insert_keeps parent d s q =
      if-Ends Result (λ _. Q) (delivery_matches c.job_id c.run_id c.status d) _ _ s
        (λ _.
          continue-Ends (λ _. Q) (λ _. Q) _ _ (kept.inserted (some d) (reconciled_at c) s q)
            (λ _ s' q'.
              continue-Ends (λ _. Q) (λ _. Q) _ _
                (collision_keeps (get d.delivery_id s.webhook_deliveries) s' q')
                (λ new s'' q''. finish_keeps _ s'' q'')))
        (λ _. tt)

  settle_keeps :
      (d : Option WebhookDeliveryCreate) (parent : Bool) (found : Option (String × WebhookDelivery))
      (s : JobStore)
      → Q s
      → Ends (λ _. Q) (settle_intent c d parent found s)
  settle_keeps d parent (some (id, _)) s q = finish_keeps _ s q
  settle_keeps none parent none s q = finish_keeps _ s q
  settle_keeps (some d) parent none s q = insert_keeps parent d s q

  -- The configuration is only read.
  abbrev Same : JobStore → Bool → JobStore → Type 0
  Same s _ s' = s ≡ s'

  text_keeps :
      (expected : String) (o : Option String) (s : JobStore)
      → Ends (Same s) (same_text {R = Result} expected o s)
  text_keeps expected none s = tt
  text_keeps expected (some t) s = refl

  config_keeps :
      (secrets : Secrets) (b : Bool) (o : Option String) (job : Job) (s : JobStore)
      → Ends (Same s) (config_matches {R = Result} secrets c b o job s)
  config_keeps secrets true (some stored) job s =
      text_keeps c.config_yaml (secrets.reveal (run_config c.run_id) stored) s
  config_keeps secrets true none job s = refl
  config_keeps secrets false (some stored) job s = refl
  config_keeps secrets false none job s =
      text_keeps c.config_yaml (secrets.reveal (job_config c.job_id) job.config_yaml) s

  converge_keeps :
      (run : JobRun) (job : Job) (s : JobStore)
      → owned_by c.job_id (get c.run_id s.job_runs) ≡ some run
      → is_terminal run.status ≡ true
      → Q s
      → Ends (λ _. Q) (converge_parent c job s)
  converge_keeps run job s e final q =
      if-Ends Result (λ _. Q) (is_running_for c.run_id job) _ _ s
        (λ _.
          continue-Ends (λ _. Q) (λ _. Q) _ _
            (update_job-Ends Result (λ _. Q) s c.job_id (is_running_for c.run_id)
              (to_status c.status (reconciled_at c)) q
              (λ j f m. kept.converged s run q e final j f m))
            (λ matched s' q'. if-Ends Result (λ _. Q) matched _ _ s' (λ _. q') (λ _. tt)))
        (λ _. q)

  found_keeps :
      (secrets : Secrets) (d : Option WebhookDeliveryCreate) (run : Option JobRun)
      (job : Option Job) (s : JobStore)
      → owned_by c.job_id (get c.run_id s.job_runs) ≡ run
      → Q s
      → Ends (λ _. Q) (reconcile_found secrets c d run job s)
  found_keeps secrets d none job s e q = tt
  found_keeps secrets d (some run) none s e q = tt
  found_keeps secrets d (some run) (some job) s e q =
      if-Ends Result (λ _. Q)
        (not (is_candidate c run && is_terminal run.status) || same_status job.status deleting) _ _
        s (λ _. tt)
        (λ m.
          continue-Ends (Same s) (λ _. Q) _ _
            (config_keeps secrets c.has_config_snapshot run.config_yaml job s)
            (λ matches s' same.
              continue-Ends (λ _. Q) (λ _. Q) _ _
                (subst
                  (λ u. Ends (λ _. Q) ((if matches then converge_parent c job else lost_race) u))
                  same
                  (if-Ends Result (λ _. Q) matches (converge_parent c job) lost_race s
                    (λ _. converge_keeps run job s e (terminal_of m) q) (λ _. tt)))
                (λ parent s'' q'.
                  settle_keeps d parent (earliest_intent c s''.webhook_deliveries) s'' q')))
    where
      terminal_of :
          (not (is_candidate c run && is_terminal run.status) || same_status job.status deleting)
            ≡ false
          → is_terminal run.status ≡ true
      terminal_of m = ground arith

  pub reconcile_keeps :
      (secrets : Secrets) (d : Option WebhookDeliveryCreate) (s : JobStore)
      → Q s
      → Q (reconcile_terminal_webhook_candidate secrets c d s).1
  unfolding reconcile_terminal_webhook_candidate
  reconcile_keeps secrets d s q = conclude-keeps Q s _ q (
      found_keeps secrets d (owned_by c.job_id (get c.run_id s.job_runs)) (get c.job_id s.jobs) s
        refl q)

pub prune_keeps :
    (Q : JobStore → Type 0) (job_id run_id : String) (scrubbed : Bool) (expired_before max_runs : ℕ)
    (s : JobStore)
    → Q s
    → Q (drop_run job_id run_id s)
    → Q (prune_scheduled_run_for_retention job_id run_id scrubbed expired_before max_runs s).1
unfolding prune_scheduled_run_for_retention
prune_keeps Q job_id run_id scrubbed expired_before max_runs s q dropped = conclude-keeps Q s _ q (
    choose-Ends Bool (λ _. Q)
      (is_prunable job_id run_id scrubbed expired_before max_runs s (get job_id s.jobs)
        (owned_by job_id (get run_id s.job_runs)))
      (next true (drop_run job_id run_id s)) (rollback false s) (λ _. dropped) (λ _. tt))
