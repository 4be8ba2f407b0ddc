-- ===== src/Jobs/Lifecycle/All.antt =====
-- Jobs that are cancelled or being deleted, in src/scrapeyard/storage: cancellation, deletion, and all
-- transactions in any order.
use scrapeyard.Prelude.{
  refl, sym, ◌∙◌, subst, List, [], ◌∷◌, pair_keys, String, ℕ, ◌≡◌, Bool, true, false, not, Option,
  none, some, text_keys, inl, inr, Bool-cases, eq_of_some, ◌==◌, ◌||◌, if◌then◌else◌,
}
use scrapeyard.Prelude.Dict.{get, remove, get-remove}
use scrapeyard.Jobs.{queued, running, same_status, Secrets, Job, JobStore, cancelled, deleting}
use scrapeyard.Jobs.Ownership.{is_running}
use scrapeyard.Jobs.Recovery.{has_run, is_fresh_submission, rollback_queued_submission}
use scrapeyard.Jobs.Rules.{Ends, continue-Ends, conclude-keeps, if-Ends, choose-Ends}
use scrapeyard.Jobs.Deletion.{
  CancellationOutcome, cancel_its_run, cancel_active, cancel_found, cancel_tx, cancel_job,
  end_cancelled, is_expected, DeletionReservationOutcome, reserve_new, reserve_change,
  reserve_found, reserve_tx, reserve_job_deletion, has_pending, same_policy, finalize_found,
  finalize_job_deletion, is_preserved,
}
use scrapeyard.Jobs.Steps.{
  Transaction, queue_step, claim_step, heartbeat_step, finalize_step, fail_owned_step,
  fail_queued_step, reserve_recovery_step, fail_recovery_step, recover_step, rollback_step,
  cancel_step, reserve_deletion_step, finalize_deletion_step, reconcile_step, prune_step, commit,
  commit_all,
}
use scrapeyard.Jobs.Running.{and_left}
use scrapeyard.Jobs.Lifecycle.{
  is_closed, Shut, put_closed, running_is_live, job_closed, run_closed, fail_queued_run_closed,
  queue_run_closed, claim_run_closed, heartbeat_run_closed,
}
use scrapeyard.Jobs.Queue.{to_status}
use scrapeyard.Jobs.Reconcile.{
  TerminalWebhookCandidate, TerminalIntentReconcileResult, reconciled_at,
}
use scrapeyard.Jobs.Reconcile.Keeps.{KeepsAll, reconcile_keeps, prune_keeps}
use scrapeyard.Jobs.Lifecycle.Finish.{
  commit_closed, finalize_owned_run_closed, fail_owned_run_closed,
  reserve_queued_run_recovery_closed, fail_queued_run_recovery_closed, recover_stale_run_closed,
}

module _ (j : String) where
  abbrev Q : JobStore → Type 0
  Q s = Shut j s

  cancel_active_closed :
      (job_id : String) (now : ℕ) (job : Job) (s : JobStore)
      → Q s
      → Ends (λ _. Q) (cancel_active job_id now job s)
  cancel_active_closed job_id now job s p =
      continue-Ends (λ _. Q) (λ _. Q) _ _
        (job_closed j CancellationOutcome job_id (has_run job.status job.current_run_id) _ s
          (λ _ _ _. refl) p)
        (λ matched s' p'. if-Ends CancellationOutcome (λ _. Q) matched _ _ s' (λ _. p') (λ _. tt))

  cancel_its_run_closed :
      (job_id : String) (now : ℕ) (current : Option String) (s : JobStore)
      → Q s
      → Ends (λ _. Q) (cancel_its_run job_id now current s)
  cancel_its_run_closed job_id now none s p = tt
  cancel_its_run_closed job_id now (some run_id) s p =
      continue-Ends (λ _. Q) (λ _. Q) _ _
        (run_closed j CancellationOutcome job_id run_id is_running (end_cancelled now) s p)
        (λ matched s' p'. if-Ends CancellationOutcome (λ _. Q) matched _ _ s' (λ _. p') (λ _. tt))

  cancel_found_closed :
      (job_id : String) (now : ℕ) (expected : Option String) (row : Option Job) (s : JobStore)
      → Q s
      → Ends (λ _. Q) (cancel_found job_id now expected row s)
  cancel_found_closed job_id now expected none s p = tt
  cancel_found_closed job_id now expected (some job) s p =
      if-Ends _ (λ _. Q) (not (is_expected expected job.current_run_id)) _ _ s (λ _. tt)
        (λ _.
          if-Ends _ (λ _. Q) (same_status job.status cancelled) _ _ s (λ _. tt)
            (λ _.
              if-Ends _ (λ _. Q)
                (not (same_status job.status queued || same_status job.status running)) _ _ s
                (λ _. tt)
                (λ _.
                  if-Ends _ (λ _. Q) (same_status job.status running) _ _ s
                    (λ _.
                      continue-Ends (λ _. Q) (λ _. Q) (λ _. cancel_active job_id now job) _
                        (cancel_its_run_closed job_id now job.current_run_id s p)
                        (λ _. cancel_active_closed job_id now job))
                    (λ _. cancel_active_closed job_id now job s p))))

  cancel_job_closed :
      (job_id : String) (now : ℕ) (expected : Option String) (s : JobStore)
      → Q s
      → Q (cancel_job job_id now expected s).1
  unfolding cancel_job cancel_tx
  cancel_job_closed job_id now expected s p =
      conclude-keeps Q s _ p (cancel_found_closed job_id now expected (get job_id s.jobs) s p)

  reserve_new_closed :
      (job_id : String) (delete_results : Bool) (now : ℕ) (job : Job) (s : JobStore)
      → Q s
      → Ends (λ _. Q) (reserve_new job_id delete_results now job s)
  reserve_new_closed job_id delete_results now job s p =
      continue-Ends (λ _. Q) (λ _. Q) _ _
        (job_closed j DeletionReservationOutcome job_id (has_run job.status job.current_run_id)
          (reserve_change delete_results now) s (λ _ _ _. refl) p)
        (λ matched s' p'.
          if-Ends DeletionReservationOutcome (λ _. Q) matched _ _ s' (λ _. p') (λ _. tt))

  reserve_found_closed :
      (job_id : String) (delete_results : Bool) (now : ℕ) (row : Option Job) (s : JobStore)
      → Q s
      → Ends (λ _. Q) (reserve_found job_id delete_results now row s)
  reserve_found_closed job_id delete_results now none s p = tt
  reserve_found_closed job_id delete_results now (some job) s p =
      if-Ends _ (λ _. Q) (same_status job.status queued || same_status job.status running) _ _ s
        (λ _. tt)
        (λ _.
          if-Ends _ (λ _. Q) (same_status job.status deleting) _ _ s
            (λ _.
              if-Ends _ (λ _. Q) (not (same_policy delete_results job.delete_results_on_delete)) _ _
                s (λ _. tt)
                (λ _.
                  choose-Ends _ (λ _. Q) (has_pending job_id s.webhook_deliveries) _ _ (λ _. tt)
                    (λ _. p)))
            (λ _.
              choose-Ends _ (λ _. Q) (has_pending job_id s.webhook_deliveries) _ _ (λ _. tt)
                (λ _. reserve_new_closed job_id delete_results now job s p)))

  reserve_job_deletion_closed :
      (job_id : String) (delete_results : Bool) (now : ℕ) (s : JobStore)
      → Q s
      → Q (reserve_job_deletion job_id delete_results now s).1
  unfolding reserve_job_deletion reserve_tx
  reserve_job_deletion_closed job_id delete_results now s p =
      conclude-keeps Q s _ p
        (reserve_found_closed job_id delete_results now (get job_id s.jobs) s p)

  remove_closed :
      (s : JobStore) (job_id : String) (x : Job)
      → Q s
      → get j (remove job_id s.jobs) ≡ some x
      → is_closed x.status ≡ true
  remove_closed s job_id x p e = elim (Bool-cases (job_id == j)) [
    | inl same ↦ absurd (
        let g : none ≡ some x =
          subst (λ b. (if b then none else get j s.jobs) ≡ some x) same
            (sym (get-remove job_id j s.jobs) ∙ e) in
        cc)
    | inr differs ↦ p x (
        subst (λ b. (if b then none else get j s.jobs) ≡ some x) differs
          (sym (get-remove job_id j s.jobs) ∙ e))
  ]

  rollback_queued_submission_closed :
      (job_id run_id : String) (s : JobStore)
      → Q s
      → Q (rollback_queued_submission job_id run_id s).1
  unfolding rollback_queued_submission
  rollback_queued_submission_closed job_id run_id s p = conclude-keeps Q s _ p (
      choose-Ends Bool (λ _. Q) (is_fresh_submission job_id run_id s (get job_id s.jobs)) _ _
        (λ _ x e. remove_closed s job_id x p e) (λ _. tt))

  finalize_found_closed :
      (job_id : String) (delete_results : Bool) (after : Option ℕ) (row : Option Job) (s : JobStore)
      → Q s
      → Ends (λ _. Q) (finalize_found job_id delete_results after row s)
  finalize_found_closed job_id delete_results after none s p = tt
  finalize_found_closed job_id delete_results after (some job) s p =
      choose-Ends _ (λ _. Q) (not (same_status job.status deleting)) _ _ (λ _. tt)
        (λ _.
          choose-Ends _ (λ _. Q) (not (same_policy delete_results job.delete_results_on_delete)) _ _
            (λ _. tt)
            (λ _.
              choose-Ends _ (λ _. Q) (has_pending job_id s.webhook_deliveries) _ _ (λ _. tt)
                (λ _.
                  choose-Ends _ (λ _. Q) (is_preserved job_id after s) _ _ (λ _. tt)
                    (λ _ x e. remove_closed s job_id x p e))))

  finalize_job_deletion_closed :
      (job_id : String) (delete_results : Bool) (after : Option ℕ) (s : JobStore)
      → Q s
      → Q (finalize_job_deletion job_id delete_results after s).1
  unfolding finalize_job_deletion
  finalize_job_deletion_closed job_id delete_results after s p =
      conclude-keeps Q s _ p
        (finalize_found_closed job_id delete_results after (get job_id s.jobs) s p)

Shut-KeepsAll : (j : String) (c : TerminalWebhookCandidate) → KeepsAll (Shut j) c
Shut-KeepsAll j c = record {
  converged = λ s run p e final job f m x g.
      put_closed j s c.job_id job (to_status c.status (reconciled_at c) job) x f
        (λ closed. absurd (
          let live = running_is_live job.status (and_left _ _ m) in
          let h : true ≡ false = sym closed ∙ live in cc))
        p g;
  marked = λ s run p e. p;
  inserted = λ d now s p. commit_closed j TerminalIntentReconcileResult d now s p;
}

commit_step_closed :
    (j : String) (secrets : Secrets) (t : Transaction) (s : JobStore)
    → Shut j s
    → Shut j (commit secrets t s)
unfolding commit
commit_step_closed j secrets (queue_step a job_id q) s p = queue_run_closed j secrets a job_id q s p
commit_step_closed j secrets (claim_step run_id job_id trigger hash now) s p =
    claim_run_closed j secrets run_id job_id trigger hash now s p
commit_step_closed j secrets (heartbeat_step job_id run_id now) s p =
    heartbeat_run_closed j job_id run_id now s p
commit_step_closed j secrets (finalize_step job_id run_id e) s p =
    finalize_owned_run_closed j job_id run_id e s p
commit_step_closed j secrets (fail_owned_step job_id run_id f) s p =
    fail_owned_run_closed j secrets job_id run_id f s p
commit_step_closed j secrets (fail_queued_step job_id run_id now) s p =
    fail_queued_run_closed j secrets job_id run_id now s p
commit_step_closed j secrets (reserve_recovery_step job_id run_id expected stale now) s p =
    reserve_queued_run_recovery_closed j job_id run_id expected stale now s p
commit_step_closed j secrets (fail_recovery_step job_id run_id expected now) s p =
    fail_queued_run_recovery_closed j secrets job_id run_id expected now s p
commit_step_closed j secrets (recover_step job_id expected cutoff now) s p =
    recover_stale_run_closed j job_id expected cutoff now s p
commit_step_closed j secrets (rollback_step job_id run_id) s p =
    rollback_queued_submission_closed j job_id run_id s p
commit_step_closed j secrets (cancel_step job_id now expected) s p =
    cancel_job_closed j job_id now expected s p
commit_step_closed j secrets (reserve_deletion_step job_id delete_results now) s p =
    reserve_job_deletion_closed j job_id delete_results now s p
commit_step_closed j secrets (finalize_deletion_step job_id delete_results after) s p =
    finalize_job_deletion_closed j job_id delete_results after s p
commit_step_closed j secrets (reconcile_step c d) s p =
    reconcile_keeps (Shut j) c (Shut-KeepsAll j c) secrets d s p
commit_step_closed j secrets (prune_step job_id run_id scrubbed expired_before max_runs) s p =
    prune_keeps (Shut j) job_id run_id scrubbed expired_before max_runs s p p

commit_all_closed :
    (j : String) (secrets : Secrets) (ts : List Transaction) (s : JobStore)
    → Shut j s
    → Shut j (commit_all secrets ts s)
unfolding commit_all
commit_all_closed j secrets [] s p = p
commit_all_closed j secrets (t ∷ ts) s p =
    commit_all_closed j secrets ts (commit secrets t s) (commit_step_closed j secrets t s p)

-- A job that is cancelled or being deleted never becomes anything else: after any sequence of
-- transactions its row, if it is still there, is cancelled or being deleted.
pub closed_stays_closed :
    (secrets : Secrets) (ts : List Transaction) (s : JobStore) (job_id : String) (job now : Job)
    → get job_id s.jobs ≡ some job
    → is_closed job.status ≡ true
    → get job_id (commit_all secrets ts s).jobs ≡ some now
    → is_closed now.status ≡ true
closed_stays_closed secrets ts s job_id job now e c f =
    commit_all_closed job_id secrets ts s
      (λ x g. subst (λ y. is_closed y.status ≡ true) (eq_of_some (sym e ∙ g)) c) now f
