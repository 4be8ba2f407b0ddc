-- ===== src/Jobs/Lifecycle/Finish.antt =====
-- Jobs that are cancelled or being deleted, in src/scrapeyard/storage: the transactions that end runs.
use scrapeyard.Prelude.{
  pair_keys, String, ℕ, leb, ◌≡◌, Bool, true, not, ◌&&◌, Option, none, some, text_keys, inl, inr,
  Bool-cases, false,
}
use scrapeyard.Jobs.{
  WebhookDelivery, JobStatus, queued, running, failed, same_status, is_same, is_terminal, Secrets,
  Job, JobRun, JobStore, owned_by, raised, value_error,
}
use scrapeyard.Jobs.Ownership.{
  WebhookDeliveryCreate, insert_delivery, is_text, is_running, is_running_for, is_valid_delivery,
  RunEnd, finish_run, is_fresh, finalize_tx, finalize_owned_run, RunFailure, fail_run, beats_after,
  fail_job, fail_owned, fail_owned_tx, fail_owned_run, commit_terminal_intent,
}
use scrapeyard.Prelude.Dict.{get}
use scrapeyard.Jobs.Queue.{is_queued_for, to_status}
use scrapeyard.Jobs.Recovery.{
  RecoveryReason, Recovered, has_run, settle_parent, end_stale, recover_run, recover_current,
  recover_job, recover_current_run, recover_stale_run, reserve_queued_run_recovery,
  recovery_matches, fail_queued_run_recovery, failed_missing_run, reconciled_terminal_run,
}
use scrapeyard.Jobs.Rules.{Ends, continue-Ends, conclude-keeps, if-Ends, choose-Ends}
use scrapeyard.Jobs.Running.{and_left}
use scrapeyard.Jobs.Lifecycle.{
  is_closed, queued_is_live, running_is_live, Shut, live_job_closed, run_closed,
  insert_failed_queued_run_closed,
}

module _ (j : String) where
  abbrev Q : JobStore → Type 0
  Q s = Shut j s

  pub commit_closed :
      (R : Type 0) (d : Option WebhookDeliveryCreate) (now : ℕ) (s : JobStore)
      → Q s
      → Ends (λ _. Q) (commit_terminal_intent {R = R} d now s)
  unfolding commit_terminal_intent
  commit_closed R none now s p = p
  commit_closed R (some d) now s p =
      choose-Ends R (λ _. Q) (is_text d.delivery_id (get "delivery_id" d.payload)) _
        (raised value_error) (λ _. insert (get d.delivery_id s.webhook_deliveries)) (λ _. tt)
    where
      insert : (row : Option WebhookDelivery) → Ends (λ _. Q) (insert_delivery {R = R} d now row s)
      insert none = p
      insert (some _) = p

  finalize_tx_closed :
      (job_id run_id : String) (e : RunEnd) (s : JobStore)
      → Q s
      → Ends (λ _. Q) (finalize_tx job_id run_id e s)
  unfolding finalize_tx
  finalize_tx_closed job_id run_id e s p =
      continue-Ends (λ _. Q) (λ _. Q) _ _
        (run_closed j (Unit {0}) job_id run_id (is_fresh e.heartbeat_cutoff) (finish_run e) s p)
        (λ matched s' p'.
          if-Ends (Unit {0}) (λ _. Q) matched _ _ s'
            (λ _.
              continue-Ends (λ _. Q) (λ _. Q) _ _
                (live_job_closed j (Unit {0}) job_id (is_running_for run_id)
                  (to_status e.status e.completed_at) s'
                  (λ job m. running_is_live job.status (and_left _ _ m)) p')
                (λ owned s'' p''.
                  if-Ends (Unit {0}) (λ _. Q) owned _ _ s''
                    (λ _. commit_closed (Unit {0}) e.webhook_delivery e.completed_at s'' p'')
                    (λ _. tt)))
            (λ _. tt))

  pub finalize_owned_run_closed :
      (job_id run_id : String) (e : RunEnd) (s : JobStore)
      → Q s
      → Q (finalize_owned_run job_id run_id e s).1
  unfolding finalize_owned_run
  finalize_owned_run_closed job_id run_id e s p = elim (Bool-cases (is_terminal e.status)) [
    | inl final ↦ elim (Bool-cases (is_valid_delivery job_id run_id e.status e.webhook_delivery)) [
      | inl fine ↦
          rw (final, fine) (conclude-keeps Q s _ p (finalize_tx_closed job_id run_id e s p))
      | inr bad ↦ rw (final, bad) p
    ]
    | inr other ↦ rw other p
  ]

  fail_job_closed :
      (job_id run_id : String) (matches : String → Job → Bool) (f : RunFailure) (s : JobStore)
      → ((job : Job) → matches run_id job ≡ true → is_closed job.status ≡ false)
      → Q s
      → Ends (λ _. Q) (fail_job job_id matches run_id f s)
  fail_job_closed job_id run_id matches f s live p =
      continue-Ends (λ _. Q) (λ _. Q) _ _
        (live_job_closed j (Unit {0}) job_id (matches run_id) (to_status failed f.failed_at) s live
          p)
        (λ matched s' p'.
          if-Ends (Unit {0}) (λ _. Q) matched _ _ s'
            (λ _. commit_closed (Unit {0}) f.webhook_delivery f.failed_at s' p') (λ _. tt))

  fail_owned_closed :
      (secrets : Secrets) (job_id run_id : String) (f : RunFailure) (row : Option Job)
      (s : JobStore)
      → Q s
      → Ends (λ _. Q) (fail_owned secrets job_id run_id f row s)
  fail_owned_closed secrets job_id run_id f none s p = tt
  fail_owned_closed secrets job_id run_id f (some job) s p =
      if-Ends (Unit {0}) (λ _. Q) (not (is_same job.current_run_id (some run_id))) _ _ s (λ _. tt)
        (λ _.
          if-Ends (Unit {0}) (λ _. Q) (same_status job.status queued) _ _ s
            (λ _.
              continue-Ends (λ _. Q) (λ _. Q) (λ _. fail_job job_id is_queued_for run_id f) _
                (insert_failed_queued_run_closed j (Unit {0}) secrets job_id run_id f.failed_at
                  f.error_count "preclaim_execution_failure" s p)
                (λ _ s' p'.
                  fail_job_closed job_id run_id is_queued_for f s'
                    (λ job. queued_is_live job run_id) p'))
            (λ _.
              if-Ends (Unit {0}) (λ _. Q) (not (same_status job.status running)) _ _ s (λ _. tt)
                (λ _.
                  continue-Ends (λ _. Q) (λ _. Q) _ _
                    (run_closed j (Unit {0}) job_id run_id (beats_after f.heartbeat_cutoff)
                      (fail_run f) s p)
                    (λ matched s' p'.
                      if-Ends (Unit {0}) (λ _. Q) matched _ _ s'
                        (λ _.
                          fail_job_closed job_id run_id is_running_for f s'
                            (λ job m. running_is_live job.status (and_left _ _ m)) p')
                        (λ _. tt)))))

  pub fail_owned_run_closed :
      (secrets : Secrets) (job_id run_id : String) (f : RunFailure) (s : JobStore)
      → Q s
      → Q (fail_owned_run secrets job_id run_id f s).1
  unfolding fail_owned_run fail_owned_tx
  fail_owned_run_closed secrets job_id run_id f s p =
      elim (Bool-cases (is_valid_delivery job_id run_id failed f.webhook_delivery)) [
        | inl fine ↦ rw fine (
            conclude-keeps Q s _ p
              (fail_owned_closed secrets job_id run_id f (get job_id s.jobs) s p))
        | inr bad ↦ rw bad p
      ]

  pub reserve_queued_run_recovery_closed :
      (job_id run_id : String) (expected stale now : ℕ) (s : JobStore)
      → Q s
      → Q (reserve_queued_run_recovery job_id run_id expected stale now s).1
  unfolding reserve_queued_run_recovery
  reserve_queued_run_recovery_closed job_id run_id expected stale now s p = conclude-keeps Q s _ p (
      continue-Ends (λ _. Q) (λ _. Q) _ _
        (live_job_closed j Bool job_id (recovery_matches run_id expected stale) _ s
          (λ job m. queued_is_live job run_id (and_left _ _ (and_left _ _ m))) p)
        (λ matched s' p'. if-Ends Bool (λ _. Q) matched _ _ s' (λ _. p') (λ _. tt)))

  pub fail_queued_run_recovery_closed :
      (secrets : Secrets) (job_id run_id : String) (expected now : ℕ) (s : JobStore)
      → Q s
      → Q (fail_queued_run_recovery secrets job_id run_id expected now s).1
  unfolding fail_queued_run_recovery
  fail_queued_run_recovery_closed secrets job_id run_id expected now s p = conclude-keeps Q s _ p (
      continue-Ends (λ _. Q) (λ _. Q) _ _
        (live_job_closed j Bool job_id _ (to_status failed now) s
          (λ job m. queued_is_live job run_id (and_left _ _ m)) p)
        (λ matched s' p'.
          if-Ends Bool (λ _. Q) matched _ _ s'
            (λ _.
              continue-Ends (λ _. Q) (λ _. Q) _ _
                (insert_failed_queued_run_closed j Bool secrets job_id run_id now 1
                  "queued_reconciliation_failure" s' p')
                (λ _ s'' q. q))
            (λ _. tt)))

  settle_closed :
      (job_id : String) (current : Option String) (status : JobStatus) (now : ℕ)
      (reason : RecoveryReason) (s : JobStore)
      → Q s
      → Ends (λ _. Q) (settle_parent job_id current status now reason s)
  settle_closed job_id current status now reason s p =
      continue-Ends (λ _. Q) (λ _. Q) _ _
        (live_job_closed j Recovered job_id (has_run running current) (to_status status now) s
          (λ job m. running_is_live job.status (and_left _ _ m)) p)
        (λ matched s' p'. if-Ends Recovered (λ _. Q) matched _ _ s' (λ _. p') (λ _. p'))

  recover_run_closed :
      (job_id run_id : String) (cutoff now : ℕ) (row : Option JobRun) (s : JobStore)
      → Q s
      → Ends (λ _. Q) (recover_run job_id run_id cutoff now row s)
  recover_run_closed job_id run_id cutoff now none s p =
      settle_closed job_id (some run_id) failed now failed_missing_run s p
  recover_run_closed job_id run_id cutoff now (some run) s p =
      if-Ends Recovered (λ _. Q) (is_terminal run.status) _ _ s
        (λ _. settle_closed job_id (some run_id) run.status now reconciled_terminal_run s p)
        (λ _.
          if-Ends Recovered (λ _. Q) (not (is_running run && leb run.heartbeat_at cutoff)) _ _ s
            (λ _. p)
            (λ _.
              continue-Ends (λ _. Q) (λ _. Q) _ _
                (run_closed j Recovered job_id run_id is_running (end_stale now) s p)
                (λ matched s' p'.
                  if-Ends Recovered (λ _. Q) matched _ _ s'
                    (λ _.
                      continue-Ends (λ _. Q) (λ _. Q) _ _
                        (live_job_closed j Recovered job_id (is_running_for run_id)
                          (to_status failed now) s'
                          (λ job m. running_is_live job.status (and_left _ _ m)) p')
                        (λ owned s'' q.
                          if-Ends Recovered (λ _. Q) owned _ _ s'' (λ _. q) (λ _. tt)))
                    (λ _. p'))))

  recover_current_closed :
      (job_id : String) (cutoff now : ℕ) (current : Option String) (s : JobStore)
      → Q s
      → Ends (λ _. Q) (recover_current job_id cutoff now current s)
  recover_current_closed job_id cutoff now none s p =
      settle_closed job_id none failed now failed_missing_run s p
  recover_current_closed job_id cutoff now (some run_id) s p =
      recover_run_closed job_id run_id cutoff now (owned_by job_id (get run_id s.job_runs)) s p

  recover_job_closed :
      (job_id : String) (expected : Option String) (cutoff now : ℕ) (row : Option Job)
      (s : JobStore)
      → Q s
      → Ends (λ _. Q) (recover_job job_id expected cutoff now row s)
  recover_job_closed job_id expected cutoff now none s p = p
  recover_job_closed job_id expected cutoff now (some job) s p =
      if-Ends Recovered (λ _. Q) (has_run running expected job) _ _ s
        (λ _. recover_current_closed job_id cutoff now job.current_run_id s p) (λ _. p)

  pub recover_stale_run_closed :
      (job_id : String) (expected : Option String) (cutoff now : ℕ) (s : JobStore)
      → Q s
      → Q (recover_stale_run job_id expected cutoff now s).1
  unfolding recover_stale_run recover_current_run
  recover_stale_run_closed job_id expected cutoff now s p =
      conclude-keeps Q s _ p (recover_job_closed job_id expected cutoff now (get job_id s.jobs) s p)
