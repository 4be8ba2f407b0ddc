-- ===== src/Jobs/Exclusive/Removal.antt =====
-- Who owns a running run in src/scrapeyard/storage: failure and recovery.
use scrapeyard.Prelude.{
  String, ℕ, leb, ◌≡◌, refl, ◌∙◌, sym, ap, subst, Bool, true, not, ◌&&◌, Option, none, some,
  text_keys, pair_keys, inl, inr, Bool-cases, eq_of_some, if◌then◌else◌,
}
use scrapeyard.Prelude.Dict.{get}
use scrapeyard.Jobs.{
  JobStatus, queued, running, failed, same_status, is_same, is_terminal, Secrets, Job, JobRun,
  JobStore, run_ownership_error, raise, owned_by,
}
use scrapeyard.Jobs.Queue.{is_queued_for, to_status}
use scrapeyard.Jobs.Ownership.{
  is_running, is_running_for, is_valid_delivery, commit_terminal_intent, RunFailure, fail_run,
  beats_after, fail_owned, fail_owned_tx, fail_owned_run,
}
use scrapeyard.Jobs.Recovery.{
  RecoveryReason, Recovered, has_run, settle_parent, end_stale, recover_run, recover_current,
  recover_job, recover_current_run, recover_stale_run, reserve_queued_run_recovery,
  recovery_matches, fail_queued_run_recovery, failed_missing_run, reconciled_terminal_run,
}
use scrapeyard.Jobs.Rules.{Ends, continue-Ends, conclude-keeps, if-Ends, update_job-Ends}
use scrapeyard.Jobs.Running.{
  IsOwned, Ended, terminal_is_not_running, and_left, and_right, quiet_job-IsOwned, quiet_of_none,
}
use scrapeyard.Jobs.Exclusive.{
  insert_failed_queued_run-IsOwned, update_quiet_job-IsOwned, is_queued_for-quiet,
}
use scrapeyard.Jobs.Exclusive.End.{
  owned_by-get, commit-IsOwned, update_run-Ended, update_its_job-IsOwned,
}

after_job :
    (f : RunFailure) (matched : Bool) (s : JobStore)
    → IsOwned s
    → Ends {R = Unit {0}}
        (λ _. IsOwned)
        ((if matched
            then commit_terminal_intent f.webhook_delivery f.failed_at
            else raise run_ownership_error)
          s)
after_job f matched s o =
    if-Ends (Unit {0}) (λ _. IsOwned) matched _ _ s
      (λ _. commit-IsOwned (Unit {0}) f.webhook_delivery f.failed_at s o) (λ _. tt)

fail_owned-IsOwned :
    (secrets : Secrets) (job_id run_id : String) (f : RunFailure) (row : Option Job) (s : JobStore)
    → IsOwned s
    → Ends (λ _. IsOwned) (fail_owned secrets job_id run_id f row s)
fail_owned-IsOwned secrets job_id run_id f none s o = tt
fail_owned-IsOwned secrets job_id run_id f (some job) s o =
    if-Ends (Unit {0}) (λ _. IsOwned) (not (is_same job.current_run_id (some run_id))) _ _ s
      (λ _. tt)
      (λ _.
        if-Ends (Unit {0}) (λ _. IsOwned) (same_status job.status queued) _ _ s
          (λ _.
            continue-Ends (λ _. IsOwned) (λ _. IsOwned) _ _
              (insert_failed_queued_run-IsOwned (Unit {0}) secrets job_id run_id f.failed_at
                f.error_count "preclaim_execution_failure" s o)
              (λ _ s' o'.
                continue-Ends (λ _. IsOwned) (λ _. IsOwned) _ _
                  (update_quiet_job-IsOwned (Unit {0}) job_id (is_queued_for run_id)
                    (to_status failed f.failed_at) s' (is_queued_for-quiet run_id) o')
                  (after_job f)))
          (λ _.
            if-Ends (Unit {0}) (λ _. IsOwned) (not (same_status job.status running)) _ _ s (λ _. tt)
              (λ _.
                continue-Ends (λ matched s'. IsOwned s' × (matched ≡ true → Ended job_id run_id s'))
                  (λ _. IsOwned) _ _
                  (update_run-Ended (Unit {0}) job_id run_id (beats_after f.heartbeat_cutoff)
                    (fail_run f) s (λ run. refl) o)
                  (λ matched s' (o', ended).
                    if-Ends (Unit {0}) (λ _. IsOwned) matched _ _ s'
                      (λ m.
                        continue-Ends (λ _. IsOwned) (λ _. IsOwned) _ _
                          (update_its_job-IsOwned (Unit {0}) job_id run_id (is_running_for run_id)
                            (to_status failed f.failed_at) s' (λ job. and_right _ _) o' (ended m))
                          (after_job f))
                      (λ _. tt)))))

pub fail_owned_run-IsOwned :
    (secrets : Secrets) (job_id run_id : String) (f : RunFailure) (s : JobStore)
    → IsOwned s
    → IsOwned (fail_owned_run secrets job_id run_id f s).1
unfolding fail_owned_run fail_owned_tx
fail_owned_run-IsOwned secrets job_id run_id f s o =
    elim (Bool-cases (is_valid_delivery job_id run_id failed f.webhook_delivery)) [
      | inl fine ↦ rw fine (
          conclude-keeps IsOwned s _ o
            (fail_owned-IsOwned secrets job_id run_id f (get job_id s.jobs) s o))
      | inr bad ↦ rw bad o
    ]

pub reserve_queued_run_recovery-IsOwned :
    (job_id run_id : String) (expected stale now : ℕ) (s : JobStore)
    → IsOwned s
    → IsOwned (reserve_queued_run_recovery job_id run_id expected stale now s).1
unfolding reserve_queued_run_recovery
reserve_queued_run_recovery-IsOwned job_id run_id expected stale now s o =
    conclude-keeps IsOwned s _ o (
      continue-Ends (λ _. IsOwned) (λ _. IsOwned) _ _
        (update_quiet_job-IsOwned Bool job_id (recovery_matches run_id expected stale) _ s
          (λ job m. is_queued_for-quiet run_id job (and_left _ _ (and_left _ _ m))) o)
        (λ matched s' o'. if-Ends Bool (λ _. IsOwned) matched _ _ s' (λ _. o') (λ _. tt)))

pub fail_queued_run_recovery-IsOwned :
    (secrets : Secrets) (job_id run_id : String) (expected now : ℕ) (s : JobStore)
    → IsOwned s
    → IsOwned (fail_queued_run_recovery secrets job_id run_id expected now s).1
unfolding fail_queued_run_recovery
fail_queued_run_recovery-IsOwned secrets job_id run_id expected now s o =
    conclude-keeps IsOwned s _ o (
      continue-Ends (λ _. IsOwned) (λ _. IsOwned) _ _
        (update_quiet_job-IsOwned Bool job_id _ (to_status failed now) s
          (λ job m. is_queued_for-quiet run_id job (and_left _ _ m)) o)
        (λ matched s' o'.
          if-Ends Bool (λ _. IsOwned) matched _ _ s'
            (λ _.
              continue-Ends (λ _. IsOwned) (λ _. IsOwned) _ _
                (insert_failed_queued_run-IsOwned Bool secrets job_id run_id now 1
                  "queued_reconciliation_failure" s' o')
                (λ _ s'' o''. o''))
            (λ _. tt)))

-- `recover_stale_run`.

missing-Ended :
    (job_id run_id : String) (s : JobStore)
    → owned_by job_id (get run_id s.job_runs) ≡ none
    → Ended job_id run_id s
missing-Ended job_id run_id s h run e mine = absurd (
    let f : owned_by job_id (some run) ≡ none = ap (owned_by job_id) (sym e) ∙ h in
    let g : (if true then some run else none) ≡ none =
      subst (λ b. (if b then some run else none) ≡ none)
        ((text_keys.decides run.job_id job_id).1 mine) f in
    cc)

settle_parent-IsOwned :
    (job_id run_id : String) (status : JobStatus) (now : ℕ) (reason : RecoveryReason) (s : JobStore)
    → IsOwned s
    → Ended job_id run_id s
    → Ends (λ _. IsOwned) (settle_parent job_id (some run_id) status now reason s)
settle_parent-IsOwned job_id run_id status now reason s o ended =
    continue-Ends (λ _. IsOwned) (λ _. IsOwned) _ _
      (update_its_job-IsOwned Recovered job_id run_id (has_run running (some run_id))
        (to_status status now) s (λ job. and_right _ _) o ended)
      (λ matched s' o'. if-Ends Recovered (λ _. IsOwned) matched _ _ s' (λ _. o') (λ _. o'))

recover_run-IsOwned :
    (job_id run_id : String) (cutoff now : ℕ) (row : Option JobRun) (s : JobStore)
    → owned_by job_id (get run_id s.job_runs) ≡ row
    → IsOwned s
    → Ends (λ _. IsOwned) (recover_run job_id run_id cutoff now row s)
recover_run-IsOwned job_id run_id cutoff now none s e o =
    settle_parent-IsOwned job_id run_id failed now failed_missing_run s o
      (missing-Ended job_id run_id s e)
recover_run-IsOwned job_id run_id cutoff now (some run) s e o =
    if-Ends Recovered (λ _. IsOwned) (is_terminal run.status) _ _ s
      (λ final.
        settle_parent-IsOwned job_id run_id run.status now reconciled_terminal_run s o (λ x f _.
          ap is_running (eq_of_some (sym f ∙ (owned_by-get job_id (get run_id s.job_runs) run e).0))
          ∙ terminal_is_not_running run.status final))
      (λ _.
        if-Ends Recovered (λ _. IsOwned) (not (is_running run && leb run.heartbeat_at cutoff)) _ _ s
          (λ _. o)
          (λ _.
            continue-Ends (λ matched s'. IsOwned s' × (matched ≡ true → Ended job_id run_id s'))
              (λ _. IsOwned) _ _
              (update_run-Ended Recovered job_id run_id is_running (end_stale now) s (λ _. refl) o)
              (λ matched s' (o', ended).
                if-Ends Recovered (λ _. IsOwned) matched _ _ s'
                  (λ m.
                    continue-Ends (λ _. IsOwned) (λ _. IsOwned) _ _
                      (update_its_job-IsOwned Recovered job_id run_id (is_running_for run_id)
                        (to_status failed now) s' (λ job. and_right _ _) o' (ended m))
                      (λ owned s'' o''.
                        if-Ends Recovered (λ _. IsOwned) owned _ _ s'' (λ _. o'') (λ _. tt)))
                  (λ _. o'))))

unowned-IsOwned :
    (job_id : String) (now : ℕ) (s : JobStore)
    → IsOwned s
    → Ends (λ _. IsOwned) (settle_parent job_id none failed now failed_missing_run s)
unowned-IsOwned job_id now s o =
    continue-Ends (λ _. IsOwned) (λ _. IsOwned) _ _
      (update_job-Ends Recovered (λ _. IsOwned) s job_id (has_run running none)
        (to_status failed now) o
        (λ job e m.
          quiet_job-IsOwned s job_id (to_status failed now job) o
            (quiet_of_none s job_id job o e (and_right _ _ m))))
      (λ matched s' o'. if-Ends Recovered (λ _. IsOwned) matched _ _ s' (λ _. o') (λ _. o'))

recover_current-IsOwned :
    (job_id : String) (cutoff now : ℕ) (current : Option String) (s : JobStore)
    → IsOwned s
    → Ends (λ _. IsOwned) (recover_current job_id cutoff now current s)
recover_current-IsOwned job_id cutoff now none s o = unowned-IsOwned job_id now s o
recover_current-IsOwned job_id cutoff now (some run_id) s o =
    recover_run-IsOwned job_id run_id cutoff now (owned_by job_id (get run_id s.job_runs)) s refl o

recover_job-IsOwned :
    (job_id : String) (expected : Option String) (cutoff now : ℕ) (row : Option Job) (s : JobStore)
    → IsOwned s
    → Ends (λ _. IsOwned) (recover_job job_id expected cutoff now row s)
recover_job-IsOwned job_id expected cutoff now none s o = o
recover_job-IsOwned job_id expected cutoff now (some job) s o =
    if-Ends Recovered (λ _. IsOwned) (has_run running expected job) _ _ s
      (λ _. recover_current-IsOwned job_id cutoff now job.current_run_id s o) (λ _. o)

pub recover_stale_run-IsOwned :
    (job_id : String) (expected : Option String) (cutoff now : ℕ) (s : JobStore)
    → IsOwned s
    → IsOwned (recover_stale_run job_id expected cutoff now s).1
unfolding recover_stale_run recover_current_run
recover_stale_run-IsOwned job_id expected cutoff now s o =
    conclude-keeps IsOwned s _ o
      (recover_job-IsOwned job_id expected cutoff now (get job_id s.jobs) s o)
