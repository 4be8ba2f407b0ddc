-- ===== src/Jobs/Exclusive/Cancel.antt =====
-- Who owns a running run in src/scrapeyard/storage/job_deletion.py, and at the rollback of a submission
-- in job_store.py.
use scrapeyard.Prelude.{
  String, ℕ, ◌≡◌, refl, ◌∙◌, sym, ap, subst, Bool, true, false, not, ◌||◌, Option, none, some, ◌==◌,
  text_keys, pair_keys, inl, inr, arith, Bool-cases, eq_of_some, if◌then◌else◌,
}
use scrapeyard.Prelude.Dict.{get, remove, only_if, get-keep, keep-IsUnique, get-remove}
use scrapeyard.Jobs.{
  queued, running, cancelled, deleting, same_status, is_same, Job, JobRun, JobStore, runtime_error,
  next, Tx, return, raise, rollback, ◌>>◌,
}
use scrapeyard.Jobs.Ownership.{is_running, holds_job}
use scrapeyard.Jobs.Recovery.{has_run, is_fresh_submission, drop_job, rollback_queued_submission}
use scrapeyard.Jobs.Deletion.{
  CancellationOutcome, cancel_outcome, end_cancelled, cancel_its_run, cancel_active, was_cancelled,
  is_expected, cancel_found, cancel_tx, cancel_job, DeletionReservationOutcome, unless_pending,
  answer_reservation, reserve_change, reserve_new, reserve_found, reserve_tx, reserve_job_deletion,
  has_pending, same_policy, finalize_found, finalize_job_deletion, erase_job, is_preserved, resumed,
}
use scrapeyard.Jobs.Rules.{Ends, continue-Ends, conclude-keeps, if-Ends, choose-Ends}
use scrapeyard.Jobs.Running.{
  IsOwned, Ended, same_status-running, and_left, and_right, remove_job-IsOwned, quiet_of_status,
}
use scrapeyard.Jobs.Exclusive.{update_quiet_job-IsOwned, is_queued_for-quiet}
use scrapeyard.Jobs.Exclusive.End.{update_run-Ended, update_its_job-IsOwned}

cancel_answer :
    (job : Job) (matched : Bool) (s : JobStore)
    → IsOwned s
    → Ends {R = CancellationOutcome}
        (λ _. IsOwned)
        ((if matched
            then return (cancel_outcome was_cancelled job cancelled)
            else raise runtime_error)
          s)
cancel_answer job matched s o =
    if-Ends CancellationOutcome (λ _. IsOwned) matched _ _ s (λ _. o) (λ _. tt)

cancel_running-IsOwned :
    (job_id : String) (now : ℕ) (job : Job) (current : Option String) (s : JobStore)
    → ((run_id : String)
        → current ≡ some run_id
        → (j : Job) → has_run job.status job.current_run_id j ≡ true
        → is_same j.current_run_id (some run_id) ≡ true)
    → IsOwned s
    → Ends (λ _. IsOwned) ((cancel_its_run job_id now current >> cancel_active job_id now job) s)
cancel_running-IsOwned job_id now job none s h o = tt
cancel_running-IsOwned job_id now job (some run_id) s h o =
    continue-Ends (λ _ s'. IsOwned s' × Ended job_id run_id s') (λ _. IsOwned) _ _
      (continue-Ends (λ matched s'. IsOwned s' × (matched ≡ true → Ended job_id run_id s'))
        (λ _ s'. IsOwned s' × Ended job_id run_id s') _ _
        (update_run-Ended CancellationOutcome job_id run_id is_running (end_cancelled now) s
          (λ _. refl) o)
        (λ matched s' (o', ended).
          if-Ends CancellationOutcome (λ _ s'. IsOwned s' × Ended job_id run_id s') matched _ _ s'
            (λ m. (o', ended m)) (λ _. tt)))
      (λ _ s' (o', ended).
        continue-Ends (λ _. IsOwned) (λ _. IsOwned) _ _
          (update_its_job-IsOwned CancellationOutcome job_id run_id
            (has_run job.status job.current_run_id) _ s' (h run_id refl) o' ended)
          (cancel_answer job))

cancel_quiet-IsOwned :
    (job_id : String) (now : ℕ) (job : Job) (s : JobStore)
    → same_status job.status running ≡ false
    → IsOwned s
    → Ends (λ _. IsOwned) (cancel_active job_id now job s)
cancel_quiet-IsOwned job_id now job s h o =
    continue-Ends (λ _. IsOwned) (λ _. IsOwned) _ _
      (update_quiet_job-IsOwned CancellationOutcome job_id (has_run job.status job.current_run_id) _
        s (λ j m. same_status-running j.status job.status (and_left _ _ m) h) o)
      (cancel_answer job)

cancel_found-IsOwned :
    (job_id : String) (now : ℕ) (expected : Option String) (row : Option Job) (s : JobStore)
    → IsOwned s
    → Ends (λ _. IsOwned) (cancel_found job_id now expected row s)
cancel_found-IsOwned job_id now expected none s o = tt
cancel_found-IsOwned job_id now expected (some job) s o =
    if-Ends _ (λ _. IsOwned) (not (is_expected expected job.current_run_id)) _ _ s (λ _. tt)
      (λ _.
        if-Ends _ (λ _. IsOwned) (same_status job.status cancelled) _ _ s (λ _. tt)
          (λ _.
            if-Ends _ (λ _. IsOwned)
              (not (same_status job.status queued || same_status job.status running)) _ _ s
              (λ _. tt)
              (λ _.
                if-Ends _ (λ _. IsOwned) (same_status job.status running) _ _ s
                  (λ _.
                    cancel_running-IsOwned job_id now job job.current_run_id s
                      (λ run_id e j m.
                        subst (λ c. is_same j.current_run_id c ≡ true) e (and_right _ _ m))
                      o)
                  (λ idle. cancel_quiet-IsOwned job_id now job s idle o))))

pub cancel_job-IsOwned :
    (job_id : String) (now : ℕ) (expected : Option String) (s : JobStore)
    → IsOwned s
    → IsOwned (cancel_job job_id now expected s).1
unfolding cancel_job cancel_tx
cancel_job-IsOwned job_id now expected s o =
    conclude-keeps IsOwned s _ o (cancel_found-IsOwned job_id now expected (get job_id s.jobs) s o)

unless_pending-IsOwned :
    {A : Type 0} (refusal : DeletionReservationOutcome) (job_id : String)
    (tx : Tx DeletionReservationOutcome A) (s : JobStore)
    → Ends (λ _. IsOwned) (tx s)
    → Ends (λ _. IsOwned) (unless_pending refusal job_id tx s)
unless_pending-IsOwned refusal job_id tx s h =
    choose-Ends _ (λ _. IsOwned) (has_pending job_id s.webhook_deliveries) _ _ (λ _. tt) (λ _. h)

or_right : (a b : Bool) → (a || b) ≡ false → b ≡ false
or_right a b h = ground arith

reserve_new-IsOwned :
    (job_id : String) (delete_results : Bool) (now : ℕ) (job : Job) (s : JobStore)
    → same_status job.status running ≡ false
    → IsOwned s
    → Ends (λ _. IsOwned) (reserve_new job_id delete_results now job s)
reserve_new-IsOwned job_id delete_results now job s idle o =
    continue-Ends (λ _. IsOwned) (λ _. IsOwned) _ _
      (update_quiet_job-IsOwned DeletionReservationOutcome job_id
        (has_run job.status job.current_run_id) (reserve_change delete_results now) s
        (λ j m. same_status-running j.status job.status (and_left _ _ m) idle) o)
      (λ matched s' o'.
        if-Ends DeletionReservationOutcome (λ _. IsOwned) matched _ _ s' (λ _. o') (λ _. tt))

reserve_found-IsOwned :
    (job_id : String) (delete_results : Bool) (now : ℕ) (row : Option Job) (s : JobStore)
    → IsOwned s
    → Ends (λ _. IsOwned) (reserve_found job_id delete_results now row s)
reserve_found-IsOwned job_id delete_results now none s o = tt
reserve_found-IsOwned job_id delete_results now (some job) s o =
    if-Ends _ (λ _. IsOwned) (same_status job.status queued || same_status job.status running) _ _ s
      (λ _. tt)
      (λ ended.
        if-Ends _ (λ _. IsOwned) (same_status job.status deleting) _ _ s
          (λ _.
            if-Ends _ (λ _. IsOwned) (not (same_policy delete_results job.delete_results_on_delete))
              _ _ s (λ _. tt)
              (λ _. unless_pending-IsOwned _ job_id (answer_reservation resumed job_id job) s o))
          (λ _.
            unless_pending-IsOwned _ job_id (reserve_new job_id delete_results now job) s
              (reserve_new-IsOwned job_id delete_results now job s (or_right _ _ ended) o)))

pub reserve_job_deletion-IsOwned :
    (job_id : String) (delete_results : Bool) (now : ℕ) (s : JobStore)
    → IsOwned s
    → IsOwned (reserve_job_deletion job_id delete_results now s).1
unfolding reserve_job_deletion reserve_tx
reserve_job_deletion-IsOwned job_id delete_results now s o =
    conclude-keeps IsOwned s _ o
      (reserve_found-IsOwned job_id delete_results now (get job_id s.jobs) s o)

other_job :
    (job_id run_id : String) (s : JobStore) (x : JobRun)
    → (x.job_id == job_id) ≡ false
    → holds_job run_id (get x.job_id s.jobs) ≡ true
    → holds_job run_id (get x.job_id (remove job_id s.jobs)) ≡ true
other_job job_id run_id s x differs h =
    subst (λ r. holds_job run_id r ≡ true) (sym (get-remove job_id x.job_id s.jobs))
      (subst (λ b. holds_job run_id (if b then none else get x.job_id s.jobs) ≡ true) (sym turned)
        h)
  where
    turned : (job_id == x.job_id) ≡ false
    turned = ground (arith, text_keys.decides job_id x.job_id, text_keys.decides x.job_id job_id)

kept :
    (job_id : String) (s : JobStore) (o : IsOwned s) (run_id : String) (run : JobRun)
    (row : Option JobRun)
    → get run_id s.job_runs ≡ row
    → only_if (λ r. not (r.job_id == job_id)) row ≡ some run
    → is_running run ≡ true
    → holds_job run_id (get run.job_id (remove job_id s.jobs)) ≡ true
kept job_id s o run_id run none f e live = absurd (cc)
kept job_id s o run_id run (some x) f e live = elim (Bool-cases (x.job_id == job_id)) [
  | inl same ↦ absurd (
      let g : none ≡ some run = subst (λ b. (if not b then some x else none) ≡ some run) same e in
      cc)
  | inr differs ↦
      let g : some x ≡ some run =
        subst (λ b. (if not b then some x else none) ≡ some run) differs e in
      let live' : is_running x ≡ true = ap is_running (eq_of_some g) ∙ live in
      subst (λ r. holds_job run_id (get r.job_id (remove job_id s.jobs)) ≡ true) (eq_of_some g)
        (other_job job_id run_id s x differs (o.owned run_id x f live'))
]

-- What is kept of the runs belongs to other jobs.
erase_job-IsOwned : (job_id : String) (s : JobStore) → IsOwned s → IsOwned (erase_job job_id s)
erase_job-IsOwned job_id s o = record {
  unique = keep-IsUnique (λ r. not (r.job_id == job_id)) s.job_runs o.unique;
  owned = λ run_id run e live.
      kept job_id s o run_id run (get run_id s.job_runs) refl
        (sym (get-keep (λ r. not (r.job_id == job_id)) run_id s.job_runs o.unique) ∙ e) live;
}

finalize_found-IsOwned :
    (job_id : String) (delete_results : Bool) (after : Option ℕ) (row : Option Job) (s : JobStore)
    → IsOwned s
    → Ends (λ _. IsOwned) (finalize_found job_id delete_results after row s)
finalize_found-IsOwned job_id delete_results after none s o = tt
finalize_found-IsOwned job_id delete_results after (some job) s o =
    choose-Ends _ (λ _. IsOwned) (not (same_status job.status deleting)) _ _ (λ _. tt)
      (λ _.
        choose-Ends _ (λ _. IsOwned) (not (same_policy delete_results job.delete_results_on_delete))
          _ _ (λ _. tt)
          (λ _.
            choose-Ends _ (λ _. IsOwned) (has_pending job_id s.webhook_deliveries) _ _ (λ _. tt)
              (λ _.
                choose-Ends _ (λ _. IsOwned) (is_preserved job_id after s) _ _ (λ _. tt)
                  (λ _. erase_job-IsOwned job_id s o))))

pub finalize_job_deletion-IsOwned :
    (job_id : String) (delete_results : Bool) (after : Option ℕ) (s : JobStore)
    → IsOwned s
    → IsOwned (finalize_job_deletion job_id delete_results after s).1
unfolding finalize_job_deletion
finalize_job_deletion-IsOwned job_id delete_results after s o =
    conclude-keeps IsOwned s _ o
      (finalize_found-IsOwned job_id delete_results after (get job_id s.jobs) s o)

rollback_found-IsOwned :
    (job_id run_id : String) (s : JobStore) (row : Option Job)
    → get job_id s.jobs ≡ row
    → IsOwned s
    → Ends {R = Bool}
        (λ _. IsOwned)
        (if is_fresh_submission job_id run_id s row
          then next true (drop_job job_id s)
          else rollback false s)
rollback_found-IsOwned job_id run_id s none e o = tt
rollback_found-IsOwned job_id run_id s (some job) e o =
    choose-Ends Bool (λ _. IsOwned) (is_fresh_submission job_id run_id s (some job)) _ _
      (λ m.
        let q = remove_job-IsOwned s job_id o (
          quiet_of_status s job_id job o e
            (is_queued_for-quiet run_id job (and_left _ _ (and_left _ _ m)))) in
        record { unique = q.unique; owned = q.owned })
      (λ _. tt)

pub rollback_queued_submission-IsOwned :
    (job_id run_id : String) (s : JobStore)
    → IsOwned s
    → IsOwned (rollback_queued_submission job_id run_id s).1
unfolding rollback_queued_submission
rollback_queued_submission-IsOwned job_id run_id s o =
    conclude-keeps IsOwned s _ o (rollback_found-IsOwned job_id run_id s (get job_id s.jobs) refl o)
