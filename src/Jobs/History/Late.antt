-- ===== src/Jobs/History/Late.antt =====
-- Workers and reconcilers that come late, in src/scrapeyard/storage.
use scrapeyard.Prelude.{
  String, ℕ, leb, ◌≡◌, refl, sym, ◌∙◌, ap, Bool, true, false, ◌&&◌, List, Option, none, some,
  text_keys, inl, inr, arith, eq_of_some, Bool-cases,
}
use scrapeyard.Prelude.Dict.{get}
use scrapeyard.Jobs.{
  running, is_terminal, Secrets, Job, JobRun, JobStore, next, conclude, Reply, returned, error,
  owned_by, update_run_found,
}
use scrapeyard.Jobs.Ownership.{
  is_running, holds_job, beat, heartbeat_run, is_valid_delivery, RunEnd, finish_run, is_fresh,
  finalize_tx, finalize_owned_run,
}
use scrapeyard.Jobs.Recovery.{
  has_run, recover_run, recover_current, recover_job, recover_current_run, recover_stale_run,
}
use scrapeyard.Jobs.Steps.{Transaction, commit_all}
use scrapeyard.Jobs.History.Final.{AllKeepRun, over_is_over}
use scrapeyard.Jobs.Exclusive.End.{owned_by-get}

abbrev pub is_error : {R : Type 0} → Reply R → Bool
is_error (returned r) = false
is_error (error e) = true

-- An error, and the store as it was.
abbrev pub IsTurnedAway : {R : Type 0} → JobStore → Reply R × JobStore → Type 0
IsTurnedAway s answer = (is_error answer.0 ≡ true) × (answer.1 ≡ s)

update_run_found_miss :
    (R : Type 0) (run_id : String) (matches : JobRun → Bool) (change : JobRun → JobRun)
    (row : Option JobRun) (s : JobStore)
    → ((run : JobRun) → row ≡ some run → matches run ≡ false)
    → update_run_found {R = R} run_id matches change row s ≡ next false s
update_run_found_miss R run_id matches change none s h = refl
update_run_found_miss R run_id matches change (some run) s h = rw (h run refl) refl

over_row :
    (s : JobStore) (job_id run_id : String) (run x : JobRun)
    → get run_id s.job_runs ≡ some run
    → is_running run ≡ false
    → owned_by job_id (get run_id s.job_runs) ≡ some x
    → is_running x ≡ false
over_row s job_id run_id run x e over f =
    let g : some run ≡ some x = sym e ∙ (owned_by-get job_id (get run_id s.job_runs) x f).0 in
    ap is_running (sym (eq_of_some g)) ∙ over

and_false : (a b : Bool) → a ≡ false → (a && b) ≡ false
and_false a b h = ground arith

finalize_over :
    (s : JobStore) (job_id run_id : String) (run : JobRun) (e : RunEnd)
    → get run_id s.job_runs ≡ some run
    → is_running run ≡ false
    → IsTurnedAway s (finalize_owned_run job_id run_id e s)
unfolding finalize_owned_run finalize_tx
finalize_over s job_id run_id run e f over = elim (Bool-cases (is_terminal e.status)) [
  | inl final ↦ elim (Bool-cases (is_valid_delivery job_id run_id e.status e.webhook_delivery)) [
    | inl fine ↦
        rw
          (
            final,
            fine,
            update_run_found_miss (Unit {0}) run_id (is_fresh e.heartbeat_cutoff) (finish_run e)
                (owned_by job_id (get run_id s.job_runs)) s
                (λ x g. and_false _ _ (over_row s job_id run_id run x f over g)),
          )
          (refl, refl)
    | inr bad ↦ rw (final, bad) (refl, refl)
  ]
  | inr other ↦ rw other (refl, refl)
]

heartbeat_over :
    (s : JobStore) (job_id run_id : String) (run : JobRun) (now : ℕ)
    → get run_id s.job_runs ≡ some run
    → is_running run ≡ false
    → IsTurnedAway s (heartbeat_run job_id run_id now s)
unfolding heartbeat_run
heartbeat_over s job_id run_id run now f over =
    rw
      (update_run_found_miss (Unit {0}) run_id
        (λ x. is_running x && holds_job run_id (get job_id s.jobs)) (beat now)
        (owned_by job_id (get run_id s.job_runs)) s
        (λ x g. and_false _ _ (over_row s job_id run_id run x f over g)))
      (refl, refl)

-- Once a run is over, whatever transactions follow, as long as none deletes a job or prunes the run, a
-- worker that still holds the run is refused with an error when it sends a heartbeat and when it finalizes, and
-- the database stays as it is.
pub late_worker_refused :
    (secrets : Secrets) (ts : List Transaction) (s : JobStore) (job_id run_id : String)
    (run : JobRun) (now : ℕ) (e : RunEnd)
    → AllKeepRun run_id ts
    → get run_id s.job_runs ≡ some run
    → is_running run ≡ false
    → IsTurnedAway
        (commit_all secrets ts s)
        (heartbeat_run job_id run_id now (commit_all secrets ts s))
      × IsTurnedAway
          (commit_all secrets ts s)
          (finalize_owned_run job_id run_id e (commit_all secrets ts s))
late_worker_refused secrets ts s job_id run_id run now e ks f over =
    let (at, still, _) = over_is_over secrets ts s run_id run ks f over in
    let row = record run { webhook_reconciled_at = at } in
    (
      heartbeat_over (commit_all secrets ts s) job_id run_id row now still over,
      finalize_over (commit_all secrets ts s) job_id run_id row e still over,
    )

recover_run_spares :
    (job_id run_id : String) (cutoff now : ℕ) (run : JobRun) (s : JobStore)
    → is_terminal run.status ≡ false
    → leb run.heartbeat_at cutoff ≡ false
    → recover_run job_id run_id cutoff now (some run) s ≡ next none s
recover_run_spares job_id run_id cutoff now run s live fresh = elim (Bool-cases (is_running run)) [
  | inl r ↦ rw (live, r, fresh) refl
  | inr r ↦ rw (live, r) refl
]

-- Recovery spares the current run of a job if the run has beaten after the cutoff and its status is
-- not complete, partial or failed: it answers that it did nothing, and the database stays as it is, whichever run the caller expected.
pub recover_spares :
    (s : JobStore) (job_id run_id : String) (expected : Option String) (cutoff now : ℕ) (job : Job)
    (run : JobRun)
    → get job_id s.jobs ≡ some job
    → job.current_run_id ≡ some run_id
    → owned_by job_id (get run_id s.job_runs) ≡ some run
    → is_terminal run.status ≡ false
    → leb run.heartbeat_at cutoff ≡ false
    → recover_stale_run job_id expected cutoff now s ≡ (returned none, s)
unfolding recover_stale_run recover_current_run
recover_spares s job_id run_id expected cutoff now job run e current f live fresh =
    ap (conclude s) (ap (λ row. recover_job job_id expected cutoff now row s) e ∙ spare)
  where
    spare : recover_job job_id expected cutoff now (some job) s ≡ next none s
    spare = elim (Bool-cases (has_run running expected job)) [
      | inl m ↦ rw m (
          ap (λ c. recover_current job_id cutoff now c s) current
          ∙ ap (λ row. recover_run job_id run_id cutoff now row s) f
          ∙ recover_run_spares job_id run_id cutoff now run s live fresh)
      | inr m ↦ rw m refl
    ]
