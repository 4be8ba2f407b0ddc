-- ===== src/Jobs/History/Final.antt =====
-- Rows of runs that are over, in src/scrapeyard/storage/job_store.py.
use scrapeyard.Prelude.{
  String, ℕ, ◌≡◌, sym, ◌∙◌, ap, refl, Bool, true, false, not, ◌||◌, ◌==◌, Bool-cases, inl, inr,
  List, [], ◌∷◌, Option, none, some, text_keys, eq_of_some,
}
use mathlib.Core.Bool.{false≢true}
use scrapeyard.Prelude.Dict.{Dict, get, put, remove, get-put, get-remove}
use scrapeyard.Jobs.{
  queued, running, cancelled, deleting, same_status, Secrets, Job, JobRun, JobStore,
}
use scrapeyard.Jobs.Ownership.{is_running}
use scrapeyard.Jobs.Recovery.{has_run, is_fresh_submission, rollback_queued_submission}
use scrapeyard.Jobs.Deletion.{
  CancellationOutcome, end_cancelled, cancel_its_run, cancel_active, is_expected, cancel_found,
  cancel_tx, cancel_job, DeletionReservationOutcome, reserve_new, reserve_change, reserve_found,
  reserve_tx, reserve_job_deletion, has_pending, same_policy,
}
use scrapeyard.Jobs.Steps.{
  Transaction, queue_step, claim_step, heartbeat_step, finalize_step, fail_owned_step,
  fail_queued_step, reserve_recovery_step, fail_recovery_step, recover_step, rollback_step,
  cancel_step, reserve_deletion_step, finalize_deletion_step, reconcile_step, prune_step, commit,
  commit_all,
}
use scrapeyard.Jobs.Reconcile.{
  TerminalWebhookCandidate, TerminalIntentReconcileResult, reconciled_at, mark_change, or_time,
}
use scrapeyard.Jobs.Reconcile.Keeps.{KeepsAll, reconcile_keeps, prune_keeps}
use scrapeyard.Jobs.Exclusive.End.{owned_by-get}
use scrapeyard.Jobs.Rules.{Ends, continue-Ends, conclude-keeps, if-Ends, choose-Ends}
use scrapeyard.Jobs.History.{
  IsKept, job_rows, run_rows, queue_run_rows, claim_run_rows, heartbeat_run_rows,
  fail_queued_run_rows, commit_rows as terminal_rows,
}
use scrapeyard.Jobs.History.Closing.{
  finalize_owned_run_rows, fail_owned_run_rows, reserve_queued_run_recovery_rows,
  fail_queued_run_recovery_rows, recover_stale_run_rows,
}

module _ (P : Dict String JobRun → Type 0) (kept : IsKept P) where
  abbrev Q : JobStore → Type 0
  Q s = P s.job_runs

  cancel_active_rows :
      (job_id : String) (now : ℕ) (job : Job) (s : JobStore)
      → Q s
      → Ends (λ _. Q) (cancel_active job_id now job s)
  cancel_active_rows job_id now job s p =
      continue-Ends (λ _. Q) (λ _. Q) _ _
        (job_rows P kept CancellationOutcome job_id (has_run job.status job.current_run_id) _ s p)
        (λ matched s' p'. if-Ends CancellationOutcome (λ _. Q) matched _ _ s' (λ _. p') (λ _. tt))

  cancel_its_run_rows :
      (job_id : String) (now : ℕ) (current : Option String) (s : JobStore)
      → Q s
      → Ends (λ _. Q) (cancel_its_run job_id now current s)
  cancel_its_run_rows job_id now none s p = tt
  cancel_its_run_rows job_id now (some run_id) s p =
      continue-Ends (λ _. Q) (λ _. Q) _ _
        (run_rows P kept CancellationOutcome job_id run_id is_running (end_cancelled now) s
          (λ _ h. h) p)
        (λ matched s' p'. if-Ends CancellationOutcome (λ _. Q) matched _ _ s' (λ _. p') (λ _. tt))

  cancel_found_rows :
      (job_id : String) (now : ℕ) (expected : Option String) (row : Option Job) (s : JobStore)
      → Q s
      → Ends (λ _. Q) (cancel_found job_id now expected row s)
  cancel_found_rows job_id now expected none s p = tt
  cancel_found_rows job_id now expected (some job) s p =
      if-Ends _ (λ _. Q) (not (is_expected expected job.current_run_id)) _ _ s (λ _. tt)
        (λ _.
          if-Ends _ (λ _. Q) (same_status job.status cancelled) _ _ s (λ _. tt)
            (λ _.
              if-Ends _ (λ _. Q)
                (not (same_status job.status queued || same_status job.status running)) _ _ s
                (λ _. tt)
                (λ _.
                  if-Ends _ (λ _. Q) (same_status job.status running) _ _ s
                    (λ _.
                      continue-Ends (λ _. Q) (λ _. Q) (λ _. cancel_active job_id now job) _
                        (cancel_its_run_rows job_id now job.current_run_id s p)
                        (λ _. cancel_active_rows job_id now job))
                    (λ _. cancel_active_rows job_id now job s p))))

  cancel_job_rows :
      (job_id : String) (now : ℕ) (expected : Option String) (s : JobStore)
      → Q s
      → Q (cancel_job job_id now expected s).1
  unfolding cancel_job cancel_tx
  cancel_job_rows job_id now expected s p =
      conclude-keeps Q s _ p (cancel_found_rows job_id now expected (get job_id s.jobs) s p)

  reserve_new_rows :
      (job_id : String) (delete_results : Bool) (now : ℕ) (job : Job) (s : JobStore)
      → Q s
      → Ends (λ _. Q) (reserve_new job_id delete_results now job s)
  reserve_new_rows job_id delete_results now job s p =
      continue-Ends (λ _. Q) (λ _. Q) _ _
        (job_rows P kept DeletionReservationOutcome job_id (has_run job.status job.current_run_id)
          (reserve_change delete_results now) s p)
        (λ matched s' p'.
          if-Ends DeletionReservationOutcome (λ _. Q) matched _ _ s' (λ _. p') (λ _. tt))

  reserve_found_rows :
      (job_id : String) (delete_results : Bool) (now : ℕ) (row : Option Job) (s : JobStore)
      → Q s
      → Ends (λ _. Q) (reserve_found job_id delete_results now row s)
  reserve_found_rows job_id delete_results now none s p = tt
  reserve_found_rows job_id delete_results now (some job) s p =
      if-Ends _ (λ _. Q) (same_status job.status queued || same_status job.status running) _ _ s
        (λ _. tt)
        (λ _.
          if-Ends _ (λ _. Q) (same_status job.status deleting) _ _ s
            (λ _.
              if-Ends _ (λ _. Q) (not (same_policy delete_results job.delete_results_on_delete)) _ _
                s (λ _. tt)
                (λ _.
                  choose-Ends _ (λ _. Q) (has_pending job_id s.webhook_deliveries) _ _ (λ _. tt)
                    (λ _. p)))
            (λ _.
              choose-Ends _ (λ _. Q) (has_pending job_id s.webhook_deliveries) _ _ (λ _. tt)
                (λ _. reserve_new_rows job_id delete_results now job s p)))

  reserve_job_deletion_rows :
      (job_id : String) (delete_results : Bool) (now : ℕ) (s : JobStore)
      → Q s
      → Q (reserve_job_deletion job_id delete_results now s).1
  unfolding reserve_job_deletion reserve_tx
  reserve_job_deletion_rows job_id delete_results now s p =
      conclude-keeps Q s _ p (reserve_found_rows job_id delete_results now (get job_id s.jobs) s p)

  rollback_queued_submission_rows :
      (job_id run_id : String) (s : JobStore)
      → Q s
      → Q (rollback_queued_submission job_id run_id s).1
  unfolding rollback_queued_submission
  rollback_queued_submission_rows job_id run_id s p = conclude-keeps Q s _ p (
      choose-Ends Bool (λ _. Q) (is_fresh_submission job_id run_id s (get job_id s.jobs)) _ _
        (λ _. p) (λ _. tt))

-- No job is deleted and the run is not pruned.
abbrev pub KeepsRun : String → Transaction → Type 0
KeepsRun run_id (finalize_deletion_step job_id delete_results after) = ⊥
KeepsRun run_id (prune_step job_id r scrubbed expired_before max_runs) = (r == run_id) ≡ false
KeepsRun run_id _ = Unit

abbrev pub AllKeepRun : String → List Transaction → Type 0
AllKeepRun run_id [] = Unit
AllKeepRun run_id (t ∷ ts) = KeepsRun run_id t × AllKeepRun run_id ts

-- What the reconciliation of webhooks and the pruning of other runs keep, besides.
pub record IsSteady (run_id : String) (P : Dict String JobRun → Type 0) : Type 0 where
  pub mark :
      (rows : Dict String JobRun) (r : String) (x : JobRun) (at : ℕ)
      → P rows
      → get r rows ≡ some x
      → P (put r (mark_change at x) rows)
  pub drop :
      (rows : Dict String JobRun) (r : String) → P rows → (r == run_id) ≡ false → P (remove r rows)

rows-KeepsAll :
    (run_id : String) (P : Dict String JobRun → Type 0) (kept : IsKept P)
    (steady : IsSteady run_id P) (c : TerminalWebhookCandidate)
    → KeepsAll (λ s. P s.job_runs) c
rows-KeepsAll run_id P kept steady c = record {
  converged = λ s run p e final job f m. p;
  marked = λ s run p e.
      steady.mark s.job_runs c.run_id run (reconciled_at c) p
        (owned_by-get c.job_id (get c.run_id s.job_runs) run e).0;
  inserted = λ d now s p. terminal_rows P kept TerminalIntentReconcileResult d now s p;
}

commit_rows :
    (run_id : String) (P : Dict String JobRun → Type 0) (kept : IsKept P)
    (steady : IsSteady run_id P) (secrets : Secrets) (t : Transaction) (s : JobStore)
    → KeepsRun run_id t
    → P s.job_runs
    → P (commit secrets t s).job_runs
unfolding commit
commit_rows id P kept steady secrets (queue_step a job_id q) s k p =
    queue_run_rows P kept secrets a job_id q s p
commit_rows id P kept steady secrets (claim_step run_id job_id trigger hash now) s k p =
    claim_run_rows P kept secrets run_id job_id trigger hash now s p
commit_rows id P kept steady secrets (heartbeat_step job_id run_id now) s k p =
    heartbeat_run_rows P kept job_id run_id now s p
commit_rows id P kept steady secrets (finalize_step job_id run_id e) s k p =
    finalize_owned_run_rows P kept job_id run_id e s p
commit_rows id P kept steady secrets (fail_owned_step job_id run_id f) s k p =
    fail_owned_run_rows P kept secrets job_id run_id f s p
commit_rows id P kept steady secrets (fail_queued_step job_id run_id now) s k p =
    fail_queued_run_rows P kept secrets job_id run_id now s p
commit_rows id P kept steady secrets (reserve_recovery_step job_id run_id expected stale now) s k
      p =
    reserve_queued_run_recovery_rows P kept job_id run_id expected stale now s p
commit_rows id P kept steady secrets (fail_recovery_step job_id run_id expected now) s k p =
    fail_queued_run_recovery_rows P kept secrets job_id run_id expected now s p
commit_rows id P kept steady secrets (recover_step job_id expected cutoff now) s k p =
    recover_stale_run_rows P kept job_id expected cutoff now s p
commit_rows id P kept steady secrets (rollback_step job_id run_id) s k p =
    rollback_queued_submission_rows P kept job_id run_id s p
commit_rows id P kept steady secrets (cancel_step job_id now expected) s k p =
    cancel_job_rows P kept job_id now expected s p
commit_rows id P kept steady secrets (reserve_deletion_step job_id delete_results now) s k p =
    reserve_job_deletion_rows P kept job_id delete_results now s p
commit_rows id P kept steady secrets (finalize_deletion_step job_id delete_results after) s k p =
    absurd k
commit_rows id P kept steady secrets (reconcile_step c d) s k p =
    reconcile_keeps (λ s. P s.job_runs) c (rows-KeepsAll id P kept steady c) secrets d s p
commit_rows id P kept steady secrets (prune_step job_id r scrubbed expired_before max_runs) s k p =
    prune_keeps (λ s. P s.job_runs) job_id r scrubbed expired_before max_runs s p
      (steady.drop s.job_runs r p k)

pub commit_all_rows :
    (run_id : String) (P : Dict String JobRun → Type 0) (kept : IsKept P)
    (steady : IsSteady run_id P) (secrets : Secrets) (ts : List Transaction) (s : JobStore)
    → AllKeepRun run_id ts
    → P s.job_runs
    → P (commit_all secrets ts s).job_runs
unfolding commit_all
commit_all_rows id P kept steady secrets [] s ks p = p
commit_all_rows id P kept steady secrets (t ∷ ts) s (k, ks) p =
    commit_all_rows id P kept steady secrets ts (commit secrets t s) ks
      (commit_rows id P kept steady secrets t s k p)

get-put-other :
    (rows : Dict String JobRun) (r run_id : String) (x y : JobRun)
    → get run_id rows ≡ some x
    → (r == run_id) ≡ false
    → get run_id (put r y rows) ≡ some x
get-put-other rows r run_id x y e h = get-put r run_id y rows ∙ rw h e

-- A time that is set stays.
abbrev pub StaysSet : Option ℕ → Option ℕ → Type 0
StaysSet none now = Unit
StaysSet (some t) now = now ≡ some t

-- The row as it was, but for the time of the webhook's reconciliation, which may have been set.
abbrev pub IsSettled : JobRun → Option JobRun → Type 0
IsSettled run row =
    (at : Option ℕ) × (row ≡ some (record run { webhook_reconciled_at = at }))
    × StaysSet run.webhook_reconciled_at at

StaysSet-mark :
    (old now : Option ℕ) (at : ℕ) → StaysSet old now → StaysSet old (some (or_time now at))
StaysSet-mark none now at h = tt
StaysSet-mark (some t) now at h = rw h refl

same_row :
    (rows : Dict String JobRun) (r run_id : String) (x y : JobRun)
    → (r == run_id) ≡ true
    → get r rows ≡ some x
    → get run_id rows ≡ some y
    → x ≡ y
same_row rows r run_id x y same f e =
    eq_of_some (sym f ∙ ap (λ q. get q rows) ((text_keys.decides r run_id).0 same) ∙ e)

module _ (run_id : String) (run : JobRun) (over : is_running run ≡ false) where
  abbrev StillSettled : Dict String JobRun → Type 0
  StillSettled rows = IsSettled run (get run_id rows)

  over-IsKept : IsKept StillSettled
  over-IsKept = record {
    rewrite = λ rows r x y (at, e, set) f live. elim (Bool-cases (r == run_id)) [
      | inl same ↦
          absurd (
            false≢true
              (sym over ∙ ap is_running (sym (same_row rows r run_id x _ same f e)) ∙ live))
      | inr apart ↦ (at, get-put-other rows r run_id _ y e apart, set)
    ];
    add = λ rows r y (at, e, set) f. elim (Bool-cases (r == run_id)) [
      | inl same ↦
          absurd
            (let g = sym f ∙ ap (λ q. get q rows) ((text_keys.decides r run_id).0 same) ∙ e in cc)
      | inr apart ↦ (at, get-put-other rows r run_id _ y e apart, set)
    ];
  }

  over-IsSteady : IsSteady run_id StillSettled
  over-IsSteady = record {
    mark = λ rows r x at (m, e, set) f. elim (Bool-cases (r == run_id)) [
      | inl same ↦ (
        some (or_time m at),
        get-put r run_id (mark_change at x) rows
            ∙ rw same (ap (λ q. some (mark_change at q)) (same_row rows r run_id x _ same f e)),
        StaysSet-mark run.webhook_reconciled_at m at set,
      )
      | inr apart ↦ (m, get-put-other rows r run_id _ (mark_change at x) e apart, set)
    ];
    drop = λ rows r (m, e, set) apart. (m, get-remove r run_id rows ∙ rw apart e, set);
  }

-- The row of a run that is over, whether complete, partial, failed or cancelled, is the same after
-- any sequence of a running service's transactions that deletes no job and does not prune the run, but
-- for the time of the reconciliation of its webhook, which may be set if it was not: no worker,
-- reconciler or API call that comes late finishes the run again, or changes its status, counts, other
-- times or configuration.
pub over_is_over :
    (secrets : Secrets) (ts : List Transaction) (s : JobStore) (run_id : String) (run : JobRun)
    → AllKeepRun run_id ts
    → get run_id s.job_runs ≡ some run
    → is_running run ≡ false
    → IsSettled run (get run_id (commit_all secrets ts s).job_runs)
over_is_over secrets ts s run_id run ks e over =
    commit_all_rows run_id (StillSettled run_id run over) (over-IsKept run_id run over)
      (over-IsSteady run_id run over) secrets ts s ks
      (run.webhook_reconciled_at, e, settled run.webhook_reconciled_at)
  where
    settled : (o : Option ℕ) → StaysSet o o
    settled none = tt
    settled (some t) = refl
