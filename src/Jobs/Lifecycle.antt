-- ===== src/Jobs/Lifecycle.antt =====
-- Jobs that are cancelled or being deleted, in src/scrapeyard/storage: the transactions that queue,
-- claim and fail queued runs.
pub mod Finish
pub mod All
use scrapeyard.Prelude.{
  String, ℕ, ◌≡◌, refl, sym, ◌∙◌, ap, subst, Bool, true, false, not, ◌&&◌, ◌||◌, Option, none, some,
  ◌==◌, text_keys, inl, inr, Bool-cases, eq_of_some, if◌then◌else◌,
}
use mathlib.Core.Bool.{false≢true}
use scrapeyard.Prelude.Dict.{Dict, get, put, remove, get-put, get-remove}
use scrapeyard.Jobs.{
  JobStatus, queued, running, complete, partial, failed, cancelled, deleting, same_status, is_same,
  is_terminal, Secrets, Job, JobRun, JobStore, WebhookDelivery, value_error, error, Step, next,
  raised, Tx, return, owned_by, update_job, update_run, insert_run, transaction,
}
use scrapeyard.Jobs.Queue.{
  Capacity, QueueRequest, queue_matches, queue_change, queue_run_tx, queue_run, of_job,
  delete_snapshot, insert_failed, failed_run, insert_failed_queued_run, is_queued_for, to_status,
  fail_queued_run,
}
use scrapeyard.Jobs.Ownership.{
  is_running, is_running_for, holds_job, beat, heartbeat_run, WebhookDeliveryCreate,
  insert_delivery, is_text, is_valid_delivery, commit_terminal_intent, RunEnd, finish_run, is_fresh,
  finalize_tx, finalize_owned_run, RunFailure, fail_run, beats_after, fail_job, fail_owned,
  fail_owned_tx, fail_owned_run,
}
use scrapeyard.Jobs.Claim.{
  claim_matches, claim_change, claim_insert, claimed_run, claim_tx, claim_run,
}
use scrapeyard.Jobs.Rules.{
  Ends, continue-Ends, conclude-keeps, if-Ends, choose-Ends, update_job-Ends, update_run-Ends,
  insert_run-Ends,
}
use scrapeyard.Jobs.Running.{and_left, and_right}
use scrapeyard.Jobs.Exclusive.{delete_snapshot-Ends, check_admission-Ends, snapshot_parent-Ends}
use scrapeyard.Jobs.Exclusive.Claim.{claim_config-Ends}

abbrev pub is_closed : JobStatus → Bool
is_closed cancelled = true
is_closed deleting = true
is_closed _ = false

live_like :
    (a e : JobStatus)
    → same_status a e ≡ true
    → (same_status e cancelled || same_status e deleting) ≡ false
    → is_closed a ≡ false
live_like queued e h k = refl
live_like running e h k = refl
live_like complete e h k = refl
live_like partial e h k = refl
live_like failed e h k = refl
live_like cancelled queued h k = sym h
live_like cancelled running h k = sym h
live_like cancelled complete h k = sym h
live_like cancelled partial h k = sym h
live_like cancelled failed h k = sym h
live_like cancelled cancelled h k = k
live_like cancelled deleting h k = sym h
live_like deleting queued h k = sym h
live_like deleting running h k = sym h
live_like deleting complete h k = sym h
live_like deleting partial h k = sym h
live_like deleting failed h k = sym h
live_like deleting cancelled h k = sym h
live_like deleting deleting h k = k

pub queued_is_live :
    (job : Job) (run_id : String) → is_queued_for run_id job ≡ true → is_closed job.status ≡ false
queued_is_live job run_id h = live_like job.status queued (and_left _ _ h) refl

pub running_is_live : (a : JobStatus) → same_status a running ≡ true → is_closed a ≡ false
running_is_live a h = live_like a running h refl

module _ (j : String) where
  -- The job is cancelled or being deleted, if it is still there.
  abbrev pub Shut : JobStore → Type 0
  Shut s = (job : Job) → get j s.jobs ≡ some job → is_closed job.status ≡ true

  pub put_closed :
      (s : JobStore) (job_id : String) (old new x : Job)
      → get job_id s.jobs ≡ some old
      → (is_closed old.status ≡ true → is_closed new.status ≡ true)
      → Shut s
      → get j (put job_id new s.jobs) ≡ some x
      → is_closed x.status ≡ true
  put_closed s job_id old new x e h q f = elim (Bool-cases (job_id == j)) [
    | inl same ↦
        let g : some new ≡ some x =
          subst (λ b. (if b then some new else get j s.jobs) ≡ some x) same
            (sym (get-put job_id j new s.jobs) ∙ f) in
        ap (λ y. is_closed y.status) (sym (eq_of_some g))
        ∙ h (q old (subst (λ k. get k s.jobs ≡ some old) ((text_keys.decides job_id j).0 same) e))
    | inr differs ↦ q x (
        subst (λ b. (if b then some new else get j s.jobs) ≡ some x) differs
          (sym (get-put job_id j new s.jobs) ∙ f))
  ]

  pub job_closed :
      (R : Type 0) (job_id : String) (matches : Job → Bool) (change : Job → Job) (s : JobStore)
      → ((job : Job)
          → matches job ≡ true
          → is_closed job.status ≡ true
          → is_closed (change job).status ≡ true)
      → Shut s
      → Ends (λ _. Shut) (update_job {R = R} job_id matches change s)
  job_closed R job_id matches change s h q =
      update_job-Ends R (λ _. Shut) s job_id matches change q
        (λ job e m x f. put_closed s job_id job (change job) x e (h job m) q f)

  -- A statement that matches no closed job.
  pub live_job_closed :
      (R : Type 0) (job_id : String) (matches : Job → Bool) (change : Job → Job) (s : JobStore)
      → ((job : Job) → matches job ≡ true → is_closed job.status ≡ false)
      → Shut s
      → Ends (λ _. Shut) (update_job {R = R} job_id matches change s)
  live_job_closed R job_id matches change s h q =
      job_closed R job_id matches change s (λ job m c. absurd (false≢true (sym (h job m) ∙ c))) q

  pub run_closed :
      (R : Type 0) (job_id run_id : String) (matches : JobRun → Bool) (change : JobRun → JobRun)
      (s : JobStore)
      → Shut s
      → Ends (λ _. Shut) (update_run {R = R} job_id run_id matches change s)
  run_closed R job_id run_id matches change s q =
      update_run-Ends R (λ _. Shut) s job_id run_id matches change q (λ run e m. q)

  insert_failed_closed :
      (R : Type 0) (secrets : Secrets) (job_id run_id : String) (now errors : ℕ) (code : String)
      (row : Option Job) (s : JobStore)
      → Shut s
      → Ends (λ _. Shut) (insert_failed {R = R} secrets job_id run_id now errors code row s)
  insert_failed_closed R secrets job_id run_id now errors code none s q = tt
  insert_failed_closed R secrets job_id run_id now errors code (some job) s q =
      if-Ends R (λ _. Shut) (is_same job.current_run_id (some run_id)) _ _ s
        (λ _.
          continue-Ends (λ _. Shut) (λ _. Shut) (λ _. delete_snapshot job_id run_id) _
            (insert_run-Ends R (λ _. Shut) s run_id
              (failed_run secrets job_id run_id now errors code job
                (of_job job_id (get run_id s.queued_run_snapshots)))
              (λ _. q))
            (λ _. delete_snapshot-Ends R Shut (λ s x p. p) job_id run_id))
        (λ _. tt)

  pub insert_failed_queued_run_closed :
      (R : Type 0) (secrets : Secrets) (job_id run_id : String) (now errors : ℕ) (code : String)
      (s : JobStore)
      → Shut s
      → Ends (λ _. Shut) (insert_failed_queued_run {R = R} secrets job_id run_id now errors code s)
  unfolding insert_failed_queued_run
  insert_failed_queued_run_closed R secrets job_id run_id now errors code s q =
      insert_failed_closed R secrets job_id run_id now errors code (get job_id s.jobs) s q

  pub fail_queued_run_closed :
      (secrets : Secrets) (job_id run_id : String) (now : ℕ) (s : JobStore)
      → Shut s
      → Shut (fail_queued_run secrets job_id run_id now s).1
  unfolding fail_queued_run
  fail_queued_run_closed secrets job_id run_id now s q = conclude-keeps Shut s _ q (
      continue-Ends (λ _. Shut) (λ _. Shut) _ _
        (live_job_closed Bool job_id (is_queued_for run_id) (to_status failed now) s
          (λ job. queued_is_live job run_id) q)
        (λ matched s' p'.
          if-Ends Bool (λ _. Shut) matched _ _ s'
            (λ _.
              continue-Ends (λ _. Shut) (λ _. Shut) _ _
                (insert_failed_queued_run_closed Bool secrets job_id run_id now 1 "enqueue_failure"
                  s' p')
                (λ _ s'' p. p))
            (λ _. tt)))

  pub queue_run_closed :
      (secrets : Secrets) (a : Capacity) (job_id : String) (q : QueueRequest) (s : JobStore)
      → Shut s
      → Shut (queue_run secrets a job_id q s).1
  unfolding queue_run queue_run_tx
  queue_run_closed secrets a job_id q s p =
      elim (Bool-cases
        (same_status q.expected_status cancelled || same_status q.expected_status deleting)) [
          | inl final ↦ rw final p
          | inr live ↦ rw live (
              conclude-keeps Shut s _ p (
                continue-Ends (λ _. Shut) (λ _. Shut) _ _
                  (live_job_closed Bool job_id (queue_matches secrets q) (queue_change q) s
                    (λ job m.
                      live_like job.status q.expected_status
                        (and_left _ _ (and_left _ _ (and_left _ _ (and_left _ _ m)))) live)
                    p)
                  (λ matched s' p'.
                    if-Ends Bool (λ _. Shut) matched _ _ s'
                      (λ _.
                        continue-Ends (λ _. Shut) (λ _. Shut) _ _
                          (check_admission-Ends Bool Shut a s' p')
                          (λ _ s'' p''.
                            snapshot_parent-Ends Shut (λ s x p. p) secrets job_id q
                              (get job_id s''.jobs) s'' p''))
                      (λ _. tt))))
        ]

  claim_insert_closed :
      (secrets : Secrets) (run_id job_id trigger hash : String) (now : ℕ) (yaml : String)
      (s : JobStore)
      → Shut s
      → Ends (λ _. Shut) (claim_insert secrets run_id job_id trigger hash now yaml s)
  claim_insert_closed secrets run_id job_id trigger hash now yaml s p =
      continue-Ends (λ _. Shut) (λ _. Shut) (λ _. return true) _
        (continue-Ends (λ _. Shut) (λ _. Shut) (λ _. delete_snapshot job_id run_id) _
          (insert_run-Ends Bool (λ _. Shut) s run_id
            (claimed_run secrets run_id job_id trigger hash now yaml) (λ _. p))
          (λ _. delete_snapshot-Ends Bool Shut (λ s x q. q) job_id run_id))
        (λ _ s' q. q)

  pub claim_run_closed :
      (secrets : Secrets) (run_id job_id trigger hash : String) (now : ℕ) (s : JobStore)
      → Shut s
      → Shut (claim_run secrets run_id job_id trigger hash now s).1
  unfolding claim_run claim_tx
  claim_run_closed secrets run_id job_id trigger hash now s p = conclude-keeps Shut s _ p (
      continue-Ends (λ _. Shut) (λ _. Shut) _ _
        (live_job_closed Bool job_id (claim_matches run_id trigger) (claim_change trigger now) s
          (λ job m. queued_is_live job run_id (and_left _ _ m)) p)
        (λ matched s' p'.
          if-Ends Bool (λ _. Shut) matched _ _ s'
            (λ _.
              continue-Ends (λ _. Shut) (λ _. Shut)
                (claim_insert secrets run_id job_id trigger hash now) _
                (claim_config-Ends secrets Shut hash job_id run_id trigger
                  (of_job job_id (get run_id s'.queued_run_snapshots)) s' p')
                (claim_insert_closed secrets run_id job_id trigger hash now))
            (λ _. tt)))

  pub heartbeat_run_closed :
      (job_id run_id : String) (now : ℕ) (s : JobStore)
      → Shut s
      → Shut (heartbeat_run job_id run_id now s).1
  unfolding heartbeat_run
  heartbeat_run_closed job_id run_id now s p = conclude-keeps Shut s _ p (
      continue-Ends (λ _. Shut) (λ _. Shut) _ _
        (run_closed (Unit {0}) job_id run_id
          (λ run. is_running run && holds_job run_id (get job_id s.jobs)) (beat now) s p)
        (λ matched s' p'. if-Ends (Unit {0}) (λ _. Shut) matched _ _ s' (λ _. p') (λ _. tt)))
