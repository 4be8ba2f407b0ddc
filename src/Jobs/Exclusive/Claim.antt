-- ===== src/Jobs/Exclusive/Claim.antt =====
-- The claim of a run keeps the invariant of Jobs/Running: src/scrapeyard/storage/job_store.py.
use scrapeyard.Prelude.{
  String, ℕ, ◌≡◌, refl, ◌∙◌, sym, subst, Bool, true, Option, none, some, ◌==◌, ==-self, text_keys,
  if◌then◌else◌,
}
use mathlib.Core.Bool.{false≢true}
use scrapeyard.Prelude.Dict.{get, get-put}
use scrapeyard.Jobs.{
  job_config, snapshot_config, Purpose, Secrets, Job, QueuedRunSnapshot, JobStore, return,
}
use scrapeyard.Jobs.Queue.{of_job, delete_snapshot, is_queued_for}
use scrapeyard.Jobs.Ownership.{holds_job}
use scrapeyard.Jobs.Claim.{
  claim_matches, claim_change, claim_found, claim_text, claim_insert, claim_parent, claim_config,
  claim_tx, claim_run,
}
use scrapeyard.Jobs.Rules.{
  Ends, continue-Ends, conclude-keeps, if-Ends, with_job, update_job-Ends, insert_run-Ends,
  reveal_verified-Ends,
}
use scrapeyard.Jobs.Running.{
  IsOwned, and_left, and_right, quiet_job-IsOwned, put_run-IsOwned, quiet_of_status,
}
use scrapeyard.Jobs.Exclusive.{IsOwned-Ignores, delete_snapshot-Ends, is_queued_for-quiet}

abbrev Claimed : String → String → JobStore → Type 0
Claimed job_id run_id s = IsOwned s × (holds_job run_id (get job_id s.jobs) ≡ true)

module _ (secrets : Secrets) (P : JobStore → Type 0) (hash : String) where
  claim_text-Ends :
      (purpose : Purpose) (stored actual : String) (s : JobStore)
      → P s
      → Ends (λ _. P) (claim_text secrets hash purpose stored actual s)
  claim_text-Ends purpose stored actual s p =
      if-Ends Bool (λ _. P) (actual == hash) _ _ s
        (λ _.
          continue-Ends (λ _. P) (λ _. P) _ _
            (reveal_verified-Ends Bool P secrets purpose stored hash s p) found)
        (λ _. tt)
    where
      found : (text : Option String) (s : JobStore) → P s → Ends (λ _. P) (claim_found text s)
      found none s p = tt
      found (some yaml) s p = p

  pub claim_config-Ends :
      (job_id run_id trigger : String) (row : Option QueuedRunSnapshot) (s : JobStore)
      → P s
      → Ends (λ _. P) (claim_config secrets job_id run_id trigger hash row s)
  claim_config-Ends job_id run_id trigger none s p = parent (get job_id s.jobs)
    where
      parent : (row : Option Job) → Ends (λ _. P) (claim_parent secrets job_id hash row s)
      parent none = tt
      parent (some job) = claim_text-Ends (job_config job_id) job.config_yaml job.config_hash s p
  claim_config-Ends job_id run_id trigger (some snapshot) s p =
      if-Ends Bool (λ _. P) (snapshot.trigger == trigger) _ _ s
        (λ _.
          claim_text-Ends (snapshot_config run_id) snapshot.config_yaml snapshot.config_hash s p)
        (λ _. tt)

claim_job-Claimed :
    (job_id run_id trigger : String) (now : ℕ) (s : JobStore) (job : Job)
    → IsOwned s
    → get job_id s.jobs ≡ some job
    → claim_matches run_id trigger job ≡ true
    → Claimed job_id run_id (with_job job_id (claim_change trigger now job) s)
claim_job-Claimed job_id run_id trigger now s job o e m =
    let queued_for : is_queued_for run_id job ≡ true = and_left _ _ m in
    (
      quiet_job-IsOwned s job_id (claim_change trigger now job) o
          (quiet_of_status s job_id job o e (is_queued_for-quiet run_id job queued_for)),
      subst (λ r. holds_job run_id r ≡ true)
          (sym (get-put job_id job_id (claim_change trigger now job) s.jobs ∙ stored))
          (and_right _ _ queued_for),
    )
  where
    stored :
        (if job_id == job_id then some (claim_change trigger now job) else get job_id s.jobs)
        ≡ some (claim_change trigger now job)
    stored = rw (==-self job_id) refl

claim_insert-IsOwned :
    (secrets : Secrets) (run_id job_id trigger hash : String) (now : ℕ) (yaml : String)
    (s : JobStore)
    → Claimed job_id run_id s
    → Ends (λ _. IsOwned) (claim_insert secrets run_id job_id trigger hash now yaml s)
claim_insert-IsOwned secrets run_id job_id trigger hash now yaml s (o, h) =
    continue-Ends (λ _. IsOwned) (λ _. IsOwned) (λ _. return true) _
      (continue-Ends (λ _. IsOwned) (λ _. IsOwned) (λ _. delete_snapshot job_id run_id) _
        (insert_run-Ends Bool (λ _. IsOwned) s run_id _
          (λ _. put_run-IsOwned s run_id _ o (λ _. h)))
        (λ _ s' o'. delete_snapshot-Ends Bool IsOwned IsOwned-Ignores job_id run_id s' o'))
      (λ _ s' o'. o')

claim_tx-IsOwned :
    (secrets : Secrets) (run_id job_id trigger hash : String) (now : ℕ) (s : JobStore)
    → IsOwned s
    → Ends (λ _. IsOwned) (claim_tx secrets run_id job_id trigger hash now s)
unfolding claim_tx
claim_tx-IsOwned secrets run_id job_id trigger hash now s o =
    continue-Ends (λ matched s'. matched ≡ true → Claimed job_id run_id s') (λ _. IsOwned) _ _
      (update_job-Ends Bool (λ matched s'. matched ≡ true → Claimed job_id run_id s') s job_id
        (claim_matches run_id trigger) (claim_change trigger now) (λ e. absurd (false≢true e))
        (λ job e m _. claim_job-Claimed job_id run_id trigger now s job o e m))
      (λ matched s' c.
        if-Ends Bool (λ _. IsOwned) matched _ _ s'
          (λ e.
            continue-Ends (λ _. Claimed job_id run_id) (λ _. IsOwned)
              (claim_insert secrets run_id job_id trigger hash now) _
              (claim_config-Ends secrets (Claimed job_id run_id) hash job_id run_id trigger
                (of_job job_id (get run_id s'.queued_run_snapshots)) s' (c e))
              (claim_insert-IsOwned secrets run_id job_id trigger hash now))
          (λ _. tt))

pub claim_run-IsOwned :
    (secrets : Secrets) (run_id job_id trigger hash : String) (now : ℕ) (s : JobStore)
    → IsOwned s
    → IsOwned (claim_run secrets run_id job_id trigger hash now s).1
unfolding claim_run
claim_run-IsOwned secrets run_id job_id trigger hash now s o =
    conclude-keeps IsOwned s _ o (claim_tx-IsOwned secrets run_id job_id trigger hash now s o)
