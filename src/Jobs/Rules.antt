-- ===== src/Jobs/Rules.antt =====
-- Rules for what a transaction of src/scrapeyard/storage/job_store.py leaves behind.
use scrapeyard.Prelude.{
  String, ◌≡◌, refl, Bool, true, false, Option, none, some, text_keys, if◌then◌else◌,
}
use scrapeyard.Prelude.Dict.{get, put}
use scrapeyard.Jobs.{
  Secrets, Purpose, Job, JobRun, JobStore, Step, next, rolled_back, raised, Tx, continue, conclude,
  update_found, update_job, owned_by, update_run_found, update_run, insert_run_found, insert_run,
  verified, reveal_verified,
}

-- If the step goes on, then with an answer and a store that satisfy the predicate.
abbrev pub Ends : {R A : Type 0} → (A → JobStore → Type 0) → Step R A → Type 0
Ends Q (next a s) = Q a s
Ends Q (rolled_back r) = Unit
Ends Q (raised e) = Unit

pub continue-Ends :
    {R A B : Type 0} (P : A → JobStore → Type 0) (Q : B → JobStore → Type 0) (k : A → Tx R B)
    (step : Step R A)
    → Ends P step
    → ((a : A) (s : JobStore) → P a s → Ends Q (k a s))
    → Ends Q (continue k step)
continue-Ends P Q k (next a s) p q = q a s p
continue-Ends P Q k (rolled_back r) p q = tt
continue-Ends P Q k (raised e) p q = tt

pub conclude-keeps :
    {R : Type 0} (P : JobStore → Type 0) (s : JobStore) (step : Step R R)
    → P s
    → Ends (λ _. P) step
    → P (conclude s step).1
conclude-keeps P s (next r s') p q = q
conclude-keeps P s (rolled_back r) p q = p
conclude-keeps P s (raised e) p q = p

pub if-Ends :
    (R : Type 0) {A : Type 0} (Q : A → JobStore → Type 0) (b : Bool) (t u : Tx R A) (s : JobStore)
    → (b ≡ true → Ends Q (t s))
    → (b ≡ false → Ends Q (u s))
    → Ends Q ((if b then t else u) s)
if-Ends R Q true t u s p q = p refl
if-Ends R Q false t u s p q = q refl

pub choose-Ends :
    (R : Type 0) {A : Type 0} (Q : A → JobStore → Type 0) (b : Bool) (x y : Step R A)
    → (b ≡ true → Ends Q x)
    → (b ≡ false → Ends Q y)
    → Ends Q (if b then x else y)
choose-Ends R Q true x y p q = p refl
choose-Ends R Q false x y p q = q refl

abbrev pub with_job : String → Job → JobStore → JobStore
with_job job_id job s = record s { jobs = put job_id job s.jobs }

abbrev pub with_run : String → JobRun → JobStore → JobStore
with_run run_id run s = record s { job_runs = put run_id run s.job_runs }

module _ (R : Type 0) (Q : Bool → JobStore → Type 0) (s : JobStore) where
  update_found-Ends :
      (job_id : String) (matches : Job → Bool) (change : Job → Job) (o : Option Job)
      → Q false s
      → ((job : Job) → o ≡ some job → matches job ≡ true → Q true (with_job job_id (change job) s))
      → Ends Q (update_found {R = R} job_id matches change o s)
  update_found-Ends job_id matches change none miss hit = miss
  update_found-Ends job_id matches change (some job) miss hit =
      choose-Ends R Q (matches job) (next true (with_job job_id (change job) s)) (next false s)
        (hit job refl) (λ _. miss)

  pub update_job-Ends :
      (job_id : String) (matches : Job → Bool) (change : Job → Job)
      → Q false s
      → ((job : Job)
          → get job_id s.jobs ≡ some job
          → matches job ≡ true
          → Q true (with_job job_id (change job) s))
      → Ends Q (update_job {R = R} job_id matches change s)
  update_job-Ends job_id matches change miss hit =
      update_found-Ends job_id matches change (get job_id s.jobs) miss hit

  update_run_found-Ends :
      (run_id : String) (matches : JobRun → Bool) (change : JobRun → JobRun) (o : Option JobRun)
      → Q false s
      → ((run : JobRun)
          → o ≡ some run
          → matches run ≡ true
          → Q true (with_run run_id (change run) s))
      → Ends Q (update_run_found {R = R} run_id matches change o s)
  update_run_found-Ends run_id matches change none miss hit = miss
  update_run_found-Ends run_id matches change (some run) miss hit =
      choose-Ends R Q (matches run) (next true (with_run run_id (change run) s)) (next false s)
        (hit run refl) (λ _. miss)

  pub update_run-Ends :
      (job_id run_id : String) (matches : JobRun → Bool) (change : JobRun → JobRun)
      → Q false s
      → ((run : JobRun)
          → owned_by job_id (get run_id s.job_runs) ≡ some run
          → matches run ≡ true
          → Q true (with_run run_id (change run) s))
      → Ends Q (update_run {R = R} job_id run_id matches change s)
  update_run-Ends job_id run_id matches change miss hit =
      update_run_found-Ends run_id matches change (owned_by job_id (get run_id s.job_runs)) miss hit

module _ (R : Type 0) (Q : Unit {0} → JobStore → Type 0) (s : JobStore) where
  insert_run_found-Ends :
      (run_id : String) (run : JobRun) (o : Option JobRun)
      → (o ≡ none → Q tt (record s { job_runs = put run_id run s.job_runs }))
      → Ends Q (insert_run_found {R = R} run_id run o s)
  insert_run_found-Ends run_id run none h = h refl
  insert_run_found-Ends run_id run (some _) h = tt

  pub insert_run-Ends :
      (run_id : String) (run : JobRun)
      → (get run_id s.job_runs ≡ none → Q tt (record s { job_runs = put run_id run s.job_runs }))
      → Ends Q (insert_run {R = R} run_id run s)
  insert_run-Ends run_id run h = insert_run_found-Ends run_id run (get run_id s.job_runs) h

verified-Ends :
    (R : Type 0) (P : JobStore → Type 0) (secrets : Secrets) (hash : String) (o : Option String)
    (s : JobStore)
    → P s
    → Ends (λ _. P) (verified {R = R} secrets hash o s)
verified-Ends R P secrets hash none s p = tt
verified-Ends R P secrets hash (some text) s p = p

pub reveal_verified-Ends :
    (R : Type 0) (P : JobStore → Type 0) (secrets : Secrets) (purpose : Purpose)
    (stored hash : String) (s : JobStore)
    → P s
    → Ends (λ _. P) (reveal_verified {R = R} secrets purpose stored hash s)
reveal_verified-Ends R P secrets purpose stored hash s p =
    verified-Ends R P secrets hash (secrets.reveal purpose stored) s p
