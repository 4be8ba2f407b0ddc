-- ===== src/Jobs/Running.antt =====
-- Runs that are running, in the store of src/scrapeyard/storage/job_store.py, and the rows that own
-- them.
use scrapeyard.Prelude.{
  String, ◌≡◌, refl, ◌∙◌, sym, ap, subst, Bool, true, false, ◌&&◌, Option, none, some, ◌==◌,
  text_keys, inl, inr, arith, Bool-cases, eq_of_some, if◌then◌else◌,
}
use mathlib.Core.Bool.{false≢true}
use scrapeyard.Prelude.Dict.{Dict, get, put, remove, IsUnique, get-put, get-remove, put-IsUnique}
use scrapeyard.Jobs.{
  JobStatus, queued, running, complete, partial, failed, cancelled, deleting, same_status, is_same,
  is_terminal, Job, JobRun, JobStore,
}
use scrapeyard.Jobs.Ownership.{is_running, is_running_for, holds_job}

-- A run that is running belongs to a job that is running it.
pub record IsOwned (s : JobStore) : Type 0 where
  pub unique : IsUnique s.job_runs
  pub owned :
      (run_id : String) (run : JobRun)
      → get run_id s.job_runs ≡ some run
      → is_running run ≡ true
      → holds_job run_id (get run.job_id s.jobs) ≡ true

-- No run of the job is running.
abbrev pub Idle : String → JobStore → Type 0
Idle job_id s =
    (run_id : String) (run : JobRun)
    → get run_id s.job_runs ≡ some run
    → run.job_id ≡ job_id
    → is_running run ≡ false

-- The run is not running for the job.
abbrev pub Ended : String → String → JobStore → Type 0
Ended job_id run_id s =
    (run : JobRun) → get run_id s.job_runs ≡ some run → run.job_id ≡ job_id → is_running run ≡ false

pub same_status-running :
    (a b : JobStatus)
    → same_status a b ≡ true
    → same_status b running ≡ false
    → same_status a running ≡ false
same_status-running running running h k = k
same_status-running running queued h k = sym h
same_status-running running complete h k = sym h
same_status-running running partial h k = sym h
same_status-running running failed h k = sym h
same_status-running running cancelled h k = sym h
same_status-running running deleting h k = sym h
same_status-running queued b h k = refl
same_status-running complete b h k = refl
same_status-running partial b h k = refl
same_status-running failed b h k = refl
same_status-running cancelled b h k = refl
same_status-running deleting b h k = refl

pub terminal_is_not_running : (a : JobStatus) → is_terminal a ≡ true → same_status a running ≡ false
terminal_is_not_running queued h = refl
terminal_is_not_running running h = sym h
terminal_is_not_running complete h = refl
terminal_is_not_running partial h = refl
terminal_is_not_running failed h = refl
terminal_is_not_running cancelled h = refl
terminal_is_not_running deleting h = refl

put_job_lem :
    (jobs : Dict String Job) (j k r : String) (job : Job)
    → ((k ≡ j) → is_running_for r job ≡ true)
    → holds_job r (get k jobs) ≡ true
    → holds_job r (get k (put j job jobs)) ≡ true
put_job_lem jobs j k r job new old =
    subst (λ o. holds_job r o ≡ true) (sym (get-put j k job jobs))
      (ground (arith, text_keys.decides j k))

pub put_job-IsOwned :
    (s : JobStore) (job_id : String) (job : Job)
    → IsOwned s
    → ((run_id : String) (run : JobRun)
        → get run_id s.job_runs ≡ some run
        → is_running run ≡ true
        → run.job_id ≡ job_id
        → is_running_for run_id job ≡ true)
    → IsOwned (record s { jobs = put job_id job s.jobs })
put_job-IsOwned s job_id job o h = record {
  unique = o.unique;
  owned = λ run_id run e live.
      put_job_lem s.jobs job_id run.job_id run_id job (h run_id run e live)
        (o.owned run_id run e live);
}

pub quiet_job-IsOwned :
    (s : JobStore) (job_id : String) (job : Job)
    → IsOwned s
    → Idle job_id s
    → IsOwned (record s { jobs = put job_id job s.jobs })
quiet_job-IsOwned s job_id job o idle =
    put_job-IsOwned s job_id job o
      (λ run_id run e live mine. absurd (ground (arith, idle run_id run e mine, live)))

pub remove_job-IsOwned :
    (s : JobStore) (job_id : String)
    → IsOwned s
    → Idle job_id s
    → IsOwned (record s { jobs = remove job_id s.jobs })
remove_job-IsOwned s job_id o idle = record {
  unique = o.unique;
  owned = λ run_id run e live.
      subst (λ q. holds_job run_id q ≡ true) (sym (get-remove job_id run.job_id s.jobs))
        (ground (
          arith,
          text_keys.decides job_id run.job_id,
          idle run_id run e,
          o.owned run_id run e live,
          live,
        ));
}

put_run_lem :
    (s : JobStore) (run_id r : String) (run x : JobRun)
    → (is_running run ≡ true → holds_job run_id (get run.job_id s.jobs) ≡ true)
    → (is_running x ≡ true → get r s.job_runs ≡ some x → holds_job r (get x.job_id s.jobs) ≡ true)
    → (if run_id == r then some run else get r s.job_runs) ≡ some x
    → is_running x ≡ true
    → holds_job r (get x.job_id s.jobs) ≡ true
put_run_lem s run_id r run x h k e live = elim (Bool-cases (run_id == r)) [
  | inl same ↦
      let e' : some run ≡ some x =
        subst (λ b. (if b then some run else get r s.job_runs) ≡ some x) same e in
      subst (λ q. holds_job q (get x.job_id s.jobs) ≡ true) ((text_keys.decides run_id r).0 same)
        (subst (λ q. is_running q ≡ true → holds_job run_id (get q.job_id s.jobs) ≡ true)
          (eq_of_some e') h live)
  | inr differs ↦
      k live (subst (λ b. (if b then some run else get r s.job_runs) ≡ some x) differs e)
]

pub put_run-IsOwned :
    (s : JobStore) (run_id : String) (run : JobRun)
    → IsOwned s
    → (is_running run ≡ true → holds_job run_id (get run.job_id s.jobs) ≡ true)
    → IsOwned (record s { job_runs = put run_id run s.job_runs })
put_run-IsOwned s run_id run o h = record {
  unique = put-IsUnique run_id run s.job_runs o.unique;
  owned = λ r x e live.
      put_run_lem s run_id r run x h (λ l f. o.owned r x f l)
        (sym (get-put run_id r run s.job_runs) ∙ e) live;
}

pub and_left : (a b : Bool) → (a && b) ≡ true → a ≡ true
and_left a b h = ground arith

pub and_right : (a b : Bool) → (a && b) ≡ true → b ≡ true
and_right a b h = ground arith

one_current :
    (current : Option String) (a b : String)
    → is_same current (some a) ≡ true
    → is_same current (some b) ≡ true
    → a ≡ b
one_current none a b h k = absurd (false≢true h)
one_current (some c) a b h k = sym ((text_keys.decides c a).0 h) ∙ (text_keys.decides c b).0 k

-- The row of a job tells whose run is running.
holder :
    (s : JobStore) (job_id run_id : String) (run : JobRun) (job : Job)
    → IsOwned s
    → get job_id s.jobs ≡ some job
    → get run_id s.job_runs ≡ some run
    → run.job_id ≡ job_id
    → is_running run ≡ true
    → is_running_for run_id job ≡ true
holder s job_id run_id run job o e f mine live =
    subst (λ q. holds_job run_id q ≡ true) (ap (λ j. get j s.jobs) mine ∙ e)
      (o.owned run_id run f live)

pub quiet_of_status :
    (s : JobStore) (job_id : String) (job : Job)
    → IsOwned s
    → get job_id s.jobs ≡ some job
    → same_status job.status running ≡ false
    → Idle job_id s
quiet_of_status s job_id job o e h run_id run f mine = elim (Bool-cases (is_running run)) [
  | inl live ↦
      let mine_now : is_running_for run_id job ≡ true =
        holder s job_id run_id run job o e f mine live in
      absurd (false≢true (sym h ∙ and_left _ _ mine_now))
  | inr dead ↦ dead
]

pub quiet_of_end :
    (s : JobStore) (job_id run_id : String) (job : Job)
    → IsOwned s
    → get job_id s.jobs ≡ some job
    → is_same job.current_run_id (some run_id) ≡ true
    → Ended job_id run_id s
    → Idle job_id s
quiet_of_end s job_id run_id job o e h ended r run f mine = elim (Bool-cases (is_running run)) [
  | inl live ↦
      let mine_now : is_running_for r job ≡ true = holder s job_id r run job o e f mine live in
      let same : r ≡ run_id = one_current job.current_run_id r run_id (and_right _ _ mine_now) h in
      ended run (subst (λ q. get q s.job_runs ≡ some run) same f) mine
  | inr dead ↦ dead
]

none_is_not_some :
    (current : Option String) (a : String)
    → is_same current none ≡ true
    → is_same current (some a) ≡ true
    → ⊥
none_is_not_some none a h k = false≢true k
none_is_not_some (some c) a h k = false≢true h

pub quiet_of_none :
    (s : JobStore) (job_id : String) (job : Job)
    → IsOwned s
    → get job_id s.jobs ≡ some job
    → is_same job.current_run_id none ≡ true
    → Idle job_id s
quiet_of_none s job_id job o e h r run f mine = elim (Bool-cases (is_running run)) [
  | inl live ↦ absurd (
      none_is_not_some job.current_run_id r h
        (and_right _ _ (holder s job_id r run job o e f mine live)))
  | inr dead ↦ dead
]

pub one_holder :
    (row : Option Job) (a b : String) → holds_job a row ≡ true → holds_job b row ≡ true → a ≡ b
one_holder none a b h k = absurd (false≢true h)
one_holder (some job) a b h k =
    one_current job.current_run_id a b (and_right _ _ h) (and_right _ _ k)
