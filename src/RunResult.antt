-- ===== src/RunResult.antt =====
-- What a worker makes of the results of a run's targets, src/scrapeyard/queue/worker.py: the records
-- and errors it collects, the status it gives the run, and whether the records are published.
pub mod Status
pub mod Artifact
pub mod Groups
use scrapeyard.Prelude.{
  ℕ, ◌+◌, String, Bool, true, false, ◌&&◌, ◌||◌, not, ltb, nat_eq, List, [], ◌∷◌, ◌++◌, length,
  if◌then◌else◌,
}
use scrapeyard.Resilience.Validator.{Record}
use scrapeyard.Target.{TargetResult, is_failed}
use scrapeyard.Jobs.{JobStatus, complete, partial, failed, same_status}

-- `FailStrategy.partial` has a name of its own beside the job's status.
pub data FailStrategy : Type 0 where
  keep_partial all_or_nothing continue : FailStrategy

-- Without what the result store answers.
pub record PersistedJobResult : Type 0 where
  pub final_status : JobStatus
  pub flat_data : List Record
  pub all_errors : List String

abbrev pub is_all_or_nothing : FailStrategy → Bool
is_all_or_nothing all_or_nothing = true
is_all_or_nothing _ = false

abbrev pub is_empty : {A : Type 0} → List A → Bool
is_empty [] = true
is_empty (_ ∷ _) = false

unfoldable pub publishes : FailStrategy → JobStatus → Bool
publishes strategy final = not (same_status final failed && is_all_or_nothing strategy)

unfoldable pub failed_count : List TargetResult → ℕ
failed_count [] = 0
failed_count (r ∷ rs) = let rest = failed_count rs in if is_failed r then 1 + rest else rest

unfoldable pub collect_data : List TargetResult → List Record
collect_data [] = []
collect_data (r ∷ rs) = r.data_items ++ collect_data rs

unfoldable pub collect_errors : List TargetResult → List String
collect_errors [] = []
collect_errors (r ∷ rs) = r.errors ++ collect_errors rs

unfoldable pub determine_final_status : FailStrategy → List TargetResult → List Record → JobStatus
unfolding failed_count
determine_final_status all_or_nothing rs flat = if ltb 0 (failed_count rs) then failed else complete
determine_final_status continue rs flat = if not (is_empty flat) then complete else failed
determine_final_status keep_partial rs flat =
    if nat_eq (failed_count rs) (length rs) || is_empty flat
    then failed
    else (if ltb 0 (failed_count rs) then partial else complete)

unfoldable pub persist_job_results : FailStrategy → List TargetResult → PersistedJobResult
unfolding collect_data collect_errors determine_final_status publishes
persist_job_results strategy rs =
    let final = determine_final_status strategy rs (collect_data rs) in
    record {
      final_status = final;
      flat_data = if publishes strategy final then collect_data rs else [];
      all_errors = collect_errors rs;
    }
