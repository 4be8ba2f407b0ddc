-- ===== src/Examples/RunResult.antt =====
-- Tests and examples for the results of runs of src/scrapeyard/queue/worker.py.
use scrapeyard.Resilience.Validator.{Record, text}
use scrapeyard.Target.{TargetStatus, success, target_failed, TargetResult}
use scrapeyard.Prelude.Int.{pos, ◌+ℤ◌}
use scrapeyard.Budget.{
  ◌>>◌, RunBudget, done, Readings, reserve_estimated_result_bytes, check_deadline,
}
use scrapeyard.Prelude.{
  map, ℕ, none, some, text_keys, ◌≡◌, refl, String, true, List, [], ◌∷◌, if◌then◌else◌,
}
use scrapeyard.Jobs.{complete, partial, failed, is_terminal}
use scrapeyard.RunResult.{
  keep_partial, all_or_nothing, continue, collect_data, collect_errors, persist_job_results,
}
use scrapeyard.Prelude.Dict.{Dict, IsUnique, get, put}
use scrapeyard.Prelude.Decimal.{decimal}
use scrapeyard.RunResult.Artifact.{Labels, TargetOutput, target_output, reserve, group_results}
use scrapeyard.RunResult.Groups.{outputs, reserve_each, group_results_lem}
use scrapeyard.RunResult.Status.{verdict, is_withheld, persist_job_results_lem}

abbrev item : String → Record
item name = ("name", text name) ∷ []

abbrev target : TargetStatus → List Record → List String → TargetResult
target status data_items errors = record {
  url = "https://a.example/";
  status = status;
  data_items = data_items;
  errors = errors;
  pages_scraped = 1;
  error_type = none;
  http_status = none;
  error_detail = none;
  debug = none;
}

abbrev found : TargetResult
found = target success (item "one" ∷ item "two" ∷ []) []

abbrev lost : TargetResult
lost = target target_failed (item "three" ∷ []) ("timeout" ∷ [])

abbrev results : List TargetResult
results = found ∷ lost ∷ []

partly_found : (persist_job_results keep_partial results).final_status ≡ partial
unfolding persist_job_results
partly_found = refl

nothing_kept :
    persist_job_results all_or_nothing results
    ≡ record { final_status = failed; flat_data = []; all_errors = "timeout" ∷ [] }
unfolding persist_job_results
nothing_kept = refl

all_kept : persist_job_results continue results ≡ record {
  final_status = complete;
  flat_data = item "one" ∷ item "two" ∷ item "three" ∷ [];
  all_errors = "timeout" ∷ [];
}
unfolding persist_job_results
all_kept = refl

persist_job_results_lem_example :
    (persist_job_results all_or_nothing results ≡ record {
      final_status = verdict all_or_nothing results;
      flat_data = if is_withheld all_or_nothing results then [] else collect_data results;
      all_errors = collect_errors results;
    })
    × (is_terminal (persist_job_results all_or_nothing results).final_status ≡ true)
persist_job_results_lem_example = persist_job_results_lem all_or_nothing results

-- Three targets of one host, and a budget of a thousand bytes.
abbrev plain : Labels
plain = record {
  url_host_label = λ u. "a";
  redact_detail = λ d. d;
  redact_debug = λ d. d;
  empty_size = pos 14;
  output_size = λ key output. pos 60;
}

abbrev budget : RunBudget
budget = record {
  max_duration = 10;
  max_requests = pos 5;
  max_fetched_bytes = pos 100;
  max_extracted_records = pos 20;
  max_serialized_result_bytes = pos 1000;
  max_browser_debug_bytes = pos 50;
  started = 0;
  deadline = 10;
  used_requests = pos 0;
  used_fetched_bytes = pos 0;
  used_extracted_records = pos 0;
  used_browser_debug_bytes = pos 0;
  estimated_result_bytes = pos 0;
  exhausted = none;
}

abbrev clock : ℕ → Readings × Readings
clock n = ((n, n), (n, n))

three_keys :
    (group_results plain clock (found ∷ lost ∷ found ∷ []) budget).0
    ≡ done (
        some (
          ("a", target_output plain found)
          ∷ ("a#2", target_output plain lost)
          ∷ ("a#3", target_output plain found)
          ∷ []))
unfolding group_results decimal get put reserve_estimated_result_bytes check_deadline ◌+ℤ◌
three_keys = refl

group_results_lem_example :
    (grouped : Dict String TargetOutput) × (outputs grouped
      ≡ map (target_output plain) (found ∷ lost ∷ found ∷ []))
    × IsUnique grouped
    × (group_results plain clock (found ∷ lost ∷ found ∷ []) budget
        ≡ (reserve plain clock 0 plain.empty_size
              >> reserve_each plain clock 1 grouped (some grouped))
            budget)
group_results_lem_example = group_results_lem plain clock (found ∷ lost ∷ found ∷ []) budget
