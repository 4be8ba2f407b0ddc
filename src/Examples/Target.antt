-- ===== src/Examples/Target.antt =====
-- Tests and examples for the execution of a target: src/scrapeyard/queue/worker.py,
-- src/scrapeyard/queue/validation_policy.py and src/scrapeyard/queue/error_records.py.
use scrapeyard.Prelude.{
  String, ◌≡◌, refl, Bool, true, false, Option, none, some, List, [], ◌∷◌, ◌==◌, text_keys, arith,
}
use scrapeyard.Prelude.Int.{pos, ◌-ℤ◌}
use scrapeyard.Prelude.Dict.{get, keep}
use scrapeyard.Circuit.{
  CircuitBreaker, Admission, admitted, probing, opened, check, run, step, prune_inactive_closed,
  Call, success_call, failure_call,
}
use scrapeyard.Circuit.Probe.{the_probe}
use scrapeyard.Resilience.Validator
use scrapeyard.Resilience.Validator.{
  Record, text, null, Message, ResultValidator, OnEmptyAction, Check, validate, has_value,
  has_required_field,
}
use scrapeyard.Target.{
  ErrorType, stealthy, TargetStatus, success, TargetResult, content_empty, network_error,
}
use scrapeyard.Target.Recorder.{
  circuit_breaker_failure, failure_report, Task, Texts, Work, success_report, abort_report,
  action_retry, fetcher,
}
use scrapeyard.Target.Action.{failure, Attempt, done, raised, Raised, cancelled, Surroundings}
use scrapeyard.Target.Execution.{RunMode, run_mode, fetch_and_validate_target}
use scrapeyard.Target.Ledger.{ledger, granted}
use scrapeyard.Target.Probe.{probe_given_back}
use scrapeyard.Target.Judged.{result_is_accounted}
use scrapeyard.Target.Accounted.{is_accounted}
use scrapeyard.Target.Release.{HasReport, call_of, next_answer, target_releases_domain}

abbrev plain : Texts
plain = record {
  redact_url = λ u. u;
  redact_text = λ t. t;
  message_text = λ m. "incomplete";
  open_text = λ d t. "circuit open";
}

abbrev task : Task
task = record {
  texts = plain;
  job_id = "job";
  run_id = some "run";
  project = "shop";
  url = "https://a.example/";
  domain = "a";
  fetcher = stealthy;
}

abbrev page : TargetStatus → List Record → Option ErrorType → TargetResult
page status rows kind = record {
  url = "https://a.example/";
  status = status;
  data_items = rows;
  errors = [];
  pages_scraped = 1;
  error_type = kind;
  http_status = none;
  error_detail = none;
  debug = none;
}

abbrev empty_page : TargetResult
empty_page = page success [] none

abbrev full_page : TargetResult
full_page = page success ((("name", text "bolt") ∷ []) ∷ []) none

abbrev validator : OnEmptyAction → ResultValidator
validator action = record { required_fields = "name" ∷ []; min_results = 1; on_empty = action }

abbrev is_blank : String → Bool
is_blank t = t == ""

abbrev never : Check → Option Raised
never c = none

abbrev smooth : Attempt TargetResult → Attempt TargetResult → Surroundings
smooth first second = record {
  scrape = first;
  scrape_again = second;
  is_observed = true;
  point = λ p. none;
  late = never;
  late_again = never;
}

abbrev live : RunMode
live = run_mode false true

abbrev the_task : OnEmptyAction → Surroundings → Admission → Attempt TargetResult × Work
the_task action = fetch_and_validate_target task is_blank (validator action) live

-- The retry finds what the first page lacked; the record of the first failure is resolved.
abbrev corrected : Surroundings
corrected = smooth (done empty_page) (done full_page)

retry_corrects : the_task Validator.retry corrected admitted ≡ (
  done full_page,
  record {
    circuit_probe = none;
    upstream_response_observed = true;
    pending_errors =
        record {
          job_id = "job";
          run_id = "run";
          project = "shop";
          target_url = "https://a.example/";
          attempt = 1;
          error_type = content_empty;
          http_status = none;
          fetcher_used = fetcher stealthy;
          error_message = some "incomplete";
          action_taken = action_retry;
          resolved = true;
        }
        ∷ [];
    reports = success_report none ∷ success_report none ∷ [];
  },
)
unfolding fetch_and_validate_target validate has_value has_required_field get
retry_corrects = refl

-- A run that is cancelled in the fetch gives the probe back by an abort.
abbrev stopped_fetch : Surroundings
stopped_fetch = smooth (raised cancelled) (raised cancelled)

cancelled_reports :
    (the_task Validator.retry stopped_fetch (probing (the_probe "a" 1))).1.reports
    ≡ abort_report (some (the_probe "a" 1)) ∷ []
unfolding fetch_and_validate_target
cancelled_reports = refl

-- An exception in a replay counts against the domain, though nothing was requested from it.
abbrev disk_full : Surroundings
disk_full =
    smooth (raised (failure network_error none none "OSError: disk full")) (raised cancelled)

replay_counts :
    (fetch_and_validate_target task is_blank
      (validator Validator.retry)
      (run_mode true true)
      disk_full
      admitted).1.reports
    ≡ failure_report none ∷ []
unfolding fetch_and_validate_target circuit_breaker_failure
replay_counts = refl

probe_given_back_example :
    ledger (the_task Validator.retry corrected (probing (the_probe "a" 1))).1
    ≡ (granted false (probing (the_probe "a" 1)), none)
probe_given_back_example =
    probe_given_back task is_blank (validator Validator.retry) live corrected
      (probing (the_probe "a" 1))

corrected_returns :
    the_task Validator.retry corrected admitted
    ≡ (done full_page, (the_task Validator.retry corrected admitted).1)
unfolding fetch_and_validate_target validate has_value has_required_field get
corrected_returns = refl

result_is_accounted_example :
    is_accounted is_blank
      (validator Validator.retry)
      full_page
      (the_task Validator.retry corrected admitted).1.pending_errors
    ≡ true
result_is_accounted_example =
    result_is_accounted task is_blank (validator Validator.retry) live corrected admitted full_page
      (the_task Validator.retry corrected admitted).1 corrected_returns

-- "a" is open since 3.
abbrev tripped : CircuitBreaker
tripped = record {
  max_failures = 2;
  cooldown = 30;
  max_domains = 4;
  inactive_ttl = 3600;
  circuits =
      (
        "a",
        record {
          state = opened;
          failures = 2;
          opened_at = pos 3;
          generation = 0;
          last_accessed_at = pos 3;
        },
      )
      ∷ [];
}

check_cooled : (check tripped "a" (pos 33)).0 ≡ probing (the_probe "a" 1)
unfolding check prune_inactive_closed get keep ◌-ℤ◌
check_cooled = refl

abbrev strangers : List Call
strangers = success_call "a" none (pos 34) ∷ failure_call "b" none (pos 35) ∷ []

target_releases_domain_example :
    (q : HasReport
      (the_probe "a" 1)
      (the_task Validator.retry stopped_fetch (probing (the_probe "a" 1))).1.reports)
    × ((check
          (step (run (check tripped "a" (pos 33)).1 strangers) (call_of "a" q.report (pos 40)))
          "a"
          (pos 75)).0
        ≡ next_answer
            (run (check tripped "a" (pos 33)).1 strangers).cooldown
            (the_probe "a" 1)
            (pos 75 -ℤ pos 40)
            q.report)
unfolding get
target_releases_domain_example =
    target_releases_domain task is_blank (validator Validator.retry) true stopped_fetch tripped
      (pos 33) (pos 40) (pos 75) (the_probe "a" 1) strangers (refl, tt) check_cooled
      ((λ e. cc), ((λ e. cc), tt)) (omega arith)
