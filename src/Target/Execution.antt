-- ===== src/Target/Execution.antt =====
-- `_fetch_and_validate_target` of src/scrapeyard/queue/worker.py, with `guard_target_execution` and
-- `record_failed_target` of src/scrapeyard/queue/target_execution.py. The circuit breaker is asked
-- once, and its answer is an argument; what the task calls of it afterwards is in its reports.
use scrapeyard.Prelude.{
  ℕ, String, Bool, true, false, ◌&&◌, ◌||◌, not, Option, none, some, [], ◌∷◌, if◌then◌else◌,
}
use scrapeyard.Prelude.Dict.{Dict}
use scrapeyard.Circuit.{Admission, admitted, probing, refused}
use scrapeyard.Resilience.Validator.{Value, ResultValidator}
use scrapeyard.Target.{
  ErrorType, FetcherType, basic, stealthy, dynamic, TargetResult, target_failed, is_failed,
  is_self_imposed,
}
use scrapeyard.Target.Recorder.{
  action_fail, Work, Task, abort_report, call_breaker, record_circuit_break, record_success,
  record_target_failure, record_uncounted_failure,
}
use scrapeyard.Target.Action.{
  Raised, cancelled, ownership_lost, budget_exhausted, failure, Attempt, done, Action, pure, raise,
  ◌>>=◌, ◌>>◌, catch, modify, attempted, when, Surroundings, checkpoint, during_target_execution,
  browser_slot, after_target_fetch,
}
use scrapeyard.Target.Validation.{apply_validation}

-- What the run fixes for its targets: whether it replays recorded pages, and whether browsers are
-- limited.
pub record RunMode : Type 0 where
  pub replay : Bool
  pub has_browser_limiter : Bool

abbrev pub run_mode : Bool → Bool → RunMode
run_mode replay limiter = record { replay = replay; has_browser_limiter = limiter }

abbrev pub is_browser : FetcherType → Bool
is_browser basic = false
is_browser stealthy = true
is_browser dynamic = true

abbrev pub imposed : Option ErrorType → Bool
imposed none = false
imposed (some t) = is_self_imposed t

-- The probe is given back when a call has reported on it.
abbrev pub clear_probe : Work → Work
clear_probe w = record w { circuit_probe = none }

abbrev pub start : Work
start = record {
  circuit_probe = none;
  upstream_response_observed = false;
  pending_errors = [];
  reports = [];
}

module _ (k : Task) where
  -- A result with nothing but its errors.
  abbrev pub bare_failure : String → TargetResult
  bare_failure detail = record {
    url = k.url;
    status = target_failed;
    data_items = [];
    errors = detail ∷ [];
    pages_scraped = 0;
    error_type = none;
    http_status = none;
    error_detail = none;
    debug = none;
  }

  abbrev pub abort : Work → Work
  abort w = clear_probe (call_breaker (abort_report w.circuit_probe) w)

  unfoldable pub record_failed_target : TargetResult → Work → Work
  unfolding record_target_failure
  record_failed_target r w =
      clear_probe (record_target_failure k 1 action_fail r false w.circuit_probe true w)

  abbrev pub succeed : Work → Work
  succeed w = clear_probe (record_success k w.circuit_probe w)

  abbrev pub exception_result :
      ErrorType → Option ℕ → Option (Dict String Value) → String → TargetResult
  exception_result t status debug detail = record {
    url = k.url;
    status = target_failed;
    data_items = [];
    errors = detail ∷ [];
    pages_scraped = 0;
    error_type = some t;
    http_status = status;
    error_detail = some detail;
    debug = debug;
  }

  unfoldable pub target_exception_result :
      ErrorType → Option ℕ → Option (Dict String Value) → String → Action TargetResult
  unfolding record_failed_target
  target_exception_result t status debug detail = do
    modify (record_failed_target (exception_result t status debug detail))
    pure (exception_result t status debug detail)

  module _ (is_blank : String → Bool) (v : ResultValidator) (mode : RunMode)
      (s : Surroundings) where
    abbrev pub observe : Work → Work
    observe w = record w {
      upstream_response_observed = w.upstream_response_observed || s.is_observed;
    }

    abbrev pub after_scrape : TargetResult → Action TargetResult
    after_scrape r =
        if is_failed r
        then (if mode.replay || imposed r.error_type
            then (do modify abort; modify (record_uncounted_failure k r); pure r)
            else (modify (record_failed_target r) >> pure r))
        else (do
          when (not mode.replay) (modify succeed)
          modify clear_probe
          apply_validation k is_blank v mode.replay s r)

    unfoldable pub scrape_and_validate_target : Action TargetResult
    unfolding record_failed_target record_success record_uncounted_failure apply_validation
    scrape_and_validate_target = do
      modify observe
      r ← attempted s.scrape
      checkpoint s after_target_fetch
      after_scrape r

    abbrev pub needs_slot : Bool
    needs_slot = is_browser k.fetcher && not mode.replay && mode.has_browser_limiter

    abbrev pub run_target : Action TargetResult
    run_target = do
      checkpoint s during_target_execution
      when needs_slot (checkpoint s browser_slot)
      scrape_and_validate_target

    -- The `except` clauses.
    abbrev pub end_by : Raised → Action TargetResult
    end_by cancelled = modify abort >> raise cancelled
    end_by ownership_lost = modify abort >> raise ownership_lost
    end_by budget_exhausted = do
      modify (λ w. if w.upstream_response_observed then succeed w else abort w)
      raise budget_exhausted
    end_by (failure t status debug detail) = target_exception_result t status debug detail

    -- What `check` answers; in a replay it is not asked.
    abbrev pub admit_target : Admission → Action TargetResult
    admit_target admitted w = catch run_target end_by w
    admit_target (probing p) w = catch run_target end_by (record w { circuit_probe = some p })
    admit_target (refused d left) w =
        (done (bare_failure (k.texts.open_text d left)), record_circuit_break k w)

    unfoldable pub fetch_and_validate_target : Admission → Attempt TargetResult × Work
    unfolding record_circuit_break scrape_and_validate_target target_exception_result record_success
    fetch_and_validate_target a =
        if mode.replay then catch run_target end_by start else admit_target a start
