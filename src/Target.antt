-- ===== src/Target.antt =====
-- The execution of one target of a run: what a target's fetch is and how it ends, from
-- src/scrapeyard/models/job.py and src/scrapeyard/engine/scrape_models.py. The child modules have
-- src/scrapeyard/queue/error_records.py, src/scrapeyard/queue/validation_policy.py, and
-- `_fetch_and_validate_target` of src/scrapeyard/queue/worker.py.
pub mod Recorder
pub mod Action
pub mod Validation
pub mod Execution
pub mod Ledger
pub mod Probe
pub mod Sound
pub mod Judged
pub mod Release
pub mod Accounted
pub mod Passing
use scrapeyard.Prelude.{ℕ, String, Bool, true, false, Option, none, some, List, [], ◌∷◌, text_keys}
use scrapeyard.Prelude.Dict.{Dict, get}
use scrapeyard.Resilience.Validator.{Record, Value, text}

pub data ErrorType : Type 0 where
  content_empty blocked_response challenge_page consent_gate login_gate rendered_empty : ErrorType
  selector_miss selector_engine_error navigation_timeout proxy_rejected http_not_found : ErrorType
  http_error network_error browser_error timeout budget_exceeded cache_miss : ErrorType
  domain_daily_limit domain_cooldown : ErrorType

-- The values of the enumeration.
abbrev pub error_types : Dict String ErrorType
error_types =
    ("content_empty", content_empty)
    ∷ ("blocked_response", blocked_response)
    ∷ ("challenge_page", challenge_page)
    ∷ ("consent_gate", consent_gate)
    ∷ ("login_gate", login_gate)
    ∷ ("rendered_empty", rendered_empty)
    ∷ ("selector_miss", selector_miss)
    ∷ ("selector_engine_error", selector_engine_error)
    ∷ ("navigation_timeout", navigation_timeout)
    ∷ ("proxy_rejected", proxy_rejected)
    ∷ ("http_not_found", http_not_found)
    ∷ ("http_error", http_error)
    ∷ ("network_error", network_error)
    ∷ ("browser_error", browser_error)
    ∷ ("timeout", timeout)
    ∷ ("budget_exceeded", budget_exceeded)
    ∷ ("cache_miss", cache_miss)
    ∷ ("domain_daily_limit", domain_daily_limit)
    ∷ ("domain_cooldown", domain_cooldown)
    ∷ []

-- `ACCESS_DENIAL_TYPES` and `SELF_IMPOSED_ERROR_TYPES`.
abbrev pub is_access_denial : ErrorType → Bool
is_access_denial blocked_response = true
is_access_denial challenge_page = true
is_access_denial consent_gate = true
is_access_denial login_gate = true
is_access_denial _ = false

abbrev pub is_self_imposed : ErrorType → Bool
is_self_imposed cache_miss = true
is_self_imposed domain_daily_limit = true
is_self_imposed domain_cooldown = true
is_self_imposed _ = false

pub data FetcherType : Type 0 where
  basic stealthy dynamic : FetcherType

-- `TargetStatus.failed` has a name of its own beside the job's status.
pub data TargetStatus : Type 0 where
  success target_failed : TargetStatus

-- Without the stop reason of the pagination and the time of recording.
pub record TargetResult : Type 0 where
  pub url : String
  pub status : TargetStatus
  pub data_items : List Record
  pub errors : List String
  pub pages_scraped : ℕ
  pub error_type : Option ErrorType
  pub http_status : Option ℕ
  pub error_detail : Option String
  pub debug : Option (Dict String Value)

abbrev pub has_failed : TargetStatus → Bool
has_failed target_failed = true
has_failed success = false

abbrev pub is_failed : TargetResult → Bool
is_failed r = has_failed r.status

-- `ErrorType(classification)`; nothing for a `ValueError` or no classification.
abbrev pub classified : Option Value → Option ErrorType
classified (some (text t)) = get t error_types
classified _ = none

abbrev pub debug_class : Option (Dict String Value) → Option ErrorType
debug_class none = none
debug_class (some debug) = classified (get "classification" debug)

abbrev pub or_else : {A : Type 0} → Option A → A → A
or_else none d = d
or_else (some a) d = a

abbrev pub first_type : Option ErrorType → Option ErrorType → ErrorType
first_type (some t) _ = t
first_type none o = or_else o content_empty

unfoldable pub validation_error_type : TargetResult → ErrorType
validation_error_type r = first_type r.error_type (debug_class r.debug)
