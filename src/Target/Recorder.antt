-- ===== src/Target/Recorder.antt =====
-- Error records and the recorder of src/scrapeyard/queue/error_records.py. The recorder's calls of the
-- circuit breaker are noted in order, without their readings of the clock. What is written to the
-- error store is the list of pending errors. Redaction and the texts of messages are parameters.
use scrapeyard.Prelude.{
  ℕ, String, Bool, true, false, ◌&&◌, ◌||◌, not, nat_eq, leb, Option, none, some, List, [], ◌∷◌,
  ◌++◌, map, ◌==◌, text_keys, if◌then◌else◌,
}
use Prim.Native.String.{◌++◌ as ◌++ᵗ◌}
use scrapeyard.Prelude.Int.{ℤ}
use scrapeyard.Circuit.{CircuitProbe}
use scrapeyard.Resilience.Validator.{Message}
use scrapeyard.Target.{
  ErrorType, network_error, timeout, navigation_timeout, http_error, FetcherType, TargetResult,
  validation_error_type, or_else,
}

-- The names stand apart from those of the action on an empty result.
pub data ActionTaken : Type 0 where
  action_retry action_warn action_fail action_skip circuit_break : ActionTaken

-- The name of the fetcher, or of the breaker in its place.
pub data FetcherUsed : Type 0 where
  fetcher : FetcherType → FetcherUsed
  circuit_breaker : FetcherUsed

-- Without the time, the selectors and the budget's details, which no modelled code sets.
pub record ErrorRecord : Type 0 where
  pub job_id : String
  pub run_id : String
  pub project : String
  pub target_url : String
  pub attempt : ℕ
  pub error_type : ErrorType
  pub http_status : Option ℕ
  pub fetcher_used : FetcherUsed
  pub error_message : Option String
  pub action_taken : ActionTaken
  pub resolved : Bool

-- A call of the circuit breaker about the target's domain, with the probe it reports on.
pub data Report : Type 0 where
  success_report failure_report abort_report : Option CircuitProbe → Report

-- What a target's task changes: the probe it holds, whether a response was seen, the errors to be
-- written, and the calls of the breaker.
pub record Work : Type 0 where
  pub circuit_probe : Option CircuitProbe
  pub upstream_response_observed : Bool
  pub pending_errors : List ErrorRecord
  pub reports : List Report

-- Texts: the redaction of URLs and messages, the message of a validation, and of an open circuit.
pub record Texts : Type 0 where
  pub redact_url : String → String
  pub redact_text : String → String
  pub message_text : Message → String
  pub open_text : String → ℤ → String

-- What is fixed for a task: the recorder's job, run and project, and the target's URL, domain and
-- fetcher.
pub record Task : Type 0 where
  pub texts : Texts
  pub job_id : String
  pub run_id : Option String
  pub project : String
  pub url : String
  pub domain : String
  pub fetcher : FetcherType

abbrev pub or_text : Option String → String → String
or_text none d = d
or_text (some t) d = if t == "" then d else t

abbrev pub joined : String → List String → String
joined t [] = t
joined t (u ∷ us) = joined (t ++ᵗ ("; " ++ᵗ u)) us

abbrev pub join : List String → String
join [] = ""
join (t ∷ ts) = joined t ts

abbrev pub redacted : Texts → Option String → Option String
redacted x none = none
redacted x (some t) = some (x.redact_text t)

-- The failures that count against the availability of the upstream.
abbrev pub is_outage_status : ℕ → Bool
is_outage_status s = nat_eq s 429 || leb 500 s && leb s 599

abbrev pub is_outage_type : Option ErrorType → Bool
is_outage_type (some network_error) = true
is_outage_type (some timeout) = true
is_outage_type (some navigation_timeout) = true
is_outage_type _ = false

abbrev pub is_outage : Option ℕ → Option ErrorType → Bool
is_outage (some s) _ = is_outage_status s
is_outage none t = is_outage_type t

unfoldable pub circuit_breaker_failure : TargetResult → Bool
circuit_breaker_failure r = is_outage r.http_status r.error_type

-- The messages of a failed target, one record each; there is at least one.
abbrev pub messages : Bool → Option String → List String → List String
messages combine detail [] = or_text detail "unknown scrape failure" ∷ []
messages true detail (e ∷ es) = or_text detail (join (e ∷ es)) ∷ []
messages false detail (e ∷ es) = e ∷ es

abbrev pub add_errors : List ErrorRecord → Work → Work
add_errors es w = record w { pending_errors = w.pending_errors ++ es }

abbrev pub call_breaker : Report → Work → Work
call_breaker r w = record w { reports = w.reports ++ (r ∷ []) }

module _ (k : Task) where
  unfoldable pub build_error_record :
      ℕ → ErrorType → Option ℕ → FetcherUsed → ActionTaken → Option String → ErrorRecord
  build_error_record attempt error_type http_status used action message = record {
    job_id = k.job_id;
    run_id = or_else k.run_id "";
    project = k.project;
    target_url = k.texts.redact_url k.url;
    attempt = attempt;
    error_type = error_type;
    http_status = http_status;
    fetcher_used = used;
    error_message = redacted k.texts message;
    action_taken = action;
    resolved = false;
  }

  unfoldable pub build_target_result_error_records :
      ℕ → ActionTaken → TargetResult → Bool → List ErrorRecord
  unfolding build_error_record
  build_target_result_error_records attempt action r combine =
      map
        (λ message.
          build_error_record attempt (or_else r.error_type http_error) r.http_status
            (fetcher k.fetcher) action (some message))
        (messages combine r.error_detail r.errors)

  unfoldable pub record_circuit_break : Work → Work
  unfolding build_error_record
  record_circuit_break w =
      add_errors (build_error_record 0 network_error none circuit_breaker circuit_break none ∷ []) w

  unfoldable pub record_success : Option CircuitProbe → Work → Work
  record_success probe w = call_breaker (success_report probe) w

  -- A failure that does not count still answers a probe.
  abbrev pub answer_probe : Option CircuitProbe → Work → Work
  answer_probe none w = w
  answer_probe (some p) w = call_breaker (success_report (some p)) w

  unfoldable pub record_target_failure :
      ℕ → ActionTaken → TargetResult → Bool → Option CircuitProbe → Bool → Work → Work
  unfolding build_target_result_error_records
  record_target_failure attempt action r combine probe update_circuit w =
      let w' = add_errors (build_target_result_error_records attempt action r combine) w in
      if not update_circuit
      then w'
      else if circuit_breaker_failure r
      then call_breaker (failure_report probe) w'
      else answer_probe probe w'

  unfoldable pub record_uncounted_failure : TargetResult → Work → Work
  unfolding build_target_result_error_records
  record_uncounted_failure r w =
      add_errors (build_target_result_error_records 1 action_skip r false) w

  unfoldable pub record_validation_failure : ℕ → TargetResult → ActionTaken → Message → Work → Work
  unfolding build_error_record validation_error_type
  record_validation_failure attempt r action message w =
      add_errors
        (build_error_record attempt (validation_error_type r) none (fetcher k.fetcher) action
            (some (k.texts.message_text message))
          ∷ [])
        w
