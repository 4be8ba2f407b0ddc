-- ===== src/Examples/Resilience.antt =====
-- Tests and examples for the retries and the validation of src/scrapeyard/engine/resilience.py.
use scrapeyard.Prelude.{
  Option, none, ℕ, zero, suc, ◌<◌, ◌≡◌, refl, String, Bool, true, ◌&&◌, leb, arith, none, List, [],
  ◌∷◌, length, ◌==◌, text_keys,
}
use scrapeyard.Prelude.Dict.{get}
use scrapeyard.Resilience.Retry.{
  RetryHandler, exponential, delay_of, Outcome, returned, retryable, transient, Surroundings, value,
  raised, execute,
}
use scrapeyard.Resilience.Tries.{IsBounded, execute-IsBounded, MayPass, delays, execute_succeeds}
use scrapeyard.Resilience.Validator.{
  Check, Record, text, null, warn, ResultValidator, all_complete, has_passed, validate,
  validate-all_complete, has_required_field,
}

abbrev handler : RetryHandler
handler = record { max_attempts = 4; backoff = exponential; backoff_max = 3 }

-- Busy, then a lost connection, then a page.
abbrev calls : ℕ → Outcome String String
calls zero = retryable 503 "HTTP 503"
calls (suc zero) = transient "connection lost"
calls (suc (suc n)) = returned "page"

abbrev quiet : Surroundings String String
quiet = record { call = calls; checkpoint = λ _ _. none; sleep = λ _ _. none }

execute-IsBounded_example : IsBounded 4 3 3 (execute handler quiet)
execute-IsBounded_example = execute-IsBounded handler quiet

quiet_failures : (j : ℕ) → j < 2 → MayPass (calls j)
quiet_failures zero l = refl
quiet_failures (suc zero) l = tt
quiet_failures (suc (suc j)) l = absurd (omega arith)

execute_succeeds_example :
    execute handler quiet ≡ record { ending = value "page"; calls = 3; slept = delays handler 0 2 }
execute_succeeds_example =
    execute_succeeds handler quiet 2 "page"
      (record { no_stop = λ _ _. refl; no_wake = λ _ _. refl }) (omega arith) quiet_failures refl

-- A denial is not tried again.
denial_is_final :
    execute handler (record quiet { call = λ _. retryable 403 "HTTP 403" })
    ≡ record { ending = raised "HTTP 403"; calls = 1; slept = [] }
unfolding execute
denial_is_final = refl

-- What sleeps are made.
two_delays : delays handler 0 3 ≡ 1 ∷ 2 ∷ 3 ∷ []
unfolding delays delay_of
two_delays = refl

abbrev is_blank : String → Bool
is_blank t = t == ""

abbrev validator : ResultValidator
validator = record { required_fields = "name" ∷ "price" ∷ []; min_results = 1; on_empty = warn }

abbrev no_stops : Check → Option String
no_stops c = none

abbrev records : List Record
records =
    (("name", text "Anvil") ∷ ("price", null) ∷ ("pricing_visibility", text "cart_only") ∷ []) ∷ []

validate-all_complete_example :
    has_passed (validate is_blank validator no_stops records)
    ≡ (leb 1 (length records) && all_complete is_blank ("name" ∷ "price" ∷ []) records)
validate-all_complete_example =
    validate-all_complete is_blank validator no_stops records (λ _. refl)

hidden_price_passes : has_passed (validate is_blank validator no_stops records) ≡ true
unfolding validate has_required_field get
hidden_price_passes = refl
