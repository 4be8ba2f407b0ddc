-- ===== src/RunResult/Artifact.antt =====
-- The results of a run grouped by target, the last part of `_format_output` of
-- src/scrapeyard/queue/worker.py, with `_target_result_details` and `_unique_result_group_key`. The host
-- label of a URL, the redaction of texts and debug data, and the sizes of JSON texts are parameters.
-- Every reservation of estimated bytes in the run's budget is given its two readings of the clock.
use Prim.Native.String.{◌++◌ as ◌++ᵗ◌}
use scrapeyard.Prelude.{
  ℕ, zero, suc, ◌+◌, String, Option, none, some, List, [], ◌∷◌, length, text_keys,
}
use scrapeyard.Prelude.Decimal.{decimal}
use scrapeyard.Prelude.Dict.{Dict, get, put}
use scrapeyard.Prelude.Int.{ℤ}
use scrapeyard.Budget.{done, Method, ◌>>◌, Readings, reserve_estimated_result_bytes}
use scrapeyard.Resilience.Validator.{Record, Value}
use scrapeyard.Target.{ErrorType, TargetStatus, TargetResult}

-- Without the pagination and the time of recording.
pub record TargetOutput : Type 0 where
  pub status : TargetStatus
  pub count : ℕ
  pub observed_count : ℕ
  pub debug : Option (Dict String Value)
  pub error_type : Option ErrorType
  pub error_detail : Option String
  pub data_items : List Record

-- `url_host_label`, the redaction of error details and of debug data, and `compact_json_size` of no
-- results and of a target's entry without its records.
pub record Labels : Type 0 where
  pub url_host_label : String → String
  pub redact_detail : Option String → Option String
  pub redact_debug : Option (Dict String Value) → Option (Dict String Value)
  pub empty_size : ℤ
  pub output_size : String → TargetOutput → ℤ

abbrev pub numbered_key : String → ℕ → String
numbered_key base index = base ++ᵗ ("#" ++ᵗ decimal index)

-- The key if nothing is stored under it, and otherwise the rest of the search.
abbrev pub key_unless : {V : Type 0} → Option V → String → Option String → Option String
key_unless none key rest = some key
key_unless (some _) key rest = rest

-- The `while` loop, with fuel.
unfoldable pub next_key : {V : Type 0} → ℕ → String → ℕ → Dict String V → Option String
next_key zero base index grouped = none
next_key (suc fuel) base index grouped =
    key_unless (get (numbered_key base index) grouped) (numbered_key base index)
      (next_key fuel base (index + 1) grouped)

-- One round for each key that is taken, and one more.
unfoldable pub unique_result_group_key : {V : Type 0} → Dict String V → String → Option String
unfolding next_key
unique_result_group_key grouped base =
    key_unless (get base grouped) base (next_key (suc (length grouped)) base 2 grouped)

-- What follows when the search returns a key.
abbrev pub under_key :
    {A : Type 0} → Option String → (String → Method (Option A)) → Method (Option A)
under_key none f b = (done none, b)
under_key (some key) f b = f key b

module _ (x : Labels) where
  unfoldable pub target_output : TargetResult → TargetOutput
  target_output r = record {
    status = r.status;
    count = length r.data_items;
    observed_count = length r.data_items;
    debug = x.redact_debug r.debug;
    error_type = r.error_type;
    error_detail = x.redact_detail r.error_detail;
    data_items = r.data_items;
  }

  module _ (clock : ℕ → Readings × Readings) where
    -- The reservation with number `n`.
    abbrev pub reserve : ℕ → ℤ → Method (Unit {0})
    reserve n size = reserve_estimated_result_bytes size (clock n).0 (clock n).1

    unfoldable pub add_results :
        ℕ
        → List TargetResult
        → Dict String TargetOutput
        → Method (Option (Dict String TargetOutput))
    unfolding unique_result_group_key target_output
    add_results n [] grouped b = (done (some grouped), b)
    add_results n (r ∷ rs) grouped b =
        under_key (unique_result_group_key grouped (x.url_host_label r.url))
          (λ key.
            reserve n (x.output_size key (target_output r))
            >> add_results (n + 1) rs (put key (target_output r) grouped))
          b

    unfoldable pub group_results : List TargetResult → Method (Option (Dict String TargetOutput))
    unfolding add_results
    group_results rs = reserve 0 x.empty_size >> add_results 1 rs []
