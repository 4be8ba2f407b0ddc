-- ===== src/Target/Validation.antt =====
-- `apply_validation` of src/scrapeyard/queue/validation_policy.py. The records are checked by the
-- `ResultValidator` of Resilience/Validator. The record of the failure that a retry corrects is the
-- last one when it is marked, so it is found by its place in the list of pending errors.
use scrapeyard.Prelude.{
  ℕ, zero, suc, String, Bool, true, not, Option, none, some, List, [], ◌∷◌, ◌++◌, length,
  if◌then◌else◌,
}
use scrapeyard.Resilience.Validator
use scrapeyard.Resilience.Validator.{
  Check, Record, Message, OnEmptyAction, ResultValidator, Validation, ValidationResult, result,
  stopped, validate,
}
use scrapeyard.Target.{
  TargetResult, success, target_failed, is_failed, is_access_denial, validation_error_type,
}
use scrapeyard.Target.Recorder.{
  ActionTaken, action_retry, action_warn, action_fail, action_skip, ErrorRecord, Work, Task,
  record_success, record_target_failure, record_validation_failure,
}
use scrapeyard.Target.Action.{
  Raised, Attempt, done, raised, Action, pure, ◌>>=◌, ◌>>◌, modify, attempted, when, Surroundings,
  checkpoint, before_validation_retry, after_validation_retry,
}

-- `ActionTaken(validation.action.value)`.
abbrev pub action_of : OnEmptyAction → ActionTaken
action_of Validator.retry = action_retry
action_of Validator.warn = action_warn
action_of Validator.fail = action_fail
action_of Validator.skip = action_skip

abbrev pub validated : Validation Raised → Attempt ValidationResult
validated (result v) = done v
validated (stopped e) = raised e

-- `retry_error.resolved = True`.
unfoldable pub resolve_at : ℕ → List ErrorRecord → List ErrorRecord
resolve_at n [] = []
resolve_at zero (e ∷ es) = record e { resolved = true } ∷ es
resolve_at (suc n) (e ∷ es) = e ∷ resolve_at n es

abbrev pub resolve : ℕ → Work → Work
resolve n w = record w { pending_errors = resolve_at n w.pending_errors }

module _ (k : Task) where
  abbrev pub handle_warn_action : TargetResult → Message → TargetResult
  handle_warn_action r m = record r { errors = r.errors ++ (k.texts.message_text m ∷ []) }

  abbrev pub handle_skip_action : TargetResult → Message → TargetResult
  handle_skip_action r m = record {
    url = k.url;
    status = success;
    data_items = [];
    errors = k.texts.message_text m ∷ [];
    pages_scraped = r.pages_scraped;
    error_type = none;
    http_status = none;
    error_detail = none;
    debug = r.debug;
  }

  unfoldable pub build_validation_failed_result : TargetResult → Message → TargetResult
  build_validation_failed_result r m = record {
    url = k.url;
    status = target_failed;
    data_items = [];
    errors = k.texts.message_text m ∷ [];
    pages_scraped = r.pages_scraped;
    error_type = some (validation_error_type r);
    http_status = none;
    error_detail = some (k.texts.message_text m);
    debug = r.debug;
  }

  module _ (is_blank : String → Bool) (v : ResultValidator) (replay : Bool) (s : Surroundings) where
    abbrev pub validate_result : (Check → Option Raised) → List Record → Action ValidationResult
    validate_result late rs = attempted (validated (validate is_blank v late rs))

    abbrev pub fail_validation : ℕ → TargetResult → Message → Action TargetResult
    fail_validation attempt r m = do
      modify (record_validation_failure k attempt r action_fail m)
      pure (build_validation_failed_result r m)

    abbrev pub after_second_validation : ℕ → TargetResult → ValidationResult → Action TargetResult
    after_second_validation n r x =
        if x.passed then (modify (resolve n) >> pure r) else fail_validation 2 r x.message

    abbrev pub after_retry : ℕ → TargetResult → Action TargetResult
    after_retry n r =
        if is_failed r
        then (modify (record_target_failure k 2 action_fail r true none (not replay)) >> pure r)
        else (do
          when (not replay) (modify (record_success k none))
          x ← validate_result s.late_again r.data_items
          after_second_validation n r x)

    unfoldable pub retry_after_validation_failure : ℕ → Action TargetResult
    unfolding record_target_failure record_success validate record_validation_failure
        build_validation_failed_result resolve_at
    retry_after_validation_failure n = do
      r ← attempted s.scrape_again
      checkpoint s after_validation_retry
      after_retry n r

    -- After the failure is recorded; `n` is the place of its record.
    abbrev pub take_action : OnEmptyAction → ℕ → TargetResult → Message → Action TargetResult
    take_action Validator.warn n r m = pure (handle_warn_action r m)
    take_action Validator.skip n r m = pure (handle_skip_action r m)
    take_action Validator.fail n r m = pure (build_validation_failed_result r m)
    take_action Validator.retry n r m =
        checkpoint s before_validation_retry >> retry_after_validation_failure n

    abbrev pub after_validation : TargetResult → ValidationResult → Action TargetResult
    after_validation r x w =
        if x.passed
        then (done r, w)
        else if is_access_denial (validation_error_type r)
        then fail_validation 1 r x.message w
        else (do
          modify (record_validation_failure k 1 r (action_of x.action) x.message)
          take_action x.action (length w.pending_errors) r x.message)
            w

    unfoldable pub apply_validation : TargetResult → Action TargetResult
    unfolding retry_after_validation_failure validate
    apply_validation r =
        if is_failed r
        then pure r
        else (do x ← validate_result s.late r.data_items; after_validation r x)
