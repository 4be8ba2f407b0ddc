-- ===== src/Target/Passing.antt =====
-- What `apply_validation` of src/scrapeyard/queue/validation_policy.py returns: a failure that is on
-- record, or a success that it lets pass.
use scrapeyard.Prelude.{
  ℕ, String, ◌≡◌, refl, subst, Bool, true, false, ◌||◌, not, length, Bool-cases, inl, inr, Option,
  none, List, [],
}
use scrapeyard.Resilience.Validator
use scrapeyard.Resilience.Validator.{
  Record, ResultValidator, ValidationResult, Validation, result, stopped, OnEmptyAction, Message,
  Check, validate,
}
use scrapeyard.Target.{TargetResult, is_failed, is_access_denial, validation_error_type}
use scrapeyard.Target.Recorder.{
  ErrorRecord, Work, Task, action_fail, record_success, record_validation_failure,
}
use scrapeyard.Target.Action.{
  Raised, done, bound, ◌>>◌, after_validation_retry, before_validation_retry, Surroundings,
  checkpoint,
}
use scrapeyard.Target.Validation.{
  action_of, validated, build_validation_failed_result, fail_validation, after_second_validation,
  after_retry, retry_after_validation_failure, take_action, after_validation, apply_validation,
}
use scrapeyard.Target.Sound.{is_complete, Answers, Says, validate-Says}
use scrapeyard.Target.Accounted.{
  is_empty, is_accounted, append_more, or_true, Accounted, done_inj, Accounted-bound,
  lost-is_accounted, checked-Accounted, target_failure-on_record,
}

module _ (k : Task) where
  module _ (is_blank : String → Bool) (v : ResultValidator) (replay : Bool) (s : Surroundings) where
    fail_validation-Accounted :
        (attempt : ℕ) (r : TargetResult) (m : Message) (w : Work)
        → Accounted is_blank v (fail_validation k is_blank v replay s attempt r m w)
    unfolding record_validation_failure build_validation_failed_result
    fail_validation-Accounted attempt r m w = append_more w.pending_errors _ []

    -- What a validation says, as the answer of the task that runs it.
    said :
        (late : Check → Option Raised) (rs : List Record) (x : ValidationResult)
        → validated (validate is_blank v late rs) ≡ done x
        → Answers v.on_empty (is_complete is_blank v rs) x
    said late rs x e = answer (validate is_blank v late rs) (validate-Says is_blank v late rs) e
      where
        answer :
            (y : Validation Raised)
            → Says v.on_empty (is_complete is_blank v rs) y
            → validated y ≡ done x
            → Answers v.on_empty (is_complete is_blank v rs) x
        answer (result y) h e =
            subst (λ y. Answers v.on_empty (is_complete is_blank v rs) y) (done_inj e) h
        answer (stopped y) h e = absurd (cc)

    -- A success that passed the validation.
    passed-Accounted :
        (r : TargetResult) (x : ValidationResult) (es : List ErrorRecord)
        → is_failed r ≡ false
        → Answers v.on_empty (is_complete is_blank v r.data_items) x
        → x.passed ≡ true
        → is_accounted is_blank v r es ≡ true
    passed-Accounted r x es found says passed = rw (found, says.1 passed) refl

    second-Accounted :
        (n : ℕ) (r : TargetResult) (x : ValidationResult) (w : Work)
        → is_failed r ≡ false
        → Answers v.on_empty (is_complete is_blank v r.data_items) x
        → Accounted is_blank v (after_second_validation k is_blank v replay s n r x w)
    second-Accounted n r x w found says = elim (Bool-cases x.passed) [
      | inl passed ↦ rw passed (passed-Accounted r x _ found says passed)
      | inr not_passed ↦ rw not_passed (fail_validation-Accounted 2 r x.message w)
    ]

    after_retry-Accounted :
        (n : ℕ) (r : TargetResult) (w : Work)
        → Accounted is_blank v (after_retry k is_blank v replay s n r w)
    after_retry-Accounted n r w = elim (Bool-cases (is_failed r)) [
      | inl lost ↦ rw lost (
          lost-is_accounted is_blank v r _ lost
            (target_failure-on_record k 2 action_fail r true none (not replay) w))
      | inr found ↦ elim (Bool-cases replay) [
        | inl replaying ↦ rw (found, replaying) (second w found)
        | inr live ↦ rw (found, live) (second (record_success k none w) found)
      ]
    ]
      where
        second :
            (w : Work)
            → is_failed r ≡ false
            → Accounted is_blank v (
                bound
                  (after_second_validation k is_blank v replay s n r)
                  (validated (validate is_blank v s.late_again r.data_items))
                  w)
        second w found =
            Accounted-bound is_blank v (after_second_validation k is_blank v replay s n r)
              (validated (validate is_blank v s.late_again r.data_items)) w
              (λ x e. second-Accounted n r x w found (said s.late_again r.data_items x e))

    retry-Accounted :
        (n : ℕ) (w : Work)
        → Accounted is_blank v (retry_after_validation_failure k is_blank v replay s n w)
    unfolding retry_after_validation_failure
    retry-Accounted n w =
        Accounted-bound is_blank v
          (λ r. checkpoint s after_validation_retry >> after_retry k is_blank v replay s n r)
          s.scrape_again w
          (λ r _.
            checked-Accounted is_blank v (after_retry k is_blank v replay s n r)
              (after_retry-Accounted n r) (s.point after_validation_retry) w)

    take_action-Accounted :
        (a : OnEmptyAction) (n : ℕ) (r : TargetResult) (m : Message) (w : Work)
        → is_failed r ≡ false
        → a ≡ v.on_empty
        → not (is_empty w.pending_errors) ≡ true
        → Accounted is_blank v (take_action k is_blank v replay s a n r m w)
    unfolding build_validation_failed_result
    take_action-Accounted Validator.warn n r m w found e on =
        rw (found, ← e, or_true (is_complete is_blank v r.data_items)) refl
    take_action-Accounted Validator.skip n r m w found e on =
        rw (← e) (or_true (is_complete is_blank v [] || false))
    take_action-Accounted Validator.fail n r m w found e on = on
    take_action-Accounted Validator.retry n r m w found e on =
        checked-Accounted is_blank v (retry_after_validation_failure k is_blank v replay s n)
          (retry-Accounted n) (s.point before_validation_retry) w

    after_validation-Accounted :
        (r : TargetResult) (x : ValidationResult) (w : Work)
        → is_failed r ≡ false
        → Answers v.on_empty (is_complete is_blank v r.data_items) x
        → Accounted is_blank v (after_validation k is_blank v replay s r x w)
    unfolding record_validation_failure
    after_validation-Accounted r x w found says = elim (Bool-cases x.passed) [
      | inl passed ↦ rw passed (passed-Accounted r x _ found says passed)
      | inr not_passed ↦ elim (Bool-cases (is_access_denial (validation_error_type r))) [
        | inl denied ↦ rw (not_passed, denied) (fail_validation-Accounted 1 r x.message w)
        | inr not_denied ↦
            rw (not_passed, not_denied)
              (take_action-Accounted x.action (length w.pending_errors) r x.message
                (record_validation_failure k 1 r (action_of x.action) x.message w) found says.0
                (append_more w.pending_errors _ []))
      ]
    ]

    pub apply_validation-Accounted :
        (r : TargetResult) (w : Work)
        → is_failed r ≡ false
        → Accounted is_blank v (apply_validation k is_blank v replay s r w)
    unfolding apply_validation
    apply_validation-Accounted r w found = rw found (
        Accounted-bound is_blank v (after_validation k is_blank v replay s r)
          (validated (validate is_blank v s.late r.data_items)) w
          (λ x e. after_validation-Accounted r x w found (said s.late r.data_items x e)))
