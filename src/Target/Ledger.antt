-- ===== src/Target/Ledger.antt =====
-- What a target's task of src/scrapeyard/queue/worker.py does with its probe of the circuit breaker:
-- the probes it has reported on and the one it holds never change together.
use scrapeyard.Prelude.{
  ℕ, String, ◌≡◌, refl, sym, ◌∙◌, Bool, true, false, not, length, Bool-cases, inl, inr, Option,
  none, some, List, [], ◌∷◌, ◌++◌,
}
use mathlib.Core.List.{append-nil, append_assoc}
use scrapeyard.Circuit.{CircuitProbe, Admission, probing}
use scrapeyard.Resilience.Validator.{
  Value, ResultValidator, ValidationResult, OnEmptyAction, Message,
}
use scrapeyard.Resilience.Validator
use scrapeyard.Target.{TargetResult, is_failed, is_access_denial, validation_error_type}
use scrapeyard.Target.Recorder.{
  action_fail, Work, Task, Report, success_report, failure_report, abort_report, call_breaker,
  circuit_breaker_failure, add_errors, ActionTaken, answer_probe, build_target_result_error_records,
  record_success, record_target_failure, record_validation_failure,
}
use scrapeyard.Target.Action.{
  Raised, Attempt, done, raised, Action, ◌>>=◌, pure, bound, or_raise, Surroundings, checkpoint,
  Point, before_validation_retry, after_validation_retry,
}
use scrapeyard.Target.Validation.{
  action_of, after_second_validation, after_retry, retry_after_validation_failure, take_action,
  after_validation, apply_validation,
}
use scrapeyard.Target.Execution.{clear_probe, record_failed_target}

abbrev pub held : Option CircuitProbe → List CircuitProbe
held none = []
held (some p) = p ∷ []

abbrev pub probe_of : Report → Option CircuitProbe
probe_of (success_report p) = p
probe_of (failure_report p) = p
probe_of (abort_report p) = p

-- The probes that reports are about.
unfoldable pub reported : List Report → List CircuitProbe
reported [] = []
reported (r ∷ rs) = held (probe_of r) ++ reported rs

-- The probes reported on, and the one that is held.
abbrev pub ledger : Work → List CircuitProbe × Option CircuitProbe
ledger w = (reported w.reports, w.circuit_probe)

-- The same once the probe that is held is reported on.
abbrev pub settled : Work → List CircuitProbe × Option CircuitProbe
settled w = (reported w.reports ++ held w.circuit_probe, none)

-- The probes that a task is granted; in a replay the circuit breaker is not asked.
abbrev pub granted : Bool → Admission → List CircuitProbe
granted false (probing p) = p ∷ []
granted _ _ = []

reported-append : (xs ys : List Report) → reported (xs ++ ys) ≡ reported xs ++ reported ys
unfolding reported
reported-append [] ys = refl
reported-append (x ∷ xs) ys =
    rw (reported-append xs ys) (sym (append_assoc (held (probe_of x)) (reported xs) (reported ys)))

-- An action that keeps the ledger.
abbrev pub Balances : {A : Type 0} → Action A → Type 0
Balances m = (w : Work) → ledger (m w).1 ≡ ledger w

pub Balances-bound :
    {A B : Type 0} (f : A → Action B)
    → ((a : A) → Balances (f a))
    → (r : Attempt A) (w : Work) → ledger (bound f r w).1 ≡ ledger w
Balances-bound f h (done a) w = h a w
Balances-bound f h (raised e) w = refl

Balances->>= :
    {A B : Type 0} (m : Action A) (f : A → Action B)
    → Balances m
    → ((a : A) → Balances (f a))
    → Balances (m >>= f)
Balances->>= m f hm hf w = Balances-bound f hf (m w).0 (m w).1 ∙ hm w

Balances-or_raise :
    {A : Type 0} (o : Option Raised) (m : Action A) → Balances m → Balances (or_raise o m)
Balances-or_raise none m h w = h w
Balances-or_raise (some e) m h w = refl

reported-one : (r : Report) → reported (r ∷ []) ≡ held (probe_of r)
unfolding reported
reported-one r = append-nil (held (probe_of r))

pub checkpoint-Balances : (s : Surroundings) (p : Point) → Balances (checkpoint s p)
checkpoint-Balances s p = Balances-or_raise (s.point p) (pure tt) (λ _. refl)

-- A call that is about no probe, and one that is about the probe that is held, and gives it back.
plain_report : (r : Report) (w : Work) → probe_of r ≡ none → ledger (call_breaker r w) ≡ ledger w
plain_report r w e =
    rw (reported-append w.reports (r ∷ []), reported-one r, e, append-nil (reported w.reports)) refl

pub settling_report :
    (r : Report) (w : Work)
    → probe_of r ≡ w.circuit_probe
    → ledger (clear_probe (call_breaker r w)) ≡ settled w
settling_report r w e = rw (reported-append w.reports (r ∷ []), reported-one r, e) refl

failed_target-Balances :
    (k : Task) (attempt : ℕ) (action : ActionTaken) (r : TargetResult) (combine update : Bool)
    (w : Work)
    → ledger (record_target_failure k attempt action r combine none update w) ≡ ledger w
unfolding record_target_failure
failed_target-Balances k attempt action r combine true w =
    elim (Bool-cases (circuit_breaker_failure r)) [
      | inl counted ↦ rw counted (plain_report (failure_report none) w refl)
      | inr not_counted ↦ rw not_counted refl
    ]
failed_target-Balances k attempt action r combine false w = refl

answer_probe-settles :
    (k : Task) (o : Option CircuitProbe) (w : Work)
    → w.circuit_probe ≡ o
    → ledger (clear_probe (answer_probe k o w)) ≡ settled w
answer_probe-settles k none w e = rw (e, append-nil (reported w.reports)) refl
answer_probe-settles k (some p) w e = settling_report (success_report (some p)) w (sym e)

pub record_failed_target-settles :
    (k : Task) (r : TargetResult) (w : Work) → ledger (record_failed_target k r w) ≡ settled w
unfolding record_failed_target record_target_failure
record_failed_target-settles k r w = elim (Bool-cases (circuit_breaker_failure r)) [
  | inl counted ↦ rw counted (settling_report (failure_report w.circuit_probe) w refl)
  | inr not_counted ↦ rw not_counted (
      answer_probe-settles k w.circuit_probe
        (add_errors (build_target_result_error_records k 1 action_fail r false) w) refl)
]

record_success-Balances : (k : Task) (w : Work) → ledger (record_success k none w) ≡ ledger w
unfolding record_success
record_success-Balances k w = plain_report (success_report none) w refl

module _ (k : Task) (is_blank : String → Bool) (v : ResultValidator) (replay : Bool)
    (s : Surroundings) where
  second_validation-Balances :
      (n : ℕ) (r : TargetResult) (x : ValidationResult)
      → Balances (after_second_validation k is_blank v replay s n r x)
  unfolding record_validation_failure
  second_validation-Balances n r x w = elim (Bool-cases x.passed) [
    | inl passed ↦ rw passed refl
    | inr failed ↦ rw failed refl
  ]

  after_retry-Balances :
      (n : ℕ) (r : TargetResult) → Balances (after_retry k is_blank v replay s n r)
  after_retry-Balances n r w = elim (Bool-cases (is_failed r)) [
    | inl lost ↦ rw lost (failed_target-Balances k 2 action_fail r true (not replay) w)
    | inr found ↦ elim (Bool-cases replay) [
      | inl replaying ↦
          rw (found, replaying) (Balances-bound _ (second_validation-Balances n r) _ w)
      | inr live ↦
          rw (found, live)
            (Balances-bound _ (second_validation-Balances n r) _ (record_success k none w)
              ∙ record_success-Balances k w)
    ]
  ]

  retry-Balances : (n : ℕ) → Balances (retry_after_validation_failure k is_blank v replay s n)
  unfolding retry_after_validation_failure
  retry-Balances n =
      Balances-bound _
        (λ r.
          Balances->>= (checkpoint s after_validation_retry)
            (λ _. after_retry k is_blank v replay s n r)
            (checkpoint-Balances s after_validation_retry) (λ _. after_retry-Balances n r))
        _

  take_action-Balances :
      (a : OnEmptyAction) (n : ℕ) (r : TargetResult) (m : Message)
      → Balances (take_action k is_blank v replay s a n r m)
  take_action-Balances Validator.warn n r m w = refl
  take_action-Balances Validator.skip n r m w = refl
  take_action-Balances Validator.fail n r m w = refl
  take_action-Balances Validator.retry n r m w =
      Balances->>= (checkpoint s before_validation_retry)
        (λ _. retry_after_validation_failure k is_blank v replay s n)
        (checkpoint-Balances s before_validation_retry) (λ _. retry-Balances n) w

  after_validation-Balances :
      (r : TargetResult) (x : ValidationResult)
      → Balances (after_validation k is_blank v replay s r x)
  unfolding record_validation_failure
  after_validation-Balances r x w = elim (Bool-cases x.passed) [
    | inl passed ↦ rw passed refl
    | inr failed ↦ elim (Bool-cases (is_access_denial (validation_error_type r))) [
      | inl denied ↦ rw (failed, denied) refl
      | inr not_denied ↦
          rw (failed, not_denied)
            (take_action-Balances x.action (length w.pending_errors) r x.message
              (record_validation_failure k 1 r (action_of x.action) x.message w))
    ]
  ]

  pub apply_validation-Balances :
      (r : TargetResult) → Balances (apply_validation k is_blank v replay s r)
  unfolding apply_validation
  apply_validation-Balances r w = elim (Bool-cases (is_failed r)) [
    | inl lost ↦ rw lost refl
    | inr found ↦ rw found (Balances-bound _ (after_validation-Balances r) _ w)
  ]
