-- ===== src/Target/Accounted.antt =====
-- What src/scrapeyard/queue/worker.py may return for a target, and how actions are checked for it:
-- a failure that is on record, or a success that the validation lets pass.
use scrapeyard.Prelude.{
  ℕ, String, ◌≡◌, refl, Bool, true, false, ◌&&◌, ◌||◌, not, Bool-cases, inl, inr, Option, none,
  some, List, [], ◌∷◌, ◌++◌, map, if◌then◌else◌,
}
use scrapeyard.Circuit.{CircuitProbe}
use scrapeyard.Resilience.Validator
use scrapeyard.Resilience.Validator.{
  Record, ResultValidator, ValidationResult, Validation, result, stopped, OnEmptyAction, Message,
  Check, validate,
}
use scrapeyard.Target.{TargetResult, is_failed}
use scrapeyard.Target.Recorder.{
  ActionTaken, add_errors, answer_probe, ErrorRecord, Work, Task, messages,
  build_target_result_error_records, circuit_breaker_failure, record_target_failure,
}
use scrapeyard.Target.Action.{Raised, Attempt, done, raised, Action, bound, ◌>>◌, pure, or_raise}
use scrapeyard.Target.Sound.{is_complete}

abbrev pub is_empty : {A : Type 0} → List A → Bool
is_empty [] = true
is_empty (_ ∷ _) = false

abbrev pub warns : OnEmptyAction → Bool
warns Validator.warn = true
warns _ = false

abbrev pub skips : OnEmptyAction → Bool
skips Validator.skip = true
skips _ = false

-- A success is let pass: its records are complete, or the run only warns of those that are not, or
-- skips them.
abbrev pub is_let_pass : (String → Bool) → ResultValidator → List Record → Bool
is_let_pass is_blank v rs =
    is_complete is_blank v rs || warns v.on_empty || skips v.on_empty && is_empty rs

abbrev pub is_accounted : (String → Bool) → ResultValidator → TargetResult → List ErrorRecord → Bool
is_accounted is_blank v r es =
    if is_failed r then not (is_empty es) else is_let_pass is_blank v r.data_items

pub append_more :
    {A : Type 0} (xs : List A) (y : A) (ys : List A) → not (is_empty (xs ++ (y ∷ ys))) ≡ true
append_more [] y ys = refl
append_more (x ∷ xs) y ys = refl

pub or_true : (b : Bool) → (b || true) ≡ true
or_true true = refl
or_true false = refl

abbrev pub Accounted : (String → Bool) → ResultValidator → Attempt TargetResult × Work → Type 0
Accounted is_blank v (done r, w) = is_accounted is_blank v r w.pending_errors ≡ true
Accounted is_blank v (raised e, w) = Unit {0}

pub done_inj : {A : Type 0} {a b : A} → done a ≡ done b → a ≡ b
done_inj e = cc

pub Accounted-bound :
    {A : Type 0} (is_blank : String → Bool) (v : ResultValidator) (f : A → Action TargetResult)
    (r : Attempt A) (w : Work)
    → ((a : A) → r ≡ done a → Accounted is_blank v (f a w))
    → Accounted is_blank v (bound f r w)
Accounted-bound is_blank v f (done a) w h = h a refl
Accounted-bound is_blank v f (raised e) w h = tt

pub lost-is_accounted :
    (is_blank : String → Bool) (v : ResultValidator) (r : TargetResult) (es : List ErrorRecord)
    → is_failed r ≡ true
    → not (is_empty es) ≡ true
    → is_accounted is_blank v r es ≡ true
lost-is_accounted is_blank v r es lost h = rw lost h

pub checked-Accounted :
    (is_blank : String → Bool) (v : ResultValidator) (m : Action TargetResult)
    → ((w : Work) → Accounted is_blank v (m w))
    → (o : Option Raised) (w : Work) → Accounted is_blank v ((or_raise o (pure tt) >> m) w)
checked-Accounted is_blank v m h none w = h w
checked-Accounted is_blank v m h (some e) w = tt

-- There is a record of every failed target.
messages-on_record :
    (combine : Bool) (detail : Option String) (errors : List String) (f : String → ErrorRecord)
    (es : List ErrorRecord)
    → not (is_empty (es ++ map f (messages combine detail errors))) ≡ true
messages-on_record combine detail [] f es = append_more es _ []
messages-on_record true detail (e ∷ errors) f es = append_more es _ []
messages-on_record false detail (e ∷ errors) f es = append_more es _ (map f errors)

module _ (k : Task) where
  pub failure-on_record :
      (attempt : ℕ) (action : ActionTaken) (r : TargetResult) (combine : Bool)
      (es : List ErrorRecord)
      → not (is_empty (es ++ build_target_result_error_records k attempt action r combine)) ≡ true
  unfolding build_target_result_error_records
  failure-on_record attempt action r combine es =
      messages-on_record combine r.error_detail r.errors _ es

  pub target_failure-on_record :
      (attempt : ℕ) (action : ActionTaken) (r : TargetResult) (combine : Bool)
      (probe : Option CircuitProbe) (update : Bool) (w : Work)
      → not (
          is_empty (record_target_failure k attempt action r combine probe update w).pending_errors)
        ≡ true
  unfolding record_target_failure
  target_failure-on_record attempt action r combine probe false w =
      failure-on_record attempt action r combine w.pending_errors
  target_failure-on_record attempt action r combine probe true w =
      elim (Bool-cases (circuit_breaker_failure r)) [
        | inl counted ↦ rw counted (failure-on_record attempt action r combine w.pending_errors)
        | inr not_counted ↦ rw not_counted (answered probe)
      ]
    where
      answered :
          (probe : Option CircuitProbe)
          → not (
              is_empty
                (answer_probe k probe (
                  add_errors
                    (build_target_result_error_records k attempt action r combine)
                    w)).pending_errors)
            ≡ true
      answered none = failure-on_record attempt action r combine w.pending_errors
      answered (some p) = failure-on_record attempt action r combine w.pending_errors
