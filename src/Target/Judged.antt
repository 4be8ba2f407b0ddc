-- ===== src/Target/Judged.antt =====
-- What a target's task of src/scrapeyard/queue/worker.py may return: a failure that is on record, or a
-- success that the validation lets pass.
use scrapeyard.Prelude.{
  String, ◌≡◌, refl, subst, Bool, true, false, ◌||◌, Bool-cases, inl, inr, some,
}
use scrapeyard.Circuit.{Admission, admitted, probing, refused}
use scrapeyard.Resilience.Validator.{ResultValidator}
use scrapeyard.Target.{TargetResult, is_failed}
use scrapeyard.Target.Recorder.{
  Work, Task, action_fail, action_skip, record_circuit_break, record_uncounted_failure,
}
use scrapeyard.Target.Action.{
  cancelled, ownership_lost, budget_exhausted, failure, Attempt, done, raised, handled, ◌>>◌, catch,
  when, during_target_execution, browser_slot, after_target_fetch, Surroundings, checkpoint,
}
use scrapeyard.Target.Execution.{
  RunMode, run_mode, start, clear_probe, succeed, needs_slot, exception_result,
  record_failed_target, after_scrape, imposed, scrape_and_validate_target, run_target, end_by,
  admit_target, fetch_and_validate_target, target_exception_result,
}
use scrapeyard.Target.Accounted.{
  is_accounted, Accounted, Accounted-bound, lost-is_accounted, checked-Accounted, failure-on_record,
  target_failure-on_record,
}
use scrapeyard.Target.Passing.{apply_validation-Accounted}

module _ (k : Task) where
  module _ (is_blank : String → Bool) (v : ResultValidator) (mode : RunMode)
      (s : Surroundings) where
    after_scrape-Accounted :
        (r : TargetResult) (w : Work) → Accounted is_blank v (after_scrape k is_blank v mode s r w)
    unfolding record_uncounted_failure record_failed_target
    after_scrape-Accounted r w = elim (Bool-cases (is_failed r)) [
      | inl lost ↦ elim (Bool-cases (mode.replay || imposed r.error_type)) [
        | inl aside ↦
            rw (lost, aside)
              (lost-is_accounted is_blank v r _ lost
                (failure-on_record k 1 action_skip r false w.pending_errors))
        | inr counted ↦
            rw (lost, counted)
              (lost-is_accounted is_blank v r _ lost
                (target_failure-on_record k 1 action_fail r false w.circuit_probe true w))
      ]
      | inr found ↦ elim (Bool-cases mode.replay) [
        | inl replaying ↦
            rw (found, replaying)
              (apply_validation-Accounted k is_blank v true s r (clear_probe w) found)
        | inr live ↦
            rw (found, live)
              (apply_validation-Accounted k is_blank v false s r (clear_probe (succeed k w)) found)
      ]
    ]

    scrape_and_validate-Accounted :
        (w : Work) → Accounted is_blank v (scrape_and_validate_target k is_blank v mode s w)
    unfolding scrape_and_validate_target
    scrape_and_validate-Accounted w =
        Accounted-bound is_blank v
          (λ r. checkpoint s after_target_fetch >> after_scrape k is_blank v mode s r) s.scrape _
          (λ r _.
            checked-Accounted is_blank v (after_scrape k is_blank v mode s r)
              (after_scrape-Accounted r) (s.point after_target_fetch) _)

    run_target-Accounted : (w : Work) → Accounted is_blank v (run_target k is_blank v mode s w)
    run_target-Accounted w =
        let scraping = scrape_and_validate_target k is_blank v mode s in
        checked-Accounted is_blank v
          (when (needs_slot k is_blank v mode s) (checkpoint s browser_slot) >> scraping)
          (λ w. elim (Bool-cases (needs_slot k is_blank v mode s)) [
            | inl limited ↦ rw limited (
                checked-Accounted is_blank v scraping scrape_and_validate-Accounted
                  (s.point browser_slot) w)
            | inr free ↦ rw free (scrape_and_validate-Accounted w)
          ])
          (s.point during_target_execution) w

    caught-Accounted :
        (r : Attempt TargetResult) (w : Work)
        → Accounted is_blank v (r, w)
        → Accounted is_blank v (handled (end_by k is_blank v mode s) r w)
    unfolding target_exception_result record_failed_target
    caught-Accounted (done r) w h = h
    caught-Accounted (raised cancelled) w h = tt
    caught-Accounted (raised ownership_lost) w h = tt
    caught-Accounted (raised budget_exhausted) w h = tt
    caught-Accounted (raised (failure t status debug detail)) w h =
        target_failure-on_record k 1 action_fail (exception_result k t status debug detail) false
          w.circuit_probe true w

    task-Accounted :
        (w : Work)
        → Accounted is_blank v
            (catch (run_target k is_blank v mode s) (end_by k is_blank v mode s) w)
    task-Accounted w = caught-Accounted _ _ (run_target-Accounted w)

    admitted-Accounted :
        (a : Admission) → Accounted is_blank v (admit_target k is_blank v mode s a start)
    unfolding record_circuit_break
    admitted-Accounted admitted = task-Accounted start
    admitted-Accounted (probing p) = task-Accounted (record start { circuit_probe = some p })
    admitted-Accounted (refused d t) = refl

ended-Accounted :
    (k : Task) (is_blank : String → Bool) (v : ResultValidator) (s : Surroundings)
    (replay limiter : Bool) (a : Admission)
    → Accounted is_blank v (fetch_and_validate_target k is_blank v (run_mode replay limiter) s a)
unfolding fetch_and_validate_target
ended-Accounted k is_blank v s true limiter a =
    task-Accounted k is_blank v (run_mode true limiter) s start
ended-Accounted k is_blank v s false limiter a =
    admitted-Accounted k is_blank v (run_mode false limiter) s a

-- A target's task that returns a result returns either a failure, with at least one error record to
-- be written, or a success whose records are enough and have every required field, or of which the
-- validator only warns, or whose records were dropped because the validator skips.
pub result_is_accounted :
    (k : Task) (is_blank : String → Bool) (v : ResultValidator) (mode : RunMode) (s : Surroundings)
    (a : Admission) (r : TargetResult) (w : Work)
    → fetch_and_validate_target k is_blank v mode s a ≡ (done r, w)
    → is_accounted is_blank v r w.pending_errors ≡ true
result_is_accounted k is_blank v mode s a r w e =
    subst (Accounted is_blank v) e
      (ended-Accounted k is_blank v s mode.replay mode.has_browser_limiter a)
