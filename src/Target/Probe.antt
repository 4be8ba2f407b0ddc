-- ===== src/Target/Probe.antt =====
-- A target's task of src/scrapeyard/queue/worker.py gives the probe it was granted back.
use scrapeyard.Prelude.{
  String, ◌≡◌, refl, sym, ap, ◌∙◌, Bool, true, false, ◌||◌, Bool-cases, inl, inr, Option, none,
  some, List, ◌++◌,
}
use mathlib.Core.List.{append-nil}
use scrapeyard.Circuit.{CircuitProbe, Admission, admitted, probing, refused}
use scrapeyard.Resilience.Validator.{ResultValidator}
use scrapeyard.Target.{TargetResult, is_failed}
use scrapeyard.Target.Recorder.{
  Work, Task, record_circuit_break, success_report, abort_report, record_success,
  record_uncounted_failure,
}
use scrapeyard.Target.Action.{
  Raised, cancelled, ownership_lost, budget_exhausted, failure, Attempt, done, raised, Action,
  bound, ◌>>=◌, ◌>>◌, handled, catch, when, Surroundings, checkpoint, after_target_fetch,
  during_target_execution, browser_slot,
}
use scrapeyard.Target.Execution.{
  RunMode, run_mode, clear_probe, start, abort, succeed, after_scrape, imposed, needs_slot,
  scrape_and_validate_target, run_target, end_by, admit_target, fetch_and_validate_target,
  target_exception_result, observe,
}
use scrapeyard.Target.Ledger.{
  held, reported, ledger, settled, granted, Balances, settling_report, record_failed_target-settles,
  apply_validation-Balances, checkpoint-Balances,
}

-- What an action does with the probe: if it returns, the probe was reported on, and if it raises, the probe was
-- reported on or is still held.
abbrev pub Accounts : {A : Type 0} → Work → Attempt A × Work → Type 0
Accounts w (done a, w') = ledger w' ≡ settled w
Accounts w (raised e, w') = settled w' ≡ settled w

-- What is left if the probe is reported on, as a function of the ledger.
abbrev settle_pair :
    List CircuitProbe × Option CircuitProbe → List CircuitProbe × Option CircuitProbe
settle_pair (ps, o) = (ps ++ held o, none)

settled_again : (w w' : Work) → ledger w' ≡ settled w → settled w' ≡ settled w
settled_again w w' e =
    ap settle_pair e
    ∙ ap (λ ps. (ps, none)) (append-nil (reported w.reports ++ held w.circuit_probe))

Accounts-settled :
    {A : Type 0} (w : Work) (r : Attempt A) (w' : Work) → ledger w' ≡ settled w → Accounts w (r, w')
Accounts-settled w (done a) w' e = e
Accounts-settled w (raised x) w' e = settled_again w w' e

Accounts-kept :
    {A : Type 0} (w w₁ : Work) (r : Attempt A) (w' : Work)
    → ledger w₁ ≡ ledger w
    → Accounts w₁ (r, w')
    → Accounts w (r, w')
Accounts-kept w w₁ (done a) w' e h = h ∙ ap settle_pair e
Accounts-kept w w₁ (raised x) w' e h = h ∙ ap settle_pair e

-- A task in a replay holds no probe.
abbrev pub Consistent : Bool → Work → Type 0
Consistent replay w = replay ≡ true → w.circuit_probe ≡ none

Accounts-bound :
    {A B : Type 0} (replay : Bool) (f : A → Action B)
    → ((a : A) (w : Work) → Consistent replay w → Accounts w (f a w))
    → (w : Work) → Consistent replay w
    → (r : Attempt A) (w' : Work) → ledger w' ≡ ledger w
    → Accounts w (bound f r w')
Accounts-bound replay f h w c (done a) w' e =
    Accounts-kept w w' (f a w').0 (f a w').1 e (h a w' (λ p. ap (λ l. l.1) e ∙ c p))
Accounts-bound replay f h w c (raised x) w' e = ap settle_pair e

Accounts->>= :
    {A B : Type 0} (replay : Bool) (m : Action A) (f : A → Action B)
    → Balances m
    → ((a : A) (w : Work) → Consistent replay w → Accounts w (f a w))
    → (w : Work) → Consistent replay w
    → Accounts w ((m >>= f) w)
Accounts->>= replay m f hm hf w c = Accounts-bound replay f hf w c (m w).0 (m w).1 (hm w)

module _ (k : Task) where
  abort-settles : (w : Work) → ledger (abort k w) ≡ settled w
  abort-settles w = settling_report (abort_report w.circuit_probe) w refl

  succeed-settles : (w : Work) → ledger (succeed k w) ≡ settled w
  unfolding record_success
  succeed-settles w = settling_report (success_report w.circuit_probe) w refl

  module _ (is_blank : String → Bool) (v : ResultValidator) (mode : RunMode)
      (s : Surroundings) where
    after_scrape-Accounts :
        (r : TargetResult) (w : Work)
        → Consistent mode.replay w
        → Accounts w (after_scrape k is_blank v mode s r w)
    unfolding record_uncounted_failure
    after_scrape-Accounts r w c = elim (Bool-cases (is_failed r)) [
      | inl lost ↦ elim (Bool-cases (mode.replay || imposed r.error_type)) [
        | inl aside ↦ rw (lost, aside) (abort-settles w)
        | inr counted ↦ rw (lost, counted) (record_failed_target-settles k r w)
      ]
      | inr found ↦ elim (Bool-cases mode.replay) [
        | inl replaying ↦
            rw (found, replaying)
              (Accounts-settled w _ _ (
                apply_validation-Balances k is_blank v true s r (clear_probe w)
                ∙ rw (c replaying, append-nil (reported w.reports)) refl))
        | inr live ↦
            rw (found, live)
              (Accounts-settled w _ _ (
                apply_validation-Balances k is_blank v false s r (clear_probe (succeed k w))
                ∙ succeed-settles w))
      ]
    ]

    scrape_and_validate-Accounts :
        (w : Work)
        → Consistent mode.replay w
        → Accounts w (scrape_and_validate_target k is_blank v mode s w)
    unfolding scrape_and_validate_target
    scrape_and_validate-Accounts w c =
        Accounts-bound mode.replay
          (λ r. checkpoint s after_target_fetch >> after_scrape k is_blank v mode s r)
          (λ r.
            Accounts->>= mode.replay (checkpoint s after_target_fetch)
              (λ _. after_scrape k is_blank v mode s r) (checkpoint-Balances s after_target_fetch)
              (λ _. after_scrape-Accounts r))
          w c s.scrape (observe k is_blank v mode s w) refl

    slot-Balances : Balances (when (needs_slot k is_blank v mode s) (checkpoint s browser_slot))
    slot-Balances w = elim (Bool-cases (needs_slot k is_blank v mode s)) [
      | inl limited ↦ rw limited (checkpoint-Balances s browser_slot w)
      | inr free ↦ rw free refl
    ]

    run_target-Accounts :
        (w : Work) → Consistent mode.replay w → Accounts w (run_target k is_blank v mode s w)
    run_target-Accounts =
        let slot = when (needs_slot k is_blank v mode s) (checkpoint s browser_slot) in
        let scraping = scrape_and_validate_target k is_blank v mode s in
        Accounts->>= mode.replay (checkpoint s during_target_execution) (λ _. slot >> scraping)
          (checkpoint-Balances s during_target_execution)
          (λ _.
            Accounts->>= mode.replay slot (λ _. scraping) slot-Balances
              (λ _. scrape_and_validate-Accounts))

    end_by-settles : (e : Raised) (w : Work) → ledger (end_by k is_blank v mode s e w).1 ≡ settled w
    unfolding target_exception_result record_success
    end_by-settles cancelled w = abort-settles w
    end_by-settles ownership_lost w = abort-settles w
    end_by-settles budget_exhausted w = elim (Bool-cases w.upstream_response_observed) [
      | inl observed ↦ rw observed (succeed-settles w)
      | inr unseen ↦ rw unseen (abort-settles w)
    ]
    end_by-settles (failure t status debug detail) w = record_failed_target-settles k _ w

    caught-settles :
        (w : Work) (r : Attempt TargetResult) (w' : Work)
        → Accounts w (r, w')
        → ledger (handled (end_by k is_blank v mode s) r w').1 ≡ settled w
    caught-settles w (done a) w' h = h
    caught-settles w (raised e) w' h = end_by-settles e w' ∙ h

    task-settles :
        (w : Work)
        → Consistent mode.replay w
        → ledger (catch (run_target k is_blank v mode s) (end_by k is_blank v mode s) w).1
          ≡ settled w
    task-settles w c = caught-settles w _ _ (run_target-Accounts w c)

    admitted-settles :
        mode.replay ≡ false
        → (a : Admission)
        → ledger (admit_target k is_blank v mode s a start).1 ≡ (granted false a, none)
    unfolding record_circuit_break reported
    admitted-settles live admitted = task-settles start (λ _. refl)
    admitted-settles live (probing p) =
        task-settles (record start { circuit_probe = some p })
          (λ replaying. absurd (let e = sym live ∙ replaying in cc))
    admitted-settles live (refused d t) = refl

settles_in :
    (k : Task) (is_blank : String → Bool) (v : ResultValidator) (s : Surroundings)
    (replay limiter : Bool) (a : Admission)
    → ledger (fetch_and_validate_target k is_blank v (run_mode replay limiter) s a).1
      ≡ (granted replay a, none)
unfolding fetch_and_validate_target reported
settles_in k is_blank v s true limiter a =
    task-settles k is_blank v (run_mode true limiter) s start (λ _. refl)
settles_in k is_blank v s false limiter a =
    admitted-settles k is_blank v (run_mode false limiter) s refl a

-- However a target's task ends, by a result or by any exception, it holds no probe at its end, and the
-- probes that its calls of the circuit breaker report on are exactly the one that its admission
-- granted, once: none if it was granted none, and none in a replay.
pub probe_given_back :
    (k : Task) (is_blank : String → Bool) (v : ResultValidator) (mode : RunMode) (s : Surroundings)
    (a : Admission)
    → ledger (fetch_and_validate_target k is_blank v mode s a).1 ≡ (granted mode.replay a, none)
probe_given_back k is_blank v mode s a =
    settles_in k is_blank v s mode.replay mode.has_browser_limiter a
