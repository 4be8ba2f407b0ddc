-- ===== src/Target/Release.antt =====
-- The probe of a target's task of src/scrapeyard/queue/worker.py and the circuit breaker of
-- src/scrapeyard/engine/resilience.py together.
use scrapeyard.Prelude.{
  ℕ, ◌+◌, String, text_keys, ◌≡◌, refl, sym, ap, subst, ◌∙◌, Bool, false, some, Option-cases, inl,
  inr, List, [], ◌∷◌, ◌++◌,
}
use scrapeyard.Prelude.Dict.{IsUnique}
use scrapeyard.Prelude.Int.{ℤ, ◌-ℤ◌, ◌≤ℤ◌}
use scrapeyard.Circuit.{
  CircuitBreaker, CircuitProbe, Admission, admitted, probing, check, Call, success_call,
  failure_call, abort_call, step, run,
}
use scrapeyard.Circuit.Probe.{the_probe, IsProbing, AllSpare, granted_probe, run-IsProbing}
use scrapeyard.Circuit.Outcome.{open_answer, probe_outcomes}
use scrapeyard.Resilience.Validator.{ResultValidator}
use scrapeyard.Target.Recorder.{Task, Report, success_report, failure_report, abort_report}
use scrapeyard.Target.Action.{Surroundings}
use scrapeyard.Target.Execution.{run_mode, fetch_and_validate_target}
use scrapeyard.Target.Ledger.{probe_of, reported}
use scrapeyard.Target.Probe.{probe_given_back}

-- A report as a call of the breaker, at its reading of the clock.
abbrev pub call_of : String → Report → ℤ → Call
call_of d (success_report p) now = success_call d p now
call_of d (failure_report p) now = failure_call d p now
call_of d (abort_report p) now = abort_call d p now

-- What the next `check` of the domain answers, `waited` after the report on the probe.
abbrev pub next_answer : ℕ → CircuitProbe → ℤ → Report → Admission
next_answer cooldown p waited (success_report _) = admitted
next_answer cooldown p waited (failure_report _) = open_answer cooldown p.domain p.generation waited
next_answer cooldown p waited (abort_report _) = probing (the_probe p.domain (p.generation + 1))

-- The report on `p` among reports.
pub record HasReport (p : CircuitProbe) (rs : List Report) : Type 0 where
  pub earlier : List Report
  pub report : Report
  pub later : List Report
  pub split : rs ≡ earlier ++ (report ∷ later)
  pub about : probe_of report ≡ some p

find_report : (p : CircuitProbe) (rs : List Report) → reported rs ≡ p ∷ [] → HasReport p rs
unfolding reported
find_report p [] e = absurd (cc)
find_report p (r ∷ rs) e = elim (Option-cases (probe_of r)) [
  | inl none_held ↦
      let q = find_report p rs (rw none_held at e) in
      record {
        earlier = r ∷ q.earlier;
        report = q.report;
        later = q.later;
        split = ap (λ us. r ∷ us) q.split;
        about = q.about;
      }
  | inr (q, one) ↦ record {
    earlier = [];
    report = r;
    later = rs;
    split = refl;
    about = one ∙ (let h = rw one at e in cc);
  }
]

-- The report on a probe decides the next `check` of its domain.
report_decides :
    (d : String) (g : ℕ) (b : CircuitBreaker) (r : Report) (at later : ℤ)
    → IsProbing d g b
    → at ≤ℤ later
    → probe_of r ≡ some (the_probe d g)
    → (check (step b (call_of d r at)) d later).0
      ≡ next_answer b.cooldown (the_probe d g) (later -ℤ at) r
unfolding step
report_decides d g b (success_report o) at later q ordered e =
    rw e ((probe_outcomes d g b at later q ordered).0)
report_decides d g b (failure_report o) at later q ordered e =
    rw e ((probe_outcomes d g b at later q ordered).1)
report_decides d g b (abort_report o) at later q ordered e =
    rw e ((probe_outcomes d g b at later q ordered).2)

-- A probe never outlives its target's task: if the breaker, in a table that holds no domain twice,
-- grants the task a probe of its domain, the calls of the task have a report on that probe, however
-- the task ends; and whatever other callers do in between without reporting on it, that report
-- decides the next `check` of the domain, at any reading of the clock from then on: admitted after a success, a new
-- probe at once after an abort, and after a failure a new probe when the cooldown is over.
pub target_releases_domain :
    (k : Task) (is_blank : String → Bool) (v : ResultValidator) (limiter : Bool) (s : Surroundings)
    (b : CircuitBreaker) (now at later : ℤ) (p : CircuitProbe) (calls : List Call)
    → IsUnique b.circuits
    → (check b k.domain now).0 ≡ probing p
    → AllSpare p calls
    → at ≤ℤ later
    → (q : HasReport p
        (fetch_and_validate_target k is_blank v (run_mode false limiter) s (probing p)).1.reports)
      × ((check
            (step (run (check b k.domain now).1 calls) (call_of k.domain q.report at))
            k.domain
            later).0
          ≡ next_answer (run (check b k.domain now).1 calls).cooldown p (later -ℤ at) q.report)
target_releases_domain k is_blank v limiter s b now at later p calls u granted spared ordered =
    let (e, h) = granted_probe b k.domain now p u granted in
    let q =
      find_report p _
        (ap (λ l. l.0) (probe_given_back k is_blank v (run_mode false limiter) s (probing p))) in
    let b' = run (check b k.domain now).1 calls in
    (
      q,
      subst
          (λ x.
            (check (step b' (call_of k.domain q.report at)) k.domain later).0
            ≡ next_answer b'.cooldown x (later -ℤ at) q.report)
          (sym e)
          (report_decides k.domain p.generation b' q.report at later
            (run-IsProbing k.domain p.generation (check b k.domain now).1 calls
              (subst (λ x. AllSpare x calls) e spared) h)
            ordered (q.about ∙ ap some e)),
    )
