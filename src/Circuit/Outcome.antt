-- ===== src/Circuit/Outcome.antt =====
-- What becomes of a half-open circuit of src/scrapeyard/engine/resilience.py when its probe reports.
use scrapeyard.Prelude.{
  ℕ, ◌+◌, String, ◌≡◌, refl, ap, ◌∙◌, not, sym, subst, true, none, some, arith, text_keys,
  Bool-cases, inl, inr, ==-self, if◌then◌else◌,
}
use scrapeyard.Prelude.Int.{ℤ, pos, pos_part, ◌-ℤ◌, ◌≤ℤ◌, leb_ℤ, -ℤ_parts}
use scrapeyard.Prelude.Dict.{get, IsUnique, get-remove, get-keep, only_if, remove-IsUnique}
use scrapeyard.Circuit.{
  CircuitState, closed, opened, half_open, DomainCircuit, CircuitBreaker, is_expired,
  prune_inactive_closed, Admission, admitted, probing, refused, probe_matches, check, check_known,
  check_pruned, success_pruned, record_success, fail_known, failure_pruned, record_failure,
  abort_pruned, abort_probe, reopen, step, failure_call, abort_call,
}
use scrapeyard.Circuit.Guards.{Guards, prune-Guards, write-Guards_self}
use scrapeyard.Circuit.Settings.{step-SameSettings}
use scrapeyard.Circuit.Probe.{IsProbing, the_probe, prune-IsProbing}

-- The answer to a caller who finds the circuit open.
abbrev pub open_answer : ℕ → String → ℕ → ℤ → Admission
open_answer cooldown d generation elapsed =
    if leb_ℤ (pos cooldown) elapsed
    then probing (the_probe d (generation + 1))
    else refused d (pos (pos_part (pos cooldown -ℤ elapsed)))

check_opened :
    (s : CircuitState) (b : CircuitBreaker) (d : String) (now : ℤ) (c : DomainCircuit)
    → s ≡ opened
    → (check_known s b d now c).0 ≡ open_answer b.cooldown d c.generation (now -ℤ c.opened_at)
unfolding check_known
check_opened closed b d now c e = absurd (cc)
check_opened half_open b d now c e = absurd (cc)
check_opened opened b d now c e = elim (Bool-cases (leb_ℤ (pos b.cooldown) (now -ℤ c.opened_at))) [
  | inl x ↦ rw x refl
  | inr x ↦ rw x refl
]

pub check-open_answer :
    (b : CircuitBreaker) (d : String) (c : DomainCircuit) (now : ℤ)
    → Guards d c b
    → c.state ≡ opened
    → (check b d now).0 ≡ open_answer b.cooldown d c.generation (now -ℤ c.opened_at)
unfolding check check_pruned prune_inactive_closed
check-open_answer b d c now g e =
    rw ((prune-Guards d c now b g).found, check_pruned) (check_opened c.state _ d now c e)

module _ (d : String) (g : ℕ) where
  the_probe_matches :
      (c : DomainCircuit)
      → c.state ≡ half_open
      → c.generation ≡ g
      → probe_matches c d (some (the_probe d g)) ≡ true
  unfolding probe_matches
  the_probe_matches c half current = ground (arith, text_keys.decides d d)

  abbrev aborted : CircuitBreaker → DomainCircuit → ℤ → DomainCircuit
  aborted b c now = record c {
    state = opened;
    last_accessed_at = now;
    opened_at = now -ℤ pos b.cooldown;
  }

  abort-Guards :
      (b : CircuitBreaker) (now : ℤ) (q : IsProbing d g b)
      → Guards d (aborted b q.circuit now) (abort_pruned b d (some (the_probe d g)) now)
  unfolding abort_pruned
  abort-Guards b now q =
      rw (q.guarded.found, abort_pruned)
        (rw (the_probe_matches q.circuit q.half q.current)
          (write-Guards_self d (aborted b q.circuit now) b q.guarded.unique refl))

  abbrev reopened : CircuitBreaker → DomainCircuit → ℤ → DomainCircuit
  reopened b c now = reopen b (record c { last_accessed_at = now }) now

  fail-Guards :
      (b : CircuitBreaker) (now : ℤ) (q : IsProbing d g b)
      → Guards d (reopened b q.circuit now) (failure_pruned b d (some (the_probe d g)) now)
  unfolding failure_pruned fail_known
  fail-Guards b now q =
      let c = record (q.circuit) { last_accessed_at = now } in
      rw (q.guarded.found, failure_pruned)
        (subst
          (λ s. Guards d (reopened b q.circuit now) (fail_known s b d (some (the_probe d g)) now c))
          (sym q.half)
          (rw (the_probe_matches c q.half q.current)
            (write-Guards_self d (reopened b q.circuit now) b q.guarded.unique refl)))

  success_forgets :
      (b : CircuitBreaker) (now : ℤ)
      → IsProbing d g b
      → IsUnique (success_pruned b d (some (the_probe d g)) now).circuits
        × (get d (success_pruned b d (some (the_probe d g)) now).circuits ≡ none)
  unfolding success_pruned
  success_forgets b now q =
      rw (q.guarded.found, success_pruned)
        (rw (q.guarded.tripped) (
          rw (the_probe_matches q.circuit q.half q.current)
            (remove-IsUnique d b.circuits q.guarded.unique, rw get-remove (rw ==-self refl))))

check_forgotten :
    (b : CircuitBreaker) (d : String) (now : ℤ)
    → IsUnique b.circuits
    → get d b.circuits ≡ none
    → (check b d now).0 ≡ admitted
unfolding check check_pruned prune_inactive_closed
check_forgotten b d now u e =
    rw
      (
        get-keep (λ (c : DomainCircuit). not (is_expired b.inactive_ttl now c)) d b.circuits u
            ∙ ap (only_if _) e,
        check_pruned,
      )
      refl

elapsed_after_abort :
    (now later : ℤ) (cooldown : ℕ)
    → now ≤ℤ later
    → leb_ℤ (pos cooldown) (later -ℤ (now -ℤ pos cooldown)) ≡ true
elapsed_after_abort now later cooldown h =
    ground (arith, -ℤ_parts now (pos cooldown), -ℤ_parts later (now -ℤ pos cooldown))

-- When the probe of a half-open domain reports, the next `check` of that domain, at any later
-- reading of the clock, is decided by the report: after a success it is admitted; after a failure
-- the cooldown runs again from the report, and until its end the caller is refused with the time
-- that is left; after an abort it is granted a new probe, of the next generation, at once.
pub probe_outcomes :
    (d : String) (g : ℕ) (b : CircuitBreaker) (now later : ℤ)
    → IsProbing d g b
    → now ≤ℤ later
    → ((check (record_success b d (some (the_probe d g)) now) d later).0 ≡ admitted)
      × ((check (record_failure b d (some (the_probe d g)) now) d later).0
          ≡ open_answer b.cooldown d g (later -ℤ now))
      × ((check (abort_probe b d (some (the_probe d g)) now) d later).0
          ≡ probing (the_probe d (g + 1)))
unfolding step record_success record_failure abort_probe prune_inactive_closed
probe_outcomes d g b now later q ordered =
    let q' = prune-IsProbing d g now b q in
    let b' = prune_inactive_closed now b in
    let (u, forgotten) = success_forgets d g b' now q' in
    (
      check_forgotten _ d later u forgotten,
      check-open_answer _ d _ later (fail-Guards d g b' now q') refl
          ∙ ap (λ n. open_answer n d (q'.circuit.generation) (later -ℤ now))
              ((step-SameSettings b (failure_call d (some (the_probe d g)) now)).cooldown)
          ∙ ap (λ n. open_answer b.cooldown d n (later -ℤ now)) q'.current,
      check-open_answer _ d _ later (abort-Guards d g b' now q') refl
          ∙ ap (λ n. open_answer n d (q'.circuit.generation) (later -ℤ (now -ℤ pos b.cooldown)))
              ((step-SameSettings b (abort_call d (some (the_probe d g)) now)).cooldown)
          ∙ ap (λ n. open_answer b.cooldown d n (later -ℤ (now -ℤ pos b.cooldown))) q'.current
          ∙ rw (elapsed_after_abort now later b.cooldown ordered) refl,
    )
