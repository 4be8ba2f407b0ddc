-- ===== src/Circuit/Probe.antt =====
-- The half-open probe of src/scrapeyard/engine/resilience.py's `CircuitBreaker`, and the isolation
-- of the domains.
use scrapeyard.Prelude.{
  ℕ, ◌+◌, String, ◌≡◌, ◌≢◌, refl, sym, subst, inl, inr, Bool, true, false, Option, none, some, List,
  [], ◌∷◌, text_keys, ◌==◌, Bool-cases, not,
}
use scrapeyard.Prelude.Int.{ℤ, pos, ◌-ℤ◌, leb_ℤ}
use scrapeyard.Prelude.Dict.{get, IsUnique, keep-IsUnique}
use scrapeyard.Circuit.{
  CircuitState, closed, opened, half_open, CircuitProbe, DomainCircuit, CircuitBreaker, is_expired,
  prune_inactive_closed, store, Admission, admitted, probing, refused, probe_matches, check,
  check_known, check_pruned, success_pruned, record_success, fail_known, failure_pruned,
  record_failure, abort_pruned, abort_probe, state, Call, check_call, success_call, failure_call,
  abort_call, state_call, step, run,
}
use scrapeyard.Circuit.Table.{probe_matches_lem}
use scrapeyard.Circuit.Frame.{call_domain}
use scrapeyard.Circuit.Guards.{Guards, prune-Guards, write-Guards_self, step-Guards}

abbrev pub the_probe : String → ℕ → CircuitProbe
the_probe d g = record { domain = d; generation = g }

-- The domain is half-open, for the probe of generation `g`.
pub record IsProbing (d : String) (g : ℕ) (b : CircuitBreaker) : Type 0 where
  pub circuit : DomainCircuit
  pub guarded : Guards d circuit b
  pub half : circuit.state ≡ half_open
  pub current : circuit.generation ≡ g

-- The call does not report on the probe.
abbrev pub Spares : CircuitProbe → Call → Type 0
Spares q (success_call d p now) = p ≢ some q
Spares q (failure_call d p now) = p ≢ some q
Spares q (abort_call d p now) = p ≢ some q
Spares q _ = Unit

abbrev pub AllSpare : CircuitProbe → List Call → Type 0
AllSpare q [] = Unit
AllSpare q (call ∷ calls) = Spares q call × AllSpare q calls

module _ (d : String) (g : ℕ) where
  no_match :
      (c : DomainCircuit) (p : Option CircuitProbe)
      → c.generation ≡ g
      → p ≢ some (the_probe d g)
      → probe_matches c d p ≡ false
  no_match c p e ne = elim (Bool-cases (probe_matches c d p)) [
    | inl x ↦ absurd (ne (subst (λ n. p ≡ some (the_probe d n)) e (probe_matches_lem c d p x).1))
    | inr x ↦ x
  ]

  touch-IsProbing :
      (b : CircuitBreaker) (c : DomainCircuit) (now : ℤ)
      → IsUnique b.circuits
      → c.state ≡ half_open
      → c.generation ≡ g
      → IsProbing d g (store b d (record c { last_accessed_at = now }))
  touch-IsProbing b c now u half current = record {
    circuit = record c { last_accessed_at = now };
    guarded = write-Guards_self d _ b u (rw half);
    half = half;
    current = current;
  }

  pub prune-IsProbing :
      (now : ℤ) (b : CircuitBreaker) → IsProbing d g b → IsProbing d g (prune_inactive_closed now b)
  prune-IsProbing now b q = record {
    circuit = q.circuit;
    guarded = prune-Guards d q.circuit now b q.guarded;
    half = q.half;
    current = q.current;
  }

  check-IsProbing :
      (b : CircuitBreaker) (now : ℤ) → IsProbing d g b → IsProbing d g (check_pruned b d now).1
  unfolding check_pruned check_known
  check-IsProbing b now q =
      rw (q.guarded.found, check_pruned)
        (subst (λ s. IsProbing d g (check_known s b d now q.circuit).1) (sym q.half)
          (touch-IsProbing b q.circuit now q.guarded.unique q.half q.current))

  success-IsProbing :
      (b : CircuitBreaker) (p : Option CircuitProbe) (now : ℤ)
      → p ≢ some (the_probe d g)
      → IsProbing d g b
      → IsProbing d g (success_pruned b d p now)
  unfolding success_pruned
  success-IsProbing b p now ne q =
      rw (q.guarded.found, success_pruned)
        (rw (q.guarded.tripped) (
          rw (no_match q.circuit p q.current ne)
            (touch-IsProbing b q.circuit now q.guarded.unique q.half q.current)))

  failure-IsProbing :
      (b : CircuitBreaker) (p : Option CircuitProbe) (now : ℤ)
      → p ≢ some (the_probe d g)
      → IsProbing d g b
      → IsProbing d g (failure_pruned b d p now)
  unfolding failure_pruned fail_known
  failure-IsProbing b p now ne q =
      rw (q.guarded.found, failure_pruned)
        (subst
          (λ s.
            IsProbing d g (fail_known s b d p now (record (q.circuit) { last_accessed_at = now })))
          (sym q.half)
          (rw (no_match (record (q.circuit) { last_accessed_at = now }) p q.current ne)
            (touch-IsProbing b q.circuit now q.guarded.unique q.half q.current)))

  abort-IsProbing :
      (b : CircuitBreaker) (p : Option CircuitProbe) (now : ℤ)
      → p ≢ some (the_probe d g)
      → IsProbing d g b
      → IsProbing d g (abort_pruned b d p now)
  unfolding abort_pruned
  abort-IsProbing b p now ne q =
      rw (q.guarded.found, abort_pruned) (rw (no_match q.circuit p q.current ne) q)

  same_domain-IsProbing :
      (b : CircuitBreaker) (call : Call)
      → call_domain call ≡ d
      → Spares (the_probe d g) call
      → IsProbing d g b
      → IsProbing d g (step b call)
  unfolding step check record_success record_failure abort_probe state
  same_domain-IsProbing b (check_call d' now) e ne q =
      subst (λ x. IsProbing d g (check b x now).1) (sym e)
        (check-IsProbing _ now (prune-IsProbing now b q))
  same_domain-IsProbing b (success_call d' p now) e ne q =
      subst (λ x. IsProbing d g (record_success b x p now)) (sym e)
        (success-IsProbing _ p now ne (prune-IsProbing now b q))
  same_domain-IsProbing b (failure_call d' p now) e ne q =
      subst (λ x. IsProbing d g (record_failure b x p now)) (sym e)
        (failure-IsProbing _ p now ne (prune-IsProbing now b q))
  same_domain-IsProbing b (abort_call d' p now) e ne q =
      subst (λ x. IsProbing d g (abort_probe b x p now)) (sym e)
        (abort-IsProbing _ p now ne (prune-IsProbing now b q))
  same_domain-IsProbing b (state_call d' now) e ne q = prune-IsProbing now b q

  step-IsProbing :
      (b : CircuitBreaker) (call : Call)
      → Spares (the_probe d g) call
      → IsProbing d g b
      → IsProbing d g (step b call)
  step-IsProbing b call ne q = elim (Bool-cases (call_domain call == d)) [
    | inl same ↦ same_domain-IsProbing b call ((text_keys.decides (call_domain call) d).0 same) ne q
    | inr other ↦ record {
      circuit = q.circuit;
      guarded = step-Guards d q.circuit b call other q.guarded;
      half = q.half;
      current = q.current;
    }
  ]

  pub run-IsProbing :
      (b : CircuitBreaker) (calls : List Call)
      → AllSpare (the_probe d g) calls
      → IsProbing d g b
      → IsProbing d g (run b calls)
  unfolding run
  run-IsProbing b [] ne q = q
  run-IsProbing b (call ∷ calls) ne q =
      run-IsProbing (step b call) calls ne.1 (step-IsProbing b call ne.0 q)

abbrev pub is_refused : Admission → Bool
is_refused (refused d remaining) = true
is_refused _ = false

check-is_refused :
    (d : String) (g : ℕ) (b : CircuitBreaker) (now : ℤ)
    → IsProbing d g b
    → is_refused (check b d now).0 ≡ true
unfolding check check_pruned check_known
check-is_refused d g b now q =
    let q' = prune-IsProbing d g now b q in
    rw (q'.guarded.found, check_pruned)
      (subst
        (λ s. is_refused (check_known s (prune_inactive_closed now b) d now q'.circuit).0 ≡ true)
        (sym q'.half) refl)

probing_eq : {p q : CircuitProbe} → probing p ≡ probing q → p ≡ q
probing_eq h = cc

abbrev half_opened : DomainCircuit → ℤ → DomainCircuit
half_opened c now = record c {
  state = half_open;
  generation = c.generation + 1;
  last_accessed_at = now;
}

half_opened-IsProbing :
    (b : CircuitBreaker) (d : String) (now : ℤ) (c : DomainCircuit) (p : CircuitProbe)
    → IsUnique b.circuits
    → probing (the_probe d (c.generation + 1)) ≡ probing p
    → (p ≡ the_probe d p.generation) × IsProbing d p.generation (store b d (half_opened c now))
half_opened-IsProbing b d now c p u h =
    subst
      (λ p.
        (p ≡ the_probe d p.generation) × IsProbing d p.generation (store b d (half_opened c now)))
      (probing_eq h)
      (
        refl,
        record {
          circuit = half_opened c now;
          guarded = write-Guards_self d (half_opened c now) b u refl;
          half = refl;
          current = refl;
        },
      )

-- The probe that `check` grants, and the state it leaves.
check_grant :
    (s : CircuitState) (b : CircuitBreaker) (d : String) (now : ℤ) (c : DomainCircuit)
    (p : CircuitProbe)
    → IsUnique b.circuits
    → (check_known s b d now c).0 ≡ probing p
    → (p ≡ the_probe d p.generation) × IsProbing d p.generation (check_known s b d now c).1
unfolding check_known
check_grant closed b d now c p u h = absurd (cc)
check_grant half_open b d now c p u h = absurd (cc)
check_grant opened b d now c p u h =
    elim (Bool-cases (leb_ℤ (pos b.cooldown) (now -ℤ c.opened_at))) [
      | inl cooled ↦ rw cooled (half_opened-IsProbing b d now c p u (rw cooled at h))
      | inr hot ↦ absurd (not_granted (rw hot at h))
    ]
  where
    not_granted : {d : String} {t : ℤ} {p : CircuitProbe} → refused d t ≡ probing p → ⊥
    not_granted h = cc

check_pruned_grant :
    (o : Option DomainCircuit) (b : CircuitBreaker) (d : String) (now : ℤ) (p : CircuitProbe)
    → get d b.circuits ≡ o
    → IsUnique b.circuits
    → (check_pruned b d now).0 ≡ probing p
    → (p ≡ the_probe d p.generation) × IsProbing d p.generation (check_pruned b d now).1
unfolding check_pruned
check_pruned_grant none b d now p e u h = absurd (not_granted (rw (e, check_pruned) at h))
  where
    not_granted : {p : CircuitProbe} → admitted ≡ probing p → ⊥
    not_granted h = cc
check_pruned_grant (some c) b d now p e u h =
    rw (e, check_pruned) (check_grant c.state b d now c p u (rw (e, check_pruned) at h))

-- While the circuit of a domain is half-open for a probe, no sequence of calls in which nobody
-- reports on that probe changes that: every further `check` of the domain is refused, whatever the
-- clock reads and whatever happens to other domains.
pub probing_excludes :
    (d : String) (g : ℕ) (b : CircuitBreaker) (calls : List Call) (now : ℤ)
    → IsProbing d g b
    → AllSpare (the_probe d g) calls
    → is_refused (check (run b calls) d now).0 ≡ true
probing_excludes d g b calls now q ne =
    check-is_refused d g (run b calls) now (run-IsProbing d g b calls ne q)

-- The probe that `check` grants, and the half-open circuit that it leaves.
pub granted_probe :
    (b : CircuitBreaker) (d : String) (now : ℤ) (p : CircuitProbe)
    → IsUnique b.circuits
    → (check b d now).0 ≡ probing p
    → (p ≡ the_probe d p.generation) × IsProbing d p.generation (check b d now).1
unfolding check prune_inactive_closed
granted_probe b d now p u granted =
    check_pruned_grant _ (prune_inactive_closed now b) d now p refl
      (keep-IsUnique (λ (c : DomainCircuit). not (is_expired b.inactive_ttl now c)) b.circuits u)
      granted

-- In a table that holds no domain twice, a granted probe is the only one: from the `check` that grants it, and through every sequence of
-- calls in which nobody reports on it, each further `check` of its domain is refused.
pub sole_probe :
    (b : CircuitBreaker) (d : String) (now : ℤ) (p : CircuitProbe) (calls : List Call) (later : ℤ)
    → IsUnique b.circuits
    → (check b d now).0 ≡ probing p
    → AllSpare p calls
    → is_refused (check (run (check b d now).1 calls) d later).0 ≡ true
sole_probe b d now p calls later u granted ne =
    let (e, q) = granted_probe b d now p u granted in
    probing_excludes d p.generation _ calls later q (subst (λ p. AllSpare p calls) e ne)
