-- ===== src/Circuit/Frame.antt =====
-- What a call of src/scrapeyard/engine/resilience.py's `CircuitBreaker` can write: the circuit of
-- its own domain, and closed circuits that it prunes or evicts.
use scrapeyard.Prelude.{
  String, ◌≡◌, refl, inl, inr, Option, none, some, text_keys, Bool-cases, length, leb,
}
use scrapeyard.Prelude.Int.{ℤ, pos, ◌-ℤ◌, leb_ℤ}
use scrapeyard.Prelude.Dict.{get}
use scrapeyard.Circuit.{
  CircuitState, closed, opened, half_open, CircuitProbe, DomainCircuit, CircuitBreaker, is_closed,
  prune_inactive_closed, make_room_for_closed_state, store, pop, probe_matches, check, check_known,
  check_pruned, success_pruned, record_success, fail_known, fail_new, failure_pruned,
  record_failure, abort_pruned, abort_probe, state, Call, check_call, success_call, failure_call,
  abort_call, state_call, step,
}

abbrev pub call_domain : Call → String
call_domain (check_call d now) = d
call_domain (success_call d p now) = d
call_domain (failure_call d p now) = d
call_domain (abort_call d p now) = d
call_domain (state_call d now) = d

-- A property that the four writes keep is kept by every call on the domain.
module _ (P : CircuitBreaker → Type 0) (d : String)
    (prune : (now : ℤ) (b : CircuitBreaker) → P b → P (prune_inactive_closed now b))
    (room : (b : CircuitBreaker) → P b → P (make_room_for_closed_state b))
    (write : (c : DomainCircuit) (b : CircuitBreaker) → P b → P (store b d c))
    (drop : (b : CircuitBreaker) → P b → P (pop b d)) where
  check_known_frame :
      (s : CircuitState) (b : CircuitBreaker) (now : ℤ) (c : DomainCircuit)
      → P b
      → P (check_known s b d now c).1
  unfolding check_known
  check_known_frame closed b now c h = write _ b h
  check_known_frame half_open b now c h = write _ b h
  check_known_frame opened b now c h =
      elim (Bool-cases (leb_ℤ (pos b.cooldown) (now -ℤ c.opened_at))) [
        | inl x ↦ rw x (write _ b h)
        | inr x ↦ rw x (write _ b h)
      ]

  check_frame :
      (o : Option DomainCircuit) (b : CircuitBreaker) (now : ℤ)
      → get d b.circuits ≡ o
      → P b
      → P (check_pruned b d now).1
  unfolding check_pruned
  check_frame none b now e h = rw (e, check_pruned) h
  check_frame (some c) b now e h = rw (e, check_pruned) (check_known_frame c.state b now c h)

  success_frame :
      (o : Option DomainCircuit) (b : CircuitBreaker) (p : Option CircuitProbe) (now : ℤ)
      → get d b.circuits ≡ o
      → P b
      → P (success_pruned b d p now)
  unfolding success_pruned
  success_frame none b p now e h = rw (e, success_pruned) h
  success_frame (some c) b p now e h =
      rw (e, success_pruned)
        (elim (Bool-cases (is_closed c.state)) [
          | inl x ↦ rw x (drop b h)
          | inr x ↦ rw x (elim (Bool-cases (probe_matches c d p)) [
            | inl y ↦ rw y (drop b h)
            | inr y ↦ rw y (write _ b h)
          ])
        ])

  fail_known_frame :
      (s : CircuitState) (b : CircuitBreaker) (p : Option CircuitProbe) (now : ℤ)
      (c : DomainCircuit)
      → P b
      → P (fail_known s b d p now c)
  unfolding fail_known
  fail_known_frame closed b p now c h = write _ b h
  fail_known_frame opened b p now c h = write _ b h
  fail_known_frame half_open b p now c h = elim (Bool-cases (probe_matches c d p)) [
    | inl x ↦ rw x (write _ b h)
    | inr x ↦ rw x (write _ b h)
  ]

  fail_new_frame : (b : CircuitBreaker) (now : ℤ) → P b → P (fail_new b d now)
  unfolding fail_new
  fail_new_frame b now h = elim (Bool-cases (leb b.max_domains (length b.circuits))) [
    | inl x ↦ rw x h
    | inr x ↦ rw x (write _ b h)
  ]

  failure_frame :
      (o : Option DomainCircuit) (b : CircuitBreaker) (p : Option CircuitProbe) (now : ℤ)
      → get d b.circuits ≡ o
      → P b
      → P (failure_pruned b d p now)
  unfolding failure_pruned
  failure_frame none b p now e h =
      rw (e, failure_pruned) (fail_new_frame (make_room_for_closed_state b) now (room b h))
  failure_frame (some c) b p now e h = rw (e, failure_pruned) (fail_known_frame c.state b p now _ h)

  abort_frame :
      (o : Option DomainCircuit) (b : CircuitBreaker) (p : Option CircuitProbe) (now : ℤ)
      → get d b.circuits ≡ o
      → P b
      → P (abort_pruned b d p now)
  unfolding abort_pruned
  abort_frame none b p now e h = rw (e, abort_pruned) h
  abort_frame (some c) b p now e h =
      rw (e, abort_pruned)
        (elim (Bool-cases (probe_matches c d p)) [ inl x ↦ rw x (write _ b h) | inr x ↦ rw x h ])

module _ (P : CircuitBreaker → Type 0)
    (prune : (now : ℤ) (b : CircuitBreaker) → P b → P (prune_inactive_closed now b))
    (room : (b : CircuitBreaker) → P b → P (make_room_for_closed_state b)) where
  pub step_frame :
      (b : CircuitBreaker) (call : Call)
      → ((c : DomainCircuit) (b : CircuitBreaker) → P b → P (store b (call_domain call) c))
      → ((b : CircuitBreaker) → P b → P (pop b (call_domain call)))
      → P b
      → P (step b call)
  unfolding step check record_success record_failure abort_probe state
  step_frame b (check_call d now) write drop h =
      check_frame P d prune room write drop _ _ now refl (prune now b h)
  step_frame b (success_call d p now) write drop h =
      success_frame P d prune room write drop _ _ p now refl (prune now b h)
  step_frame b (failure_call d p now) write drop h =
      failure_frame P d prune room write drop _ _ p now refl (prune now b h)
  step_frame b (abort_call d p now) write drop h =
      abort_frame P d prune room write drop _ _ p now refl (prune now b h)
  step_frame b (state_call d now) write drop h = prune now b h
