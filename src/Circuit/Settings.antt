-- ===== src/Circuit/Settings.antt =====
-- The settings of the circuit breaker of src/scrapeyard/engine/resilience.py never change.
use scrapeyard.Prelude.{
  String, ◌≡◌, refl, inl, inr, Option, none, some, text_keys, Bool-cases, length, ltb, not,
}
use scrapeyard.Prelude.Int.{ℤ}
use scrapeyard.Prelude.Dict.{Dict, put, remove, keep}
use scrapeyard.Circuit.{
  DomainCircuit, CircuitBreaker, is_expired, prune_inactive_closed, oldest_closed, evict,
  make_room_for_closed_state, Call, step,
}
use scrapeyard.Circuit.Frame.{call_domain, step_frame}

-- `b` has the constructor's arguments of `a`.
pub record SameSettings (a b : CircuitBreaker) : Type 0 where
  pub max_failures : b.max_failures ≡ a.max_failures
  pub cooldown : b.cooldown ≡ a.cooldown
  pub max_domains : b.max_domains ≡ a.max_domains
  pub inactive_ttl : b.inactive_ttl ≡ a.inactive_ttl

abbrev with_circuits : CircuitBreaker → Dict String DomainCircuit → CircuitBreaker
with_circuits b m = record b { circuits = m }

same_but_circuits :
    (a b : CircuitBreaker) (m : Dict String DomainCircuit)
    → SameSettings a b
    → SameSettings a (with_circuits b m)
same_but_circuits a b m s = record {
  max_failures = s.max_failures;
  cooldown = s.cooldown;
  max_domains = s.max_domains;
  inactive_ttl = s.inactive_ttl;
}

evict-SameSettings :
    (a b : CircuitBreaker) (o : Option (ℤ × String)) → SameSettings a b → SameSettings a (evict o b)
evict-SameSettings a b none s = s
evict-SameSettings a b (some (t, victim)) s = same_but_circuits a b (remove victim b.circuits) s

room-SameSettings :
    (a b : CircuitBreaker) → SameSettings a b → SameSettings a (make_room_for_closed_state b)
unfolding make_room_for_closed_state
room-SameSettings a b s = elim (Bool-cases (ltb (length b.circuits) b.max_domains)) [
  | inl x ↦ rw x s
  | inr x ↦ rw x (evict-SameSettings a b (oldest_closed none b.circuits) s)
]

pub step-SameSettings : (b : CircuitBreaker) (call : Call) → SameSettings b (step b call)
unfolding prune_inactive_closed
step-SameSettings b call =
    step_frame (SameSettings b)
      (λ now x s.
        same_but_circuits b x (keep (λ c. not (is_expired x.inactive_ttl now c)) x.circuits) s)
      (room-SameSettings b) b call
      (λ c x s. same_but_circuits b x (put (call_domain call) c x.circuits) s)
      (λ x s. same_but_circuits b x (remove (call_domain call) x.circuits) s)
      (record { max_failures = refl; cooldown = refl; max_domains = refl; inactive_ttl = refl })
