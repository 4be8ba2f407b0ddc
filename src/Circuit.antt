-- ===== src/Circuit.antt =====
-- The per-domain circuit breaker of src/scrapeyard/engine/resilience.py: `CircuitBreaker` and its
-- records. Every method runs under one lock and reads the clock once, so it is a function of the
-- breaker and of that reading. Times are integers, in any unit finer than the clock's steps.
pub mod Table
pub mod Eviction
pub mod Frame
pub mod Probe
pub mod Trip
pub mod Outcome
pub mod Invariant
pub mod Settings
pub mod Guards
use Prim.Native.String.{compare as compare_text}
use Prim.Native.Nat.{Ordering}
use scrapeyard.Prelude.{
  ℕ, ◌+◌, String, Bool, true, false, ◌&&◌, not, Option, none, some, List, [], ◌∷◌, ltb, leb,
  if◌then◌else◌, ◌==◌, nat_keys, text_keys, length,
}
use scrapeyard.Prelude.Int.{ℤ, pos, pos_part, ◌-ℤ◌, leb_ℤ, ltb_ℤ}
use scrapeyard.Prelude.Dict.{Dict, get, put, remove, keep}

pub data CircuitState : Type 0 where
  closed opened half_open : CircuitState

-- The capability given to the one caller admitted while half-open.
pub record CircuitProbe : Type 0 where
  pub domain : String
  pub generation : ℕ

pub record DomainCircuit : Type 0 where
  pub state : CircuitState
  pub failures : ℕ
  pub opened_at : ℤ
  pub generation : ℕ
  pub last_accessed_at : ℤ

pub record CircuitBreaker : Type 0 where
  pub max_failures : ℕ
  pub cooldown : ℕ
  pub max_domains : ℕ
  pub inactive_ttl : ℕ
  pub circuits : Dict String DomainCircuit

-- `__init__`, with `none` for the `ValueError` of an argument out of range.
unfoldable pub make : ℤ → ℤ → ℤ → ℤ → Option CircuitBreaker
make max_consecutive_failures cooldown_seconds max_domains inactive_ttl_seconds =
    if ltb_ℤ max_consecutive_failures (pos 1)
    then none
    else if ltb_ℤ cooldown_seconds (pos 0)
    then none
    else if ltb_ℤ max_domains (pos 1)
    then none
    else if leb_ℤ inactive_ttl_seconds (pos 0)
    then none
    else some (record {
      max_failures = pos_part max_consecutive_failures;
      cooldown = pos_part cooldown_seconds;
      max_domains = pos_part max_domains;
      inactive_ttl = pos_part inactive_ttl_seconds;
      circuits = [];
    })

abbrev pub is_closed : CircuitState → Bool
is_closed closed = true
is_closed _ = false

abbrev pub is_half_open : CircuitState → Bool
is_half_open half_open = true
is_half_open _ = false

-- `self._circuits[domain] = circuit`, or a write to the fields of the circuit stored there.
abbrev pub store : CircuitBreaker → String → DomainCircuit → CircuitBreaker
store b domain c = record b { circuits = put domain c b.circuits }

abbrev pub pop : CircuitBreaker → String → CircuitBreaker
pop b domain = record b { circuits = remove domain b.circuits }

-- An abandoned history below the threshold.
abbrev pub is_expired : ℕ → ℤ → DomainCircuit → Bool
is_expired ttl now c = is_closed c.state && leb_ℤ (pos ttl) (now -ℤ c.last_accessed_at)

unfoldable pub prune_inactive_closed : ℤ → CircuitBreaker → CircuitBreaker
prune_inactive_closed now b = record b {
  circuits = keep (λ c. not (is_expired b.inactive_ttl now c)) b.circuits;
}

-- The order of the pairs (last access, domain).
abbrev pub text_lt : String → String → Bool
text_lt a b = elim (compare_text a b) [ Ordering.lt ↦ true | _ ↦ false ]

abbrev pub is_before : ℤ × String → ℤ × String → Bool
is_before (t, d) (u, e) = if ltb_ℤ t u then true else if ltb_ℤ u t then false else text_lt d e

abbrev pub least : Option (ℤ × String) → ℤ × String → Option (ℤ × String)
least none x = some x
least (some y) x = if is_before x y then some x else some y

-- `min(candidates, default=None)` over the closed circuits, in the order of the dictionary.
unfoldable pub oldest_closed : Option (ℤ × String) → Dict String DomainCircuit → Option (ℤ × String)
oldest_closed best [] = best
oldest_closed best ((domain, c) ∷ m) =
    oldest_closed (if is_closed c.state then least best (c.last_accessed_at, domain) else best) m

abbrev pub evict : Option (ℤ × String) → CircuitBreaker → CircuitBreaker
evict none b = b
evict (some (_, domain)) b = pop b domain

unfoldable pub make_room_for_closed_state : CircuitBreaker → CircuitBreaker
make_room_for_closed_state b =
    if ltb (length b.circuits) b.max_domains then b else evict (oldest_closed none b.circuits) b

unfoldable pub probe_matches : DomainCircuit → String → Option CircuitProbe → Bool
probe_matches c domain none = false
probe_matches c domain (some p) =
    is_half_open c.state && (p.domain == domain && p.generation == c.generation)

-- What `check` returns: `None`, a probe, or `CircuitOpenError` with the remaining cooldown.
pub data Admission : Type 0 where
  admitted : Admission
  probing : CircuitProbe → Admission
  refused : String → ℤ → Admission

abbrev refuse : CircuitBreaker → String → ℤ → DomainCircuit → Admission × CircuitBreaker
refuse b domain now c = (
  refused domain (pos (pos_part (pos b.cooldown -ℤ (now -ℤ c.opened_at)))),
  store b domain (record c { last_accessed_at = now }),
)

check_known :
    CircuitState → CircuitBreaker → String → ℤ → DomainCircuit → Admission × CircuitBreaker
check_known closed b domain now c = (admitted, store b domain (record c { last_accessed_at = now }))
check_known opened b domain now c =
    if leb_ℤ (pos b.cooldown) (now -ℤ c.opened_at)
    then (
      probing (record { domain = domain; generation = c.generation + 1 }),
      store b domain
          (record c { state = half_open; generation = c.generation + 1; last_accessed_at = now }),
    )
    else refuse b domain now c
check_known half_open b domain now c = refuse b domain now c

check_pruned : CircuitBreaker → String → ℤ → Admission × CircuitBreaker
unfolding check_known
check_pruned b domain now = elim (get domain b.circuits) [
  | none ↦ (admitted, b)
  | some c ↦ check_known c.state b domain now c
]

unfoldable pub check : CircuitBreaker → String → ℤ → Admission × CircuitBreaker
unfolding check_pruned
check b domain now = check_pruned (prune_inactive_closed now b) domain now

success_pruned : CircuitBreaker → String → Option CircuitProbe → ℤ → CircuitBreaker
success_pruned b domain probe now = elim (get domain b.circuits) [
  | none ↦ b
  | some c ↦
      if is_closed c.state
      then pop b domain
      else if probe_matches c domain probe
      then pop b domain
      else store b domain (record c { last_accessed_at = now })
]

unfoldable pub record_success : CircuitBreaker → String → Option CircuitProbe → ℤ → CircuitBreaker
unfolding success_pruned
record_success b domain probe now = success_pruned (prune_inactive_closed now b) domain probe now

abbrev pub reopen : CircuitBreaker → DomainCircuit → ℤ → DomainCircuit
reopen b c now = record c { state = opened; failures = b.max_failures; opened_at = now }

abbrev pub count_failure : CircuitBreaker → DomainCircuit → ℤ → DomainCircuit
count_failure b c now =
    if leb b.max_failures (c.failures + 1)
    then record c { failures = c.failures + 1; state = opened; opened_at = now }
    else record c { failures = c.failures + 1 }

fail_known :
    CircuitState
    → CircuitBreaker
    → String
    → Option CircuitProbe
    → ℤ
    → DomainCircuit
    → CircuitBreaker
fail_known closed b domain probe now c = store b domain (count_failure b c now)
fail_known opened b domain probe now c = store b domain c
fail_known half_open b domain probe now c =
    if probe_matches c domain probe then store b domain (reopen b c now) else store b domain c

abbrev pub new_circuit : ℤ → DomainCircuit
new_circuit now = record {
  state = closed;
  failures = 0;
  opened_at = pos 0;
  generation = 0;
  last_accessed_at = now;
}

-- The first failure of a domain: nothing is remembered while the table is full of circuits that
-- are not closed.
fail_new : CircuitBreaker → String → ℤ → CircuitBreaker
fail_new b domain now =
    if leb b.max_domains (length b.circuits)
    then b
    else store b domain (count_failure b (new_circuit now) now)

failure_pruned : CircuitBreaker → String → Option CircuitProbe → ℤ → CircuitBreaker
unfolding fail_known fail_new
failure_pruned b domain probe now = elim (get domain b.circuits) [
  | none ↦ fail_new (make_room_for_closed_state b) domain now
  | some c ↦ fail_known c.state b domain probe now (record c { last_accessed_at = now })
]

unfoldable pub record_failure : CircuitBreaker → String → Option CircuitProbe → ℤ → CircuitBreaker
unfolding failure_pruned
record_failure b domain probe now = failure_pruned (prune_inactive_closed now b) domain probe now

abort_pruned : CircuitBreaker → String → Option CircuitProbe → ℤ → CircuitBreaker
abort_pruned b domain probe now = elim (get domain b.circuits) [
  | none ↦ b
  | some c ↦
      if probe_matches c domain probe
      then store b domain
          (record c { state = opened; last_accessed_at = now; opened_at = now -ℤ pos b.cooldown })
      else b
]

unfoldable pub abort_probe : CircuitBreaker → String → Option CircuitProbe → ℤ → CircuitBreaker
unfolding abort_pruned
abort_probe b domain probe now = abort_pruned (prune_inactive_closed now b) domain probe now

abbrev pub state_of : Option DomainCircuit → CircuitState
state_of none = closed
state_of (some c) = c.state

unfoldable pub state : CircuitBreaker → String → ℤ → CircuitState × CircuitBreaker
state b domain now = let b' = prune_inactive_closed now b in (state_of (get domain b'.circuits), b')

-- A call by any of the concurrent callers, with its reading of the clock.
pub data Call : Type 0 where
  check_call : String → ℤ → Call
  success_call : String → Option CircuitProbe → ℤ → Call
  failure_call : String → Option CircuitProbe → ℤ → Call
  abort_call : String → Option CircuitProbe → ℤ → Call
  state_call : String → ℤ → Call

unfoldable pub step : CircuitBreaker → Call → CircuitBreaker
step b (check_call d now) = (check b d now).1
step b (success_call d p now) = record_success b d p now
step b (failure_call d p now) = record_failure b d p now
step b (abort_call d p now) = abort_probe b d p now
step b (state_call d now) = (state b d now).1

unfoldable pub run : CircuitBreaker → List Call → CircuitBreaker
run b [] = b
run b (call ∷ calls) = run (step b call) calls
