-- ===== src/Circuit/Invariant.antt =====
-- The shape of the table of src/scrapeyard/engine/resilience.py's `CircuitBreaker` under its calls.
use scrapeyard.Prelude.{
  ◌+◌, ◌<◌, String, ◌≡◌, refl, subst, inl, inr, Option, none, some, List, [], ◌∷◌, arith, length,
  text_keys, ltb, leb, Bool-cases,
}
use scrapeyard.Prelude.Int.{ℤ, pos, pos_part, ◌-ℤ◌, leb_ℤ}
use scrapeyard.Prelude.Dict.{get, get-remove}
use scrapeyard.Circuit.{
  CircuitState, closed, opened, half_open, CircuitProbe, DomainCircuit, CircuitBreaker, make,
  is_closed, prune_inactive_closed, oldest_closed, evict, make_room_for_closed_state, probe_matches,
  check, check_known, check_pruned, success_pruned, record_success, count_failure, fail_known,
  new_circuit, fail_new, failure_pruned, record_failure, abort_pruned, abort_probe, state, reopen,
  Call, check_call, success_call, failure_call, abort_call, state_call, step, run,
}
use scrapeyard.Circuit.Table.{
  IsSoundAt, IsSound, IsValid, store_old-IsValid, store_new-IsValid, pop-IsValid, prune-IsValid,
  found-IsSound, touch-IsValid, probe_matches_lem,
}

check_known-IsValid :
    (s : CircuitState) (b : CircuitBreaker) (d : String) (now : ℤ) (c : DomainCircuit)
    → c.state ≡ s
    → IsValid b
    → get d b.circuits ≡ some c
    → IsValid (check_known s b d now c).1
unfolding check_known
check_known-IsValid closed b d now c e v found = touch-IsValid b d c now v found
check_known-IsValid half_open b d now c e v found = touch-IsValid b d c now v found
check_known-IsValid opened b d now c e v found =
    elim (Bool-cases (leb_ℤ (pos b.cooldown) (now -ℤ c.opened_at))) [
      | inl cooled ↦ rw cooled (
          store_old-IsValid b d _ c v found (
            omega (
              arith,
              subst (λ s. IsSoundAt b.max_failures s c.failures c.generation) e
                  (found-IsSound b d c v found),
            )))
      | inr hot ↦ rw hot (touch-IsValid b d c now v found)
    ]

check_pruned-IsValid :
    (o : Option DomainCircuit) (b : CircuitBreaker) (d : String) (now : ℤ)
    → get d b.circuits ≡ o
    → IsValid b
    → IsValid (check_pruned b d now).1
unfolding check_pruned
check_pruned-IsValid none b d now e v = rw (e, check_pruned) v
check_pruned-IsValid (some c) b d now e v =
    rw (e, check_pruned) (check_known-IsValid c.state b d now c refl v e)

pub check-IsValid :
    (b : CircuitBreaker) (d : String) (now : ℤ) → IsValid b → IsValid (check b d now).1
unfolding check
check-IsValid b d now v =
    let b' = prune_inactive_closed now b in
    check_pruned-IsValid (get d b'.circuits) b' d now refl (prune-IsValid now b v)

success_pruned-IsValid :
    (o : Option DomainCircuit) (b : CircuitBreaker) (d : String) (p : Option CircuitProbe) (now : ℤ)
    → get d b.circuits ≡ o
    → IsValid b
    → IsValid (success_pruned b d p now)
unfolding success_pruned
success_pruned-IsValid none b d p now e v = rw (e, success_pruned) v
success_pruned-IsValid (some c) b d p now e v =
    rw (e, success_pruned)
      (elim (Bool-cases (is_closed c.state)) [
        | inl x ↦ rw x (pop-IsValid b d v)
        | inr x ↦ rw x (elim (Bool-cases (probe_matches c d p)) [
          | inl y ↦ rw y (pop-IsValid b d v)
          | inr y ↦ rw y (touch-IsValid b d c now v e)
        ])
      ])

count_failure-IsSound :
    (b : CircuitBreaker) (c : DomainCircuit) (now : ℤ)
    → c.state ≡ closed
    → c.failures < b.max_failures
    → IsSound b.max_failures (count_failure b c now)
count_failure-IsSound b c now e h = elim (Bool-cases (leb b.max_failures (c.failures + 1))) [
  | inl full ↦ rw full (ground arith)
  | inr below ↦ rw (below, e) (ground arith)
]

fail_known-IsValid :
    (s : CircuitState) (b : CircuitBreaker) (d : String) (p : Option CircuitProbe) (now : ℤ)
    (c c' : DomainCircuit)
    → c.state ≡ s
    → IsValid b
    → get d b.circuits ≡ some c'
    → IsSound b.max_failures c
    → IsValid (fail_known s b d p now c)
unfolding fail_known
fail_known-IsValid closed b d p now c c' e v found s =
    store_old-IsValid b d (count_failure b c now) c' v found (
      count_failure-IsSound b c now e
        (subst (λ s. IsSoundAt b.max_failures s c.failures c.generation) e s).1)
fail_known-IsValid opened b d p now c c' e v found s = store_old-IsValid b d c c' v found s
fail_known-IsValid half_open b d p now c c' e v found s = elim (Bool-cases (probe_matches c d p)) [
  | inl x ↦ rw x (store_old-IsValid b d (reopen b c now) c' v found refl)
  | inr x ↦ rw x (store_old-IsValid b d c c' v found s)
]

fail_new-IsValid :
    (b : CircuitBreaker) (d : String) (now : ℤ)
    → IsValid b
    → get d b.circuits ≡ none
    → IsValid (fail_new b d now)
unfolding fail_new
fail_new-IsValid b d now v missing = elim (Bool-cases (leb b.max_domains (length b.circuits))) [
  | inl full ↦ rw full v
  | inr room ↦ rw room (
      store_new-IsValid b d (count_failure b (new_circuit now) now) v missing (ground arith)
        (count_failure-IsSound b (new_circuit now) now refl v.threshold))
]

evict-IsValid : (o : Option (ℤ × String)) (b : CircuitBreaker) → IsValid b → IsValid (evict o b)
evict-IsValid none b v = v
evict-IsValid (some (t, domain)) b v = pop-IsValid b domain v

make_room-IsValid : (b : CircuitBreaker) → IsValid b → IsValid (make_room_for_closed_state b)
unfolding make_room_for_closed_state
make_room-IsValid b v = elim (Bool-cases (ltb (length b.circuits) b.max_domains)) [
  | inl room ↦ rw room v
  | inr full ↦ rw full (evict-IsValid (oldest_closed none b.circuits) b v)
]

get-evict-none :
    (o : Option (ℤ × String)) (b : CircuitBreaker) (d : String)
    → get d b.circuits ≡ none
    → get d (evict o b).circuits ≡ none
get-evict-none none b d e = e
get-evict-none (some (t, domain)) b d e = ground (arith, get-remove domain d b.circuits)

get-make_room-none :
    (b : CircuitBreaker) (d : String)
    → get d b.circuits ≡ none
    → get d (make_room_for_closed_state b).circuits ≡ none
unfolding make_room_for_closed_state
get-make_room-none b d e = elim (Bool-cases (ltb (length b.circuits) b.max_domains)) [
  | inl room ↦ rw room e
  | inr full ↦ rw full (get-evict-none (oldest_closed none b.circuits) b d e)
]

failure_pruned-IsValid :
    (o : Option DomainCircuit) (b : CircuitBreaker) (d : String) (p : Option CircuitProbe) (now : ℤ)
    → get d b.circuits ≡ o
    → IsValid b
    → IsValid (failure_pruned b d p now)
unfolding failure_pruned
failure_pruned-IsValid none b d p now e v =
    rw (e, failure_pruned)
      (fail_new-IsValid (make_room_for_closed_state b) d now (make_room-IsValid b v)
        (get-make_room-none b d e))
failure_pruned-IsValid (some c) b d p now e v =
    rw (e, failure_pruned)
      (fail_known-IsValid c.state b d p now (record c { last_accessed_at = now }) c refl v e
        (found-IsSound b d c v e))

half_open_failures :
    (b : CircuitBreaker) (c : DomainCircuit)
    → c.state ≡ half_open
    → IsSound b.max_failures c
    → c.failures ≡ b.max_failures
half_open_failures b c e s = (subst (λ s. IsSoundAt b.max_failures s c.failures c.generation) e s).0

abort_pruned-IsValid :
    (o : Option DomainCircuit) (b : CircuitBreaker) (d : String) (p : Option CircuitProbe) (now : ℤ)
    → get d b.circuits ≡ o
    → IsValid b
    → IsValid (abort_pruned b d p now)
unfolding abort_pruned
abort_pruned-IsValid none b d p now e v = rw (e, abort_pruned) v
abort_pruned-IsValid (some c) b d p now e v =
    rw (e, abort_pruned)
      (elim (Bool-cases (probe_matches c d p)) [
        | inl x ↦ rw x (
            store_old-IsValid b d _ c v e
              (half_open_failures b c (probe_matches_lem c d p x).0 (found-IsSound b d c v e)))
        | inr x ↦ rw x v
      ])

pub step-IsValid : (b : CircuitBreaker) (call : Call) → IsValid b → IsValid (step b call)
unfolding step record_success record_failure abort_probe state
step-IsValid b (check_call d now) v = check-IsValid b d now v
step-IsValid b (success_call d p now) v =
    success_pruned-IsValid _ (prune_inactive_closed now b) d p now refl (prune-IsValid now b v)
step-IsValid b (failure_call d p now) v =
    failure_pruned-IsValid _ (prune_inactive_closed now b) d p now refl (prune-IsValid now b v)
step-IsValid b (abort_call d p now) v =
    abort_pruned-IsValid _ (prune_inactive_closed now b) d p now refl (prune-IsValid now b v)
step-IsValid b (state_call d now) v = prune-IsValid now b v

-- From a well-formed breaker every sequence of calls, by any callers and at any clock readings,
-- leads to a well-formed one: at most `max_domains` domains are held, none twice, a closed circuit
-- has counted at least one failure and fewer than the threshold, and a circuit that is open or
-- half-open has the threshold's count.
pub run-IsValid : (b : CircuitBreaker) (calls : List Call) → IsValid b → IsValid (run b calls)
unfolding run
run-IsValid b [] v = v
run-IsValid b (call ∷ calls) v = run-IsValid (step b call) calls (step-IsValid b call v)

abbrev fresh : ℤ → ℤ → ℤ → ℤ → CircuitBreaker
fresh f c m t = record {
  max_failures = pos_part f;
  cooldown = pos_part c;
  max_domains = pos_part m;
  inactive_ttl = pos_part t;
  circuits = [];
}

make_lem :
    (f c m t : ℤ) (b : CircuitBreaker)
    → make f c m t ≡ some b
    → (fresh f c m t ≡ b) × (0 < pos_part f) × (0 < pos_part m)
unfolding make
make_lem f c m t b h = ground arith

-- A breaker that the constructor does not refuse is well formed.
pub make-IsValid : (f c m t : ℤ) (b : CircuitBreaker) → make f c m t ≡ some b → IsValid b
unfolding get
make-IsValid f c m t b h =
    let (e, threshold, capacity) = make_lem f c m t b h in
    subst IsValid e (record {
      threshold = threshold;
      capacity = capacity;
      unique = tt;
      bounded = omega arith;
      sound = λ d. tt;
    })
