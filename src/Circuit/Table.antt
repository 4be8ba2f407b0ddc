-- ===== src/Circuit/Table.antt =====
-- The tables of circuits that the breaker of src/scrapeyard/engine/resilience.py can hold, and the
-- writes to them.
use scrapeyard.Prelude.{
  ℕ, ◌≤◌, ◌<◌, String, ◌≡◌, not, Option, none, some, true, arith, length, text_keys, ◌==◌,
}
use scrapeyard.Prelude.Int.{ℤ}
use scrapeyard.Prelude.Dict.{
  Dict, get, put, Holds, Holds-if, Holds-only_if, IsUnique, get-put, get-remove, get-keep,
  put-IsUnique, remove-IsUnique, keep-IsUnique, length-put_new, length-put_old, length-remove-le,
  length-keep-le,
}
use scrapeyard.Circuit.{
  CircuitState, closed, opened, half_open, DomainCircuit, CircuitBreaker, is_expired,
  prune_inactive_closed, store, pop, CircuitProbe, probe_matches,
}

-- A closed circuit counts failures below the threshold; one that tripped keeps the threshold.
abbrev pub IsSoundAt : ℕ → CircuitState → ℕ → ℕ → Type 0
IsSoundAt most closed failures generation = (0 < failures) × (failures < most)
IsSoundAt most opened failures generation = failures ≡ most
IsSoundAt most half_open failures generation = (failures ≡ most) × (0 < generation)

abbrev pub IsSound : ℕ → DomainCircuit → Type 0
IsSound most c = IsSoundAt most c.state c.failures c.generation

pub record IsValid (b : CircuitBreaker) : Type 0 where
  pub threshold : 0 < b.max_failures
  pub capacity : 0 < b.max_domains
  pub unique : IsUnique b.circuits
  pub bounded : length b.circuits ≤ b.max_domains
  pub sound : (d : String) → Holds (IsSound b.max_failures) (get d b.circuits)

put-IsSound :
    (most : ℕ) (d j : String) (c : DomainCircuit) (m : Dict String DomainCircuit)
    → IsSound most c
    → Holds (IsSound most) (get j m)
    → Holds (IsSound most) (get j (put d c m))
put-IsSound most d j c m s h = rw get-put (Holds-if (IsSound most) (d == j) (some c) (get j m) s h)

pub store_old-IsValid :
    (b : CircuitBreaker) (d : String) (c c' : DomainCircuit)
    → IsValid b
    → get d b.circuits ≡ some c'
    → IsSound b.max_failures c
    → IsValid (store b d c)
store_old-IsValid b d c c' v found s = record {
  threshold = v.threshold;
  capacity = v.capacity;
  unique = put-IsUnique d c b.circuits v.unique;
  bounded = omega (arith, length-put_old d c c' b.circuits found, v.bounded);
  sound = λ j. put-IsSound b.max_failures d j c b.circuits s (v.sound j);
}

pub store_new-IsValid :
    (b : CircuitBreaker) (d : String) (c : DomainCircuit)
    → IsValid b
    → get d b.circuits ≡ none
    → length b.circuits < b.max_domains
    → IsSound b.max_failures c
    → IsValid (store b d c)
store_new-IsValid b d c v missing room s = record {
  threshold = v.threshold;
  capacity = v.capacity;
  unique = put-IsUnique d c b.circuits v.unique;
  bounded = omega (arith, length-put_new d c b.circuits missing, room);
  sound = λ j. put-IsSound b.max_failures d j c b.circuits s (v.sound j);
}

pub pop-IsValid : (b : CircuitBreaker) (d : String) → IsValid b → IsValid (pop b d)
pop-IsValid b d v = record {
  threshold = v.threshold;
  capacity = v.capacity;
  unique = remove-IsUnique d b.circuits v.unique;
  bounded = omega (arith, length-remove-le d b.circuits, v.bounded);
  sound = λ j.
      rw get-remove
        (Holds-if (IsSound b.max_failures) (d == j) none (get j b.circuits) tt (v.sound j));
}

pub prune-IsValid :
    (now : ℤ) (b : CircuitBreaker) → IsValid b → IsValid (prune_inactive_closed now b)
unfolding prune_inactive_closed
prune-IsValid now b v =
    let p = λ (c : DomainCircuit). not (is_expired b.inactive_ttl now c) in
    record {
      threshold = v.threshold;
      capacity = v.capacity;
      unique = keep-IsUnique p b.circuits v.unique;
      bounded = omega (arith, length-keep-le p b.circuits, v.bounded);
      sound = λ j.
          rw (get-keep p j b.circuits v.unique)
            (Holds-only_if (IsSound b.max_failures) p (get j b.circuits) (v.sound j));
    }

pub found-IsSound :
    (b : CircuitBreaker) (d : String) (c : DomainCircuit)
    → IsValid b
    → get d b.circuits ≡ some c
    → IsSound b.max_failures c
found-IsSound b d c v found = rw found at (v.sound d)

pub touch-IsValid :
    (b : CircuitBreaker) (d : String) (c : DomainCircuit) (now : ℤ)
    → IsValid b
    → get d b.circuits ≡ some c
    → IsValid (store b d (record c { last_accessed_at = now }))
touch-IsValid b d c now v found =
    store_old-IsValid b d (record c { last_accessed_at = now }) c v found
      (found-IsSound b d c v found)

-- Only the probe of this domain and of the current generation matches, and only while half-open.
pub probe_matches_lem :
    (c : DomainCircuit) (d : String) (p : Option CircuitProbe)
    → probe_matches c d p ≡ true
    → (c.state ≡ half_open) × (p ≡ some (record { domain = d; generation = c.generation }))
unfolding probe_matches
probe_matches_lem c d none h = cc
probe_matches_lem c d (some q) h = ground (arith, text_keys.decides q.domain d)
