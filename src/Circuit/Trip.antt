-- ===== src/Circuit/Trip.antt =====
-- How failures add up in src/scrapeyard/engine/resilience.py's `CircuitBreaker`.
use scrapeyard.Prelude.{
  ℕ, suc, ◌+◌, ◌≤◌, ◌<◌, String, ◌≡◌, refl, ap, ◌∙◌, true, false, not, none, some, List, [], ◌∷◌,
  map, arith, text_keys, length, leb, ltb, if◌then◌else◌, ==-self,
}
use native.Mathlib.Nat.{add-zero, add-suc, suc-add}
use scrapeyard.Prelude.Int.{ℤ, pos, ◌-ℤ◌, leb_ℤ}
use scrapeyard.Prelude.Dict.{
  get, IsUnique, only_if, get-put, get-keep, put-IsUnique, keep-IsUnique, length-keep-le,
}
use scrapeyard.Circuit.Settings.{SameSettings, step-SameSettings}
use scrapeyard.Circuit.{
  closed, opened, DomainCircuit, CircuitBreaker, is_expired, prune_inactive_closed,
  make_room_for_closed_state, store, count_failure, fail_known, fail_new, failure_pruned,
  record_failure, Call, failure_call, step, run,
}

-- A run of failures of one domain, reported without a probe.
abbrev pub fail_all : CircuitBreaker → String → List ℤ → CircuitBreaker
fail_all b d ts = run b (map (λ t. failure_call d none t) ts)

abbrev pub last_time : ℤ → List ℤ → ℤ
last_time t [] = t
last_time t (u ∷ ts) = last_time u ts

-- Each failure is reported before the history of the last one expires.
abbrev pub IsTimely : ℕ → ℤ → List ℤ → Type 0
IsTimely ttl t [] = Unit
IsTimely ttl t (u ∷ ts) = (leb_ℤ (pos ttl) (u -ℤ t) ≡ false) × IsTimely ttl u ts

-- The circuit after `n` failures in a row, the last at time `t`.
abbrev pub tally : ℕ → ℕ → ℤ → DomainCircuit
tally most n t = record {
  state = if leb most n then opened else closed;
  failures = n;
  opened_at = if leb most n then t else pos 0;
  generation = 0;
  last_accessed_at = t;
}

-- Below the threshold.
abbrev counting : ℕ → ℤ → DomainCircuit
counting n t = record {
  state = closed;
  failures = n;
  opened_at = pos 0;
  generation = 0;
  last_accessed_at = t;
}

count_failure-counting :
    (b : CircuitBreaker) (n : ℕ) (u : ℤ)
    → count_failure b (counting n u) u ≡ tally b.max_failures (suc n) u
count_failure-counting b n u = ground arith

record Counts (d : String) (n : ℕ) (t : ℤ) (b : CircuitBreaker) : Type 0 where
  unique : IsUnique b.circuits
  found : get d b.circuits ≡ some (tally b.max_failures n t)

store-Counts :
    (d : String) (n : ℕ) (t : ℤ) (b : CircuitBreaker) (c : DomainCircuit)
    → IsUnique b.circuits
    → c ≡ tally b.max_failures n t
    → Counts d n t (store b d c)
store-Counts d n t b c u e = record {
  unique = put-IsUnique d c b.circuits u;
  found = rw get-put (rw ==-self (ap some e));
}

-- One more failure, on a closed circuit that has not expired.
fail-Counts :
    (d : String) (n : ℕ) (t u : ℤ) (b : CircuitBreaker)
    → Counts d n t b
    → n < b.max_failures
    → leb_ℤ (pos b.inactive_ttl) (u -ℤ t) ≡ false
    → Counts d (suc n) u (record_failure b d none u)
unfolding record_failure failure_pruned prune_inactive_closed fail_known
fail-Counts d n t u b k below timely =
    let p = λ (c : DomainCircuit). not (is_expired b.inactive_ttl u c) in
    let b' = prune_inactive_closed u b in
    let low : leb b.max_failures n ≡ false = ground arith in
    let found : get d b'.circuits ≡ some (tally b.max_failures n t) =
      get-keep p d b.circuits k.unique ∙ ap (only_if p) k.found ∙ rw (low, timely) refl in
    rw (found, failure_pruned)
      (rw low (
        store-Counts d (suc n) u b' _ (keep-IsUnique p b.circuits k.unique)
          (count_failure-counting b n u)))

-- The first failure, with room for the domain.
first-Counts :
    (d : String) (u : ℤ) (b : CircuitBreaker)
    → IsUnique b.circuits
    → get d b.circuits ≡ none
    → length b.circuits < b.max_domains
    → Counts d 1 u (record_failure b d none u)
unfolding record_failure failure_pruned prune_inactive_closed fail_new make_room_for_closed_state
first-Counts d u b unique missing room =
    let p = λ (c : DomainCircuit). not (is_expired b.inactive_ttl u c) in
    let b' = prune_inactive_closed u b in
    let found : get d b'.circuits ≡ none =
      get-keep p d b.circuits unique ∙ ap (only_if p) missing in
    let fits : ltb (length b'.circuits) b.max_domains ≡ true =
      ground (arith, length-keep-le p b.circuits) in
    let free : leb b.max_domains (length b'.circuits) ≡ false =
      ground (arith, length-keep-le p b.circuits) in
    rw (found, failure_pruned)
      (rw fits (
        rw free (
          store-Counts d 1 u b' _ (keep-IsUnique p b.circuits unique)
            (count_failure-counting b 0 u))))

run-SameSettings : (b : CircuitBreaker) (calls : List Call) → SameSettings b (run b calls)
unfolding run
run-SameSettings b [] = record {
  max_failures = refl;
  cooldown = refl;
  max_domains = refl;
  inactive_ttl = refl;
}
run-SameSettings b (call ∷ calls) =
    let first = step-SameSettings b call in
    let rest = run-SameSettings (step b call) calls in
    record {
      max_failures = rest.max_failures ∙ first.max_failures;
      cooldown = rest.cooldown ∙ first.cooldown;
      max_domains = rest.max_domains ∙ first.max_domains;
      inactive_ttl = rest.inactive_ttl ∙ first.inactive_ttl;
    }

add-one-left : (n : ℕ) → 1 + n ≡ suc n
add-one-left n = omega arith

fail_all-Counts :
    (d : String) (n : ℕ) (t : ℤ) (b : CircuitBreaker) (ts : List ℤ)
    → Counts d n t b
    → n + length ts ≤ b.max_failures
    → IsTimely b.inactive_ttl t ts
    → Counts d (n + length ts) (last_time t ts) (fail_all b d ts)
unfolding run step
fail_all-Counts d n t b [] k below timely = rw add-zero k
fail_all-Counts d n t b (u ∷ ts) k below timely =
    rw (add-suc, ← suc-add)
      (fail_all-Counts d (suc n) u (record_failure b d none u) ts
        (fail-Counts d n t u b k (omega arith) timely.0) (rw (same.max_failures) (omega arith))
        (rw (same.inactive_ttl) timely.1))
  where
    same : SameSettings b (record_failure b d none u)
    same = step-SameSettings b (failure_call d none u)

-- From a table that holds no domain twice, has no entry for the domain and has room for one, failures of the domain in a
-- row, each before the history of the last one expires, up to the threshold, leave exactly this
-- circuit: their number, the time of the last, closed below the threshold, and open since the last
-- failure at the threshold.
pub failures_add_up :
    (d : String) (b : CircuitBreaker) (t : ℤ) (ts : List ℤ)
    → IsUnique b.circuits
    → get d b.circuits ≡ none
    → length b.circuits < b.max_domains
    → suc (length ts) ≤ b.max_failures
    → IsTimely b.inactive_ttl t ts
    → get d (fail_all b d (t ∷ ts)).circuits
      ≡ some (tally b.max_failures (suc (length ts)) (last_time t ts))
unfolding run step
failures_add_up d b t ts u missing room most timely =
    (fail_all-Counts d 1 t (record_failure b d none t) ts (first-Counts d t b u missing room)
      (rw (same.max_failures) (omega arith)) (rw (same.inactive_ttl) timely)).found
    ∙ ap (λ n. some (tally n (1 + length ts) (last_time t ts))) whole.max_failures
    ∙ ap (λ n. some (tally b.max_failures n (last_time t ts))) (add-one-left (length ts))
  where
    same : SameSettings b (record_failure b d none t)
    same = step-SameSettings b (failure_call d none t)

    whole : SameSettings b (fail_all b d (t ∷ ts))
    whole = run-SameSettings b (map (λ t. failure_call d none t) (t ∷ ts))
