-- ===== src/Guard/Cooldown.antt =====
-- Cooldowns of src/scrapeyard/engine/domain_guard.py.
use scrapeyard.Prelude.{
  ℕ, suc, ◌+◌, ◌-◌, ◌*◌, ◌≤◌, ◌<◌, ◌≡◌, refl, sym, ap, ◌∙◌, String, false, ltb, leb, inl, inr,
  arith, Option, none, some, List, ◌==◌, ==-self, text_keys, Bool-cases, lt→ltb, leb→le, eq_of_some,
}
use scrapeyard.Prelude.Dict.{get, get-put, get-remove}
use scrapeyard.Guard.Local
use scrapeyard.Guard.Local.{LocalDomainGuard, local_guard, remaining_until}
use scrapeyard.Guard.Keeping.{IsStable, AllTimes, follow_all-Kept}
use scrapeyard.Guard.Policy.{
  HostNames, RunDomainPolicy, PolicyCall, cooling, domain_guard_host, admit, record_denial,
  follow_all,
}

-- The host cools down until a time at least.
abbrev pub IsCooling : String → ℕ → LocalDomainGuard → Type 0
IsCooling host until g = (d : ℕ) × (get host g.cooldowns ≡ some d) × (until ≤ d)

consume-cooldowns :
    (host : String) (limit : ℕ) (day : String) (now : ℕ) (g : LocalDomainGuard)
    → (Local.consume_page host limit day now g).1.cooldowns ≡ g.cooldowns
unfolding Local.consume_page
consume-cooldowns host limit day now g = ground arith

wait-IsCooling :
    (h : String) (until : ℕ) (host : String) (now : ℕ) (g : LocalDomainGuard)
    → now < until
    → IsCooling h until g
    → IsCooling h until (Local.cooldown_remaining host now g).1
unfolding Local.cooldown_remaining
wait-IsCooling h until host now g l (d, e, u) = found (get host g.cooldowns) refl
  where
    found :
        (o : Option ℕ)
        → get host g.cooldowns ≡ o
        → IsCooling h until (remaining_until host now o g).1
    found none f = (d, e, u)
    found (some t) f = elim (Bool-cases (leb t now)) [
      | inl over ↦ rw over (elim (Bool-cases (host == h)) [
        | inl same ↦
            let own : d ≡ t =
              eq_of_some (
                sym e
                ∙ ap (λ k. get k g.cooldowns) (sym ((text_keys.decides host h).0 same))
                ∙ f) in
            absurd (omega (arith, own, leb→le t now over))
        | inr other ↦ (d, get-remove host h g.cooldowns ∙ rw other e, u)
      ])
      | inr waits ↦ rw waits (d, e, u)
    ]

start-IsCooling :
    (h : String) (until : ℕ) (host : String) (seconds now : ℕ) (g : LocalDomainGuard)
    → until ≤ now + 1000 * seconds
    → IsCooling h until g
    → IsCooling h until (Local.start_cooldown host seconds now g)
unfolding Local.start_cooldown
start-IsCooling h until host seconds now g l (d, e, u) = elim (Bool-cases (ltb 0 seconds)) [
  | inl some_time ↦ rw some_time (elim (Bool-cases (host == h)) [
    | inl same ↦ (now + 1000 * seconds, get-put host h _ g.cooldowns ∙ rw same refl, l)
    | inr other ↦ (d, get-put host h _ g.cooldowns ∙ rw other e, u)
  ])
  | inr no_time ↦ rw no_time (d, e, u)
]

-- From a denial to the end of the cooldown that it starts.
abbrev pub Lasts : ℕ → ℕ → ℕ → Type 0
Lasts start seconds now = (start ≤ now) × (now < start + 1000 * seconds)

IsCooling-IsStable :
    (h : String) (limit seconds from : ℕ)
    → IsStable local_guard limit seconds (Lasts from seconds) (IsCooling h (from + 1000 * seconds))
IsCooling-IsStable h limit seconds from = record {
  consume = λ host day now g _ (d, e, u). (d, rw (consume-cooldowns host limit day now g) e, u);
  wait = λ host now g t c. wait-IsCooling h (from + 1000 * seconds) host now g t.1 c;
  start = λ host now g t c.
      start-IsCooling h (from + 1000 * seconds) host seconds now g (omega (arith, t.0)) c;
}

admit_cooling :
    (N : HostNames) (url day : String) (now until : ℕ) (p : RunDomainPolicy N local_guard)
    → 0 < p.cooldown_seconds
    → now < until
    → IsCooling (domain_guard_host N url) until p.guard
    → (r : ℕ) × ((admit N local_guard url day now p).0 ≡ cooling r)
      × (until ≤ now + r)
      × ((admit N local_guard url day now p).1.guard ≡ p.guard)
unfolding admit Local.cooldown_remaining
admit_cooling N url day now until p c l (d, e, u) =
    let waits : leb d now ≡ false = ground arith in
    let host = domain_guard_host N url in
    let counted : d - now ≡ suc (d - now - 1) = omega arith in
    rw (lt→ltb 0 p.cooldown_seconds c, e, waits, counted)
      (suc (d - now - 1), refl, omega arith, refl)

-- After a denial by a host under a policy with cooldowns, and as long as the cooldown lasts, every
-- page of a URL with the same host is refused with the time that remains, at least to the end of
-- that cooldown, and the guard does not change. Other fetches and denials, of any hosts, may come
-- in between, all while the cooldown lasts.
pub denied_host_waits :
    (N : HostNames) (bad url day : String) (from now : ℕ) (calls : List PolicyCall)
    (p : RunDomainPolicy N local_guard)
    → 0 < p.cooldown_seconds
    → domain_guard_host N url ≡ domain_guard_host N bad
    → AllTimes (Lasts from p.cooldown_seconds) calls
    → Lasts from p.cooldown_seconds now
    → let p' = follow_all N local_guard calls (record_denial N local_guard bad from p) in
      (r : ℕ) × ((admit N local_guard url day now p').0 ≡ cooling r)
      × (from + 1000 * p.cooldown_seconds ≤ now + r)
      × ((admit N local_guard url day now p').1.guard ≡ p'.guard)
unfolding record_denial Local.start_cooldown
denied_host_waits N bad url day from now calls p c same times t =
    let host = domain_guard_host N bad in
    let until = from + 1000 * p.cooldown_seconds in
    let first = record_denial N local_guard bad from p in
    let cools : IsCooling host until first.guard =
      rw (lt→ltb 0 p.cooldown_seconds c)
        (until, get-put host host until p.guard.cooldowns ∙ rw (==-self host) refl, omega arith) in
    let kept =
      follow_all-Kept local_guard p.daily_page_limit p.cooldown_seconds
        (Lasts from p.cooldown_seconds) (IsCooling host until) N
        (IsCooling-IsStable host p.daily_page_limit p.cooldown_seconds from) calls first times
        (rw (lt→ltb 0 p.cooldown_seconds c) (record {
          its_limit = refl;
          its_seconds = refl;
          its_guard = (
            until,
            get-put host host until p.guard.cooldowns ∙ rw (==-self host) refl,
            omega arith,
          );
        })) in
    let p' = follow_all N local_guard calls first in
    admit_cooling N url day now until p' (rw (kept.its_seconds) c) t.1 (rw (same) kept.its_guard)
