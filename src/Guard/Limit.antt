-- ===== src/Guard/Limit.antt =====
-- Page limits of src/scrapeyard/engine/domain_guard.py.
use scrapeyard.Prelude.{
  ℕ, ◌+◌, ◌≤◌, ◌<◌, ◌≡◌, refl, String, Bool, true, false, inl, inr, arith, Option, none, some, List,
  [], ◌∷◌, ◌==◌, text_keys, pair_keys, Bool-cases, if◌then◌else◌,
}
use scrapeyard.Prelude.Dict.{get, get-put}
use scrapeyard.Guard.{or_zero, is_used_up}
use scrapeyard.Guard.Local
use scrapeyard.Guard.Local.{LocalDomainGuard, local_guard, remaining_until}
use scrapeyard.Guard.Keeping.{IsStable, AllTimes, follow_all-Kept}
use scrapeyard.Guard.Policy.{HostNames, RunDomainPolicy, PolicyCall, follow_all}

-- No host has more pages than the limit on any day.
abbrev pub IsWithin : ℕ → LocalDomainGuard → Type 0
IsWithin limit g = (h d : String) → or_zero (get (h, d) g.pages) ≤ limit

or_zero_if :
    (limit n : ℕ) (b : Bool) (o : Option ℕ)
    → n ≤ limit
    → or_zero o ≤ limit
    → or_zero (if b then some n else o) ≤ limit
or_zero_if limit n true o p q = p
or_zero_if limit n false o p q = q

consume-IsWithin :
    (limit : ℕ) (host day : String) (now : ℕ) (g : LocalDomainGuard)
    → 0 < limit
    → IsWithin limit g
    → IsWithin limit (Local.consume_page host limit day now g).1
unfolding Local.consume_page
consume-IsWithin limit host day now g l w h d =
    let k : String × String = (host, day) in
    let j : String × String = (h, d) in
    elim (Bool-cases (is_used_up limit (or_zero (get k g.pages)))) [
      | inl up ↦ rw up (w h d)
      | inr free ↦
          let room : or_zero (get k g.pages) + 1 ≤ limit = ground arith in
          rw (free, get-put k j (or_zero (get k g.pages) + 1) g.pages)
            (or_zero_if limit _ (k == j) _ room (w h d))
    ]

remaining-pages :
    (host : String) (now : ℕ) (g : LocalDomainGuard)
    → (Local.cooldown_remaining host now g).1.pages ≡ g.pages
unfolding Local.cooldown_remaining
remaining-pages host now g = found (get host g.cooldowns)
  where
    found : (o : Option ℕ) → (remaining_until host now o g).1.pages ≡ g.pages
    found none = refl
    found (some d) = ground arith

started-pages :
    (host : String) (seconds now : ℕ) (g : LocalDomainGuard)
    → (Local.start_cooldown host seconds now g).pages ≡ g.pages
unfolding Local.start_cooldown
started-pages host seconds now g = ground arith

IsWithin-IsStable :
    (limit seconds : ℕ)
    → 0 < limit
    → IsStable local_guard limit seconds (λ _. Unit {0}) (IsWithin limit)
IsWithin-IsStable limit seconds l = record {
  consume = λ host day now g _ w. consume-IsWithin limit host day now g l w;
  wait = λ host now g _ w h d. rw (remaining-pages host now g) (w h d);
  start = λ host now g _ w h d. rw (started-pages host seconds now g) (w h d);
}

at_any_time : (calls : List PolicyCall) → AllTimes (λ _. Unit {0}) calls
at_any_time [] = tt
at_any_time (c ∷ cs) = (tt, at_any_time cs)

-- With a daily page limit above 0 and the guard in the process, whatever pages a run asks for, at any
-- times and with any denials in between, no host is counted more pages on any day than the limit,
-- if none was before.
pub follow_all-IsWithin :
    (N : HostNames) (calls : List PolicyCall) (p : RunDomainPolicy N local_guard)
    → 0 < p.daily_page_limit
    → IsWithin p.daily_page_limit p.guard
    → IsWithin p.daily_page_limit (follow_all N local_guard calls p).guard
follow_all-IsWithin N calls p l w =
    (follow_all-Kept local_guard p.daily_page_limit p.cooldown_seconds (λ _. Unit {0})
      (IsWithin p.daily_page_limit) N (IsWithin-IsStable p.daily_page_limit p.cooldown_seconds l)
      calls p (at_any_time calls)
      (record { its_limit = refl; its_seconds = refl; its_guard = w })).its_guard
