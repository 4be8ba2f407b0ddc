-- ===== src/RateLimit/Spacing.antt =====
-- The time between two requests to a domain under src/scrapeyard/engine/rate_limiter.py.
use scrapeyard.Prelude.{
  ℕ, ◌+◌, ◌-◌, ◌*◌, ◌/◌, ◌≤◌, ◌≡◌, ◌≢◌, ◌⊎◌, refl, sym, subst, String, true, false, ltb, leb, inl,
  inr, arith, Option, none, some, List, [], ◌∷◌, ◌==◌, ==-self, text_keys, Bool-cases,
}
use text.Mathlib.TextLemmas.{append_cancel_left}
use scrapeyard.Guard.Redis.{Server, IsRedis, Entry, alive, value_of}
use scrapeyard.RateLimit.{
  rate_key, ttl_of, Answer, acquired, wait_more, IsRounded, remaining_ms, set_last, decide,
  lua_acquire, try_acquire, add_granted, granted,
}

rate_key_inj : (d e : String) → rate_key d ≡ rate_key e → d ≡ e
unfolding rate_key
rate_key_inj d e h = append_cancel_left "scrapeyard:rate:" d e h

-- The entry of a domain that was granted at a time or later, as Lua wrote it, and how long it lasts.
abbrev HoldsSince : ℕ → ℕ → Option Entry → Type 0
HoldsSince g m (some (v, some d)) = (g ≤ v + 50) × (g + 1000 * m ≤ 1000 * d)
HoldsSince g m _ = ⊥

ttl_long_enough : (m g now : ℕ) → g ≤ now → g + 1000 * m ≤ 1000 * (now / 1000 + 1000 * ttl_of m)
unfolding ttl_of
ttl_long_enough m g now l = omega arith

module _ (R : Server) (I : IsRedis R) (written : ℕ → ℕ) (N : IsRounded written) where
  written_since :
      (g m now : ℕ) (d : String) (s : R.State)
      → g ≤ now
      → HoldsSince g m (R.entry (rate_key d) (set_last R written (rate_key d) (ttl_of m) now s))
  written_since g m now d s l =
      rw (I.set_entry, ==-self (rate_key d))
        (let h = (N now).1 in omega arith, ttl_long_enough m g now l)

  other_entry :
      (d e : String) (m now : ℕ) (s : R.State)
      → (d == e) ≡ false
      → R.entry (rate_key e) (set_last R written (rate_key d) (ttl_of m) now s)
        ≡ R.entry (rate_key e) s
  other_entry d e m now s h = elim (Bool-cases (rate_key d == rate_key e)) [
    | inl same ↦ absurd (
        let g : (d == e) ≡ true =
          (text_keys.decides d e).1
            (rate_key_inj d e ((text_keys.decides (rate_key d) (rate_key e)).0 same)) in
        cc)
    | inr apart ↦ rw (I.set_entry, apart) refl
  ]

  -- What a try of the same domain does when there was a grant.
  decided :
      (g m now : ℕ) (d : String) (o : Option Entry) (s : R.State)
      → g ≤ now
      → R.entry (rate_key d) s ≡ o
      → HoldsSince g m o
      → let x =
          decide R written (rate_key d) m (ttl_of m) now (value_of (alive (now / 1000) o)) s in
        HoldsSince g m (R.entry (rate_key d) x.1) × (x.0 ≡ acquired → g + 1000 * m ≤ now + 50)
  decided g m now d none s l e h = elim h [ ]
  decided g m now d (some (v, none)) s l e h = elim h [ ]
  decided g m now d (some (v, some t)) s l e (a, b) = elim (Bool-cases (ltb (now / 1000) t)) [
    | inr gone ↦ rw gone (written_since g m now d s l, λ _. ground arith)
    | inl here ↦ rw here (elim (Bool-cases (ltb now v)) [
      | inl back ↦ rw back (written_since g m now d s l, λ h. absurd (cc))
      | inr on ↦ rw on (elim (Bool-cases (leb (1000 * m) (now - v))) [
        | inl long ↦ rw long (written_since g m now d s l, λ _. ground arith)
        | inr short ↦ rw short (rw e (a, b), λ h. absurd (cc))
      ])
    ])
  ]

  -- A try of another domain leaves the entry alone.
  elsewhere :
      (d e : String) (m now : ℕ) (o : Option ℕ) (s : R.State)
      → (d == e) ≡ false
      → R.entry (rate_key e) (decide R written (rate_key d) m (ttl_of m) now o s).1
        ≡ R.entry (rate_key e) s
  elsewhere d e m now none s h = other_entry d e m now s h
  elsewhere d e m now (some v) s h = elim (Bool-cases (ltb now v)) [
    | inl back ↦ rw back (other_entry d e m now s h)
    | inr on ↦ rw on (elim (Bool-cases (leb (1000 * m) (now - v))) [
      | inl long ↦ rw long (other_entry d e m now s h)
      | inr short ↦ rw short refl
    ])
  ]

  -- After an acquisition the entry is the new time.
  acquired_since :
      (d : String) (m now : ℕ) (o : Option ℕ) (s : R.State)
      → (decide R written (rate_key d) m (ttl_of m) now o s).0 ≡ acquired
      → HoldsSince now m
          (R.entry (rate_key d) (decide R written (rate_key d) m (ttl_of m) now o s).1)
  acquired_since d m now none s h = written_since now m now d s (omega arith)
  acquired_since d m now (some v) s h = elim (Bool-cases (ltb now v)) [
    | inl back ↦ absurd (let c : wait_more m ≡ acquired = (rw back at h) in cc)
    | inr on ↦ elim (Bool-cases (leb (1000 * m) (now - v))) [
      | inl long ↦ rw (on, long) (written_since now m now d s (omega arith))
      | inr short ↦
          absurd
            (let c : wait_more (remaining_ms m (now - v)) ≡ acquired = (rw (on, short) at h) in cc)
    ]
  ]

-- Every grant of a domain comes at a time or later, but for what the rounding of a time may lose.
abbrev pub NotBefore : String → ℕ → List (String × ℕ) → Type 0
NotBefore d g [] = Unit {0}
NotBefore d g ((e, now) ∷ out) = ((e ≢ d) ⊎ (g ≤ now + 50)) × NotBefore d g out

-- Each grant is followed by no other of its domain before the interval is over.
abbrev pub Spaced : (String → ℕ) → List (String × ℕ) → Type 0
Spaced interval [] = Unit {0}
Spaced interval ((d, now) ∷ out) = NotBefore d (now + 1000 * interval d) out × Spaced interval out

-- Times that do not run back.
abbrev pub InOrder : ℕ → List (String × ℕ) → Type 0
InOrder from [] = Unit {0}
InOrder from ((_, now) ∷ tries) = (from ≤ now) × InOrder now tries

module _ (R : Server) (I : IsRedis R) (written : ℕ → ℕ) (N : IsRounded written)
    (interval : String → ℕ) where
  try_held :
      (g : ℕ) (d : String) (now : ℕ) (s : R.State)
      → g ≤ now
      → HoldsSince g (interval d) (R.entry (rate_key d) s)
      → HoldsSince g
          (interval d)
          (R.entry (rate_key d) (try_acquire R written d (interval d) now s).1)
        × ((try_acquire R written d (interval d) now s).0 ≡ acquired
            → g + 1000 * interval d ≤ now + 50)
  unfolding try_acquire lua_acquire
  try_held g d now s l h =
      rw (I.read_value)
        (decided R I written N g (interval d) now d (R.entry (rate_key d) s) s l refl h)

  StepHeld : ℕ → String → ℕ → R.State → String → Type 0
  StepHeld g d now s e =
      HoldsSince g (interval d)
        (R.entry (rate_key d) (try_acquire R written e (interval e) now s).1)
      × ((try_acquire R written e (interval e) now s).0 ≡ acquired
          → (e ≢ d) ⊎ (g + 1000 * interval d ≤ now + 50))

  step-StepHeld :
      (g : ℕ) (d e : String) (now : ℕ) (s : R.State)
      → g ≤ now
      → HoldsSince g (interval d) (R.entry (rate_key d) s)
      → StepHeld g d now s e
  unfolding StepHeld try_acquire lua_acquire
  step-StepHeld g d e now s l h = elim (Bool-cases (e == d)) [
    | inl same ↦
        let (kept, late) = try_held g d now s l h in
        subst (StepHeld g d now s) (sym ((text_keys.decides e d).0 same)) (kept, λ a. inr (late a))
    | inr apart ↦ (
      rw (elsewhere R I written N e d (interval e) now (R.read (rate_key e) (now / 1000) s) s apart)
          h,
      λ _. inl (λ q. let c : (e == d) ≡ true = (text_keys.decides e d).1 q in absurd (cc)),
    )
  ]

  add_granted-NotBefore :
      (d : String) (g : ℕ) (e : String) (now : ℕ) (a : Answer) (out : List (String × ℕ))
      → (a ≡ acquired → (e ≢ d) ⊎ (g ≤ now + 50))
      → NotBefore d g out
      → NotBefore d g (add_granted (e, now) a out)
  add_granted-NotBefore d g e now acquired out h rest = (h refl, rest)
  add_granted-NotBefore d g e now (wait_more n) out h rest = rest

  granted-NotBefore :
      (g : ℕ) (d : String) (from : ℕ) (tries : List (String × ℕ)) (s : R.State)
      → g ≤ from
      → InOrder from tries
      → HoldsSince g (interval d) (R.entry (rate_key d) s)
      → NotBefore d (g + 1000 * interval d) (granted R written interval tries s)
  unfolding granted StepHeld
  granted-NotBefore g d from [] s l o h = tt
  granted-NotBefore g d from ((e, now) ∷ tries) s l (f, o) h =
      let (kept, late) = step-StepHeld g d e now s (omega arith) h in
      add_granted-NotBefore d (g + 1000 * interval d) e now
        (try_acquire R written e (interval e) now s).0 _ late
        (granted-NotBefore g d now tries (try_acquire R written e (interval e) now s).1
          (omega arith) o kept)

  add_granted-Spaced :
      (e : String) (now : ℕ) (a : Answer) (out : List (String × ℕ))
      → (a ≡ acquired → NotBefore e (now + 1000 * interval e) out)
      → Spaced interval out
      → Spaced interval (add_granted (e, now) a out)
  add_granted-Spaced e now acquired out h rest = (h refl, rest)
  add_granted-Spaced e now (wait_more n) out h rest = rest

  try_since :
      (d : String) (now : ℕ) (s : R.State)
      → (try_acquire R written d (interval d) now s).0 ≡ acquired
      → HoldsSince now
          (interval d)
          (R.entry (rate_key d) (try_acquire R written d (interval d) now s).1)
  unfolding try_acquire lua_acquire
  try_since d now s h =
      acquired_since R I written N d (interval d) now (R.read (rate_key d) (now / 1000) s) s h

  granted-Spaced_from :
      (from : ℕ) (tries : List (String × ℕ)) (s : R.State)
      → InOrder from tries
      → Spaced interval (granted R written interval tries s)
  unfolding granted
  granted-Spaced_from from [] s o = tt
  granted-Spaced_from from ((d, now) ∷ tries) s (f, o) =
      let s' = (try_acquire R written d (interval d) now s).1 in
      add_granted-Spaced d now (try_acquire R written d (interval d) now s).0
        (granted R written interval tries s')
        (λ h. granted-NotBefore now d now tries s' (omega arith) o (try_since d now s h))
        (granted-Spaced_from now tries s' o)

-- Where the interval of a domain is the same for all workers, the server does what the documentation
-- of Redis says, Lua writes times to the nearest 100 microseconds and the server's clock does not run
-- back, the requests to a domain that are granted, among all tries of all workers, are at least the
-- interval less 50 microseconds apart, whatever was stored before.
pub granted-Spaced :
    (R : Server) (I : IsRedis R) (written : ℕ → ℕ) (N : IsRounded written) (interval : String → ℕ)
    (from : ℕ) (tries : List (String × ℕ)) (s : R.State)
    → InOrder from tries
    → Spaced interval (granted R written interval tries s)
granted-Spaced R I written N interval from tries s o =
    granted-Spaced_from R I written N interval from tries s o
