-- ===== src/RateLimit/Waiting.antt =====
-- The wait that a refused request is told, src/scrapeyard/engine/rate_limiter.py.
use scrapeyard.Prelude.{
  ℕ, ◌+◌, ◌-◌, ◌*◌, ◌/◌, ◌≤◌, ◌≡◌, ◌⊎◌, refl, sym, ◌∙◌, subst, String, true, false, ltb, leb, inl,
  inr, arith, Option, none, some, ==-self, text_keys, Bool-cases,
}
use scrapeyard.Guard.Redis.{Server, IsRedis, Entry, alive, value_of}
use scrapeyard.RateLimit.{
  rate_key, ttl_of, acquired, wait_more, IsRounded, remaining_ms, decide, lua_acquire, try_acquire,
}

due_is_acquired :
    (R : Server) (I : IsRedis R) (written : ℕ → ℕ) (domain : String) (m later v : ℕ) (d : Option ℕ)
    (t : R.State)
    → R.entry (rate_key domain) t ≡ some (v, d)
    → v + 1000 * m ≤ later
    → (try_acquire R written domain m later t).0 ≡ acquired
unfolding try_acquire lua_acquire
due_is_acquired R I written domain m later v none t e l =
    let on : ltb later v ≡ false = ground arith in
    let long : leb (1000 * m) (later - v) ≡ true = ground arith in
    rw (I.read_value, e, on, long) refl
due_is_acquired R I written domain m later v (some x) t e l =
    let on : ltb later v ≡ false = ground arith in
    let long : leb (1000 * m) (later - v) ≡ true = ground arith in
    rw (I.read_value, e)
      (elim (Bool-cases (ltb (later / 1000) x)) [
        | inl here ↦ rw (here, on, long) refl
        | inr gone ↦ rw gone refl
      ])

remaining_enough : (m elapsed : ℕ) → 1000 * m ≤ elapsed + 1000 * remaining_ms m elapsed
unfolding remaining_ms
remaining_enough m elapsed = omega arith

remaining_of : {r n : ℕ} → wait_more n ≡ wait_more r → r ≡ n
remaining_of h = cc

-- What a refusal leaves: an entry that is due when the wait is over.
refused_entry :
    (R : Server) (I : IsRedis R) (written : ℕ → ℕ) (N : IsRounded written) (domain : String)
    (m now r : ℕ) (o : Option Entry) (s : R.State)
    → R.entry (rate_key domain) s ≡ o
    → (decide R written (rate_key domain) m (ttl_of m) now (value_of (alive (now / 1000) o)) s).0
      ≡ wait_more r
    → (v : ℕ) × (d : Option ℕ) × (R.entry
          (rate_key domain)
          (decide R written
            (rate_key domain)
            m
            (ttl_of m)
            now
            (value_of (alive (now / 1000) o))
            s).1
        ≡ some (v, d))
      × (v + 1000 * m ≤ now + 1000 * r + 50)
refused_entry R I written N domain m now r none s e h = absurd (cc)
refused_entry R I written N domain m now r (some (v, d)) s e h =
    seen_entry (alive_value (now / 1000) v d)
  where
    alive_value :
        (at v : ℕ) (d : Option ℕ)
        → (value_of (alive at (some (v, d))) ≡ none) ⊎ (value_of (alive at (some (v, d))) ≡ some v)
    alive_value at v none = inr refl
    alive_value at v (some x) = elim (Bool-cases (ltb at x)) [
      | inl here ↦ inr (rw here refl)
      | inr gone ↦ inl (rw gone refl)
    ]

    Left : Option ℕ → Type 0
    Left w =
        (u : ℕ) × (x : Option ℕ) × (R.entry (rate_key domain)
            (decide R written (rate_key domain) m (ttl_of m) now w s).1
          ≡ some (u, x))
        × (u + 1000 * m ≤ now + 1000 * r + 50)

    held :
        (decide R written (rate_key domain) m (ttl_of m) now (some v) s).0 ≡ wait_more r
        → Left (some v)
    held h = elim (Bool-cases (ltb now v)) [
      | inl back ↦ rw back (
        written now,
        some (now / 1000 + 1000 * ttl_of m),
        rw (I.set_entry, ==-self (rate_key domain)) refl,
        omega (arith, remaining_of (rw back at h), (N now).0),
      )
      | inr on ↦ elim (Bool-cases (leb (1000 * m) (now - v))) [
        | inl long ↦ absurd (let c : acquired ≡ wait_more r = (rw (on, long) at h) in cc)
        | inr short ↦
            let it : r ≡ remaining_ms m (now - v) = remaining_of (rw (on, short) at h) in
            rw (on, short) (v, d, e, let h = remaining_enough m (now - v) in ground (arith, h))
      ]
    ]

    seen_entry :
        (value_of (alive (now / 1000) (some (v, d))) ≡ none)
          ⊎ (value_of (alive (now / 1000) (some (v, d))) ≡ some v)
        → Left (value_of (alive (now / 1000) (some (v, d))))
    seen_entry (inl q) = absurd (let c : acquired ≡ wait_more r = (rw q at h) in cc)
    seen_entry (inr q) = subst Left (sym q) (held (rw q at h))

-- Where the server does what the documentation of Redis says and Lua writes times to the nearest 100
-- microseconds, a request that must wait is granted at its next try, 50 microseconds after the time it
-- is told to wait for or later, if nobody else is granted the domain in between: while the entry under
-- its key stays.
pub wait_is_enough :
    (R : Server) (I : IsRedis R) (written : ℕ → ℕ) (N : IsRounded written) (domain : String)
    (m now later r : ℕ) (s t : R.State)
    → (try_acquire R written domain m now s).0 ≡ wait_more r
    → R.entry (rate_key domain) t
      ≡ R.entry (rate_key domain) (try_acquire R written domain m now s).1
    → now + 1000 * r + 50 ≤ later
    → (try_acquire R written domain m later t).0 ≡ acquired
unfolding try_acquire lua_acquire
wait_is_enough R I written N domain m now later r s t h e l =
    let k = rate_key domain in
    let (v, d, f, n) =
      refused_entry R I written N domain m now r (R.entry k s) s refl (rw (I.read_value) at h) in
    due_is_acquired R I written domain m later v d t (e ∙ rw (I.read_value) f) (omega (arith, n))
