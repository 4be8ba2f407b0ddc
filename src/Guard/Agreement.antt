-- ===== src/Guard/Agreement.antt =====
-- The two guards of src/scrapeyard/engine/domain_guard.py side by side.
use scrapeyard.Prelude.{
  ℕ, ◌+◌, ◌-◌, ◌*◌, ◌≤◌, ◌<◌, ◌≡◌, refl, sym, ap, ◌∙◌, subst, String, ltb, leb, inl, inr, arith,
  leb→le, Option, none, some, List, [], ◌∷◌, ◌==◌, text_keys, pair_keys, Bool-cases,
}
use scrapeyard.Prelude.Dict.{get, put, get-put, get-remove}
use scrapeyard.Guard.{
  GuardCall, consume, remaining, start, look, wipe, counted, left, seen, or_zero, is_used_up, step,
  answers,
}
use scrapeyard.Guard.Local
use scrapeyard.Guard.Local.{
  LocalDomainGuard, local_guard, new_local_guard, remaining_until, without_host,
}
use scrapeyard.Guard.Redis
use scrapeyard.Guard.Redis.{
  Server, IsRedis, Entry, RedisDomainGuard, redis_guard, pages_key, cooldown_key, alive, value_of,
  deadline_of, with_deadline, time_to_live, positive, lua_consume, count_page, consume_turns,
  answer_of, load_script, day_key_ttl_seconds,
}
use scrapeyard.Guard.Keys.{pages_key-ne-cooldown_key}
use scrapeyard.Guard.Entries.{
  SamePages, cooldown_end, same_count, same_left, counted-SamePages, later, remaining_left,
  get-without_host, test_pages_key, test_cooldown_key, get-put_day, SamePages-if, left_if,
  left_if_over, other_key, counted_entries, turns_answer,
}

module _ (R : Server) (day : String) (end : ℕ) where
  pub record Agree (now : ℕ) (r : R.State) (g : LocalDomainGuard) : Type 0 where
    pub pages : (h : String) → SamePages end (R.entry (pages_key h day) r) (get (h, day) g.pages)
    pub cooldowns :
        (h : String)
        → cooldown_end (R.entry (cooldown_key h) r) - now ≡ or_zero (get h g.cooldowns) - now

module _ (R : Server) (I : IsRedis R) where
  module _ (day : String) (end : ℕ) where
    abbrev IfDay : ℕ → Type 0
    IfDay now = (now < end) × (end ≤ now + 1000 * day_key_ttl_seconds)

    waited-Agree :
        (now now' : ℕ) (r : R.State) (g : LocalDomainGuard)
        → now ≤ now'
        → Agree R day end now r g
        → Agree R day end now' r g
    waited-Agree now now' r g l a = record {
      pages = a.pages;
      cooldowns = λ h. later _ _ now now' l (a.cooldowns h);
    }

    module _ (now : ℕ) (t : IfDay now) (r : R.State) (g : LocalDomainGuard)
        (a : Agree R day end now r g) where
      same_read :
          (h : String) → or_zero (R.read (pages_key h day) now r) ≡ or_zero (get (h, day) g.pages)
      same_read h = rw (I.read_value) (same_count end now _ _ t.0 (a.pages h))

      same_cooldown :
          (h : String)
          → positive (R.pttl (cooldown_key h) now r) ≡ or_zero (get h g.cooldowns) - now
      same_cooldown h = rw (I.pttl_value) (same_left now _ ∙ a.cooldowns h)

      count-Agree :
          (h : String)
          → Agree R day end now
              (count_page R (pages_key h day) day_key_ttl_seconds now r).1
              (record g { pages = put (h, day) (or_zero (get (h, day) g.pages) + 1) g.pages })
      count-Agree h = record {
        pages = λ j.
            rw
              (
                counted_entries R I (pages_key h day) (pages_key j day) now r,
                get-put_day,
                test_pages_key,
              )
              (SamePages-if end (h == j) _ _ _ _ (counted-SamePages end now _ _ t.0 t.1 (a.pages h))
                (a.pages j));
        cooldowns = λ j.
            rw
              (
                counted_entries R I (pages_key h day) (cooldown_key j) now r,
                other_key (pages_key h day) (cooldown_key j) _ _
                    (pages_key-ne-cooldown_key h j day),
              )
              (a.cooldowns j);
      }

      lua-Agree :
          (h : String) (limit : ℕ)
          → (answer_of (lua_consume R (pages_key h day) limit day_key_ttl_seconds now r).0
              ≡ (Local.consume_page h limit day now g).0)
            × Agree R day end now
                (lua_consume R (pages_key h day) limit day_key_ttl_seconds now r).1
                (Local.consume_page h limit day now g).1
      unfolding lua_consume Local.consume_page
      lua-Agree h limit = elim (Bool-cases (is_used_up limit (or_zero (get (h, day) g.pages)))) [
        | inl up ↦ rw (same_read h, up) (refl, a)
        | inr free ↦
            rw (same_read h, free)
              (rw (I.incr_value, same_count end now _ _ t.0 (a.pages h)) refl, count-Agree h)
      ]

      cooldown-Agree : (h : String) → Agree R day end now r (Local.cooldown_remaining h now g).1
      unfolding Local.cooldown_remaining
      cooldown-Agree h = found (get h g.cooldowns) refl
        where
          found :
              (o : Option ℕ)
              → get h g.cooldowns ≡ o
              → Agree R day end now r (remaining_until h now o g).1
          found none e = a
          found (some d) e = elim (Bool-cases (leb d now)) [
            | inl over ↦ rw over (record {
              pages = a.pages;
              cooldowns = λ j. rw (get-remove h j g.cooldowns) (
                  left_if_over now d (h == j) (R.entry (cooldown_key j) r) (get j g.cooldowns)
                    (leb→le d now over)
                    (λ same. ap (λ k. get k g.cooldowns) (sym ((text_keys.decides h j).0 same)) ∙ e)
                    (a.cooldowns j));
            })
            | inr waits ↦ rw waits a
          ]

      start-Agree :
          (h : String) (seconds : ℕ)
          → Agree R day end now
              (R.set_ex (cooldown_key h) 1 seconds now r)
              (record g { cooldowns = put h (now + 1000 * seconds) g.cooldowns })
      start-Agree h seconds = record {
        pages = λ j.
            rw
              (
                I.set_entry,
                other_key (cooldown_key h) (pages_key j day) _ _
                    (λ e. pages_key-ne-cooldown_key j h day (sym e)),
              )
              (a.pages j);
        cooldowns = λ j.
            rw (I.set_entry, test_cooldown_key, get-put h j)
              (left_if now (h == j) _ _ _ _ refl (a.cooldowns j));
      }

      clear-Agree :
          (h : String)
          → Agree R day end now
              (R.delete (pages_key h day) (R.delete (cooldown_key h) r))
              (Local.clear h day now g)
      unfolding Local.clear
      clear-Agree h = record {
        pages = λ j.
            rw
              (
                I.delete_entry (pages_key h day),
                test_pages_key,
                I.delete_entry,
                other_key (cooldown_key h) (pages_key j day) _ _
                    (λ e. pages_key-ne-cooldown_key j h day (sym e)),
                get-without_host,
              )
              (SamePages-if end (h == j) none _ none _ tt (a.pages j));
        cooldowns = λ j.
            rw
              (
                I.delete_entry (pages_key h day),
                other_key (pages_key h day) (cooldown_key j) _ _
                    (pages_key-ne-cooldown_key h j day),
                I.delete_entry,
                test_cooldown_key,
                get-remove h j,
              )
              (left_if now (h == j) none _ none _ refl (a.cooldowns j));
      }

same_status :
    (host day : String) (n m k l : ℕ)
    → n ≡ k
    → m ≡ l
    → seen (record { host = host; day = day; pages_today = n; cooldown_remaining = m })
      ≡ seen (record { host = host; day = day; pages_today = k; cooldown_remaining = l })
same_status host day n m k l p q = rw (p, q) refl

module _ (R : Server) (I : IsRedis R) (losses : ℕ → ℕ) (day : String) (end : ℕ) where
  -- One call of each guard: the answers are the same, and the guards still agree.
  step-Agree :
      (now : ℕ) (c : GuardCall) (r : RedisDomainGuard R) (g : LocalDomainGuard)
      → (now < end) × (end ≤ now + 1000 * day_key_ttl_seconds)
      → Agree R day end now r.data_base g
      → ((step (redis_guard R losses) day now c r).0 ≡ (step local_guard day now c g).0)
        × Agree R day end now
            (step (redis_guard R losses) day now c r).1.data_base
            (step local_guard day now c g).1
  unfolding step Redis.consume_page Redis.cooldown_remaining Redis.start_cooldown Redis.status
      Redis.clear Local.start_cooldown Local.status Local.cooldown_remaining
  step-Agree now (consume host limit) r g t a =
      let turned =
        turns_answer R I (losses now) r.script_sha (pages_key host day) limit now r.data_base in
      let counts = lua-Agree R I day end now t r.data_base g a host limit in
      (
        ap counted (turned.0 ∙ counts.0),
        subst (λ x. Agree R day end now x (Local.consume_page host limit day now g).1)
            (sym turned.1) counts.1,
      )
  step-Agree now (remaining host) r g t a = (
    ap left (
        same_cooldown R I day end now t r.data_base g a host
        ∙ sym (remaining_left host now g (get host g.cooldowns))),
    cooldown-Agree R I day end now t r.data_base g a host,
  )
  step-Agree now (start host n) r g t a = elim (Bool-cases (ltb 0 n)) [
    | inl some_time ↦ rw some_time (refl, start-Agree R I day end now t r.data_base g a host n)
    | inr no_time ↦ rw no_time (refl, a)
  ]
  step-Agree now (look host) r g t a = (
    same_status host day _ _ _ _ (same_read R I day end now t r.data_base g a host) (
        same_cooldown R I day end now t r.data_base g a host
        ∙ sym (remaining_left host now g (get host g.cooldowns))),
    cooldown-Agree R I day end now t r.data_base g a host,
  )
  step-Agree now (wipe host) r g t a = (refl, clear-Agree R I day end now t r.data_base g a host)

-- Times that do not run back, from one on and before an end.
abbrev pub InOrder : ℕ → ℕ → List (ℕ × GuardCall) → Type 0
InOrder from end [] = Unit {0}
InOrder from end ((now, _) ∷ cs) = (from ≤ now) × (now < end) × InOrder now end cs

agreeing_answers :
    (R : Server) (I : IsRedis R) (losses : ℕ → ℕ) (day : String) (end from : ℕ)
    (cs : List (ℕ × GuardCall)) (r : RedisDomainGuard R) (g : LocalDomainGuard)
    → end ≤ from + 1000 * day_key_ttl_seconds
    → InOrder from end cs
    → Agree R day end from r.data_base g
    → answers (redis_guard R losses) day cs r ≡ answers local_guard day cs g
unfolding answers
agreeing_answers R I losses day end from [] r g l o a = refl
agreeing_answers R I losses day end from ((now, c) ∷ cs) r g l (f, b, o) a =
    let next =
      step-Agree R I losses day end now c r g (b, omega arith)
        (waited-Agree R I day end from now r.data_base g f a) in
    let rest =
      agreeing_answers R I losses day end now cs (step (redis_guard R losses) day now c r).1
        (step local_guard day now c g).1 (omega arith) o next.1 in
    ap (λ x. x ∷ answers (redis_guard R losses) day cs (step (redis_guard R losses) day now c r).1)
      next.0
    ∙ ap (λ xs. (step local_guard day now c g).0 ∷ xs) rest

-- The guard over Redis and the guard in the process give the same answers to every sequence of
-- calls that belong to one day, in order of time and within two days, when both start without
-- counters and cooldowns, provided that the server does what the documentation of Redis says. It
-- does not matter how often the server loses the script.
pub redis_guard-local_guard :
    (R : Server) (I : IsRedis R) (losses : ℕ → ℕ) (sha : Option String) (s : R.State) (day : String)
    (from end : ℕ) (cs : List (ℕ × GuardCall))
    → ((k : String) → R.entry k s ≡ none)
    → end ≤ from + 1000 * day_key_ttl_seconds
    → InOrder from end cs
    → answers (redis_guard R losses) day cs (record { script_sha = sha; data_base = s })
      ≡ answers local_guard day cs new_local_guard
unfolding new_local_guard get
redis_guard-local_guard R I losses sha s day from end cs e l o =
    agreeing_answers R I losses day end from cs (record { script_sha = sha; data_base = s })
      new_local_guard l o
      (record {
        pages = λ h. rw (e (pages_key h day)) tt;
        cooldowns = λ h. rw (e (cooldown_key h)) refl;
      })
