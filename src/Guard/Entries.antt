-- ===== src/Guard/Entries.antt =====
-- The entries that the two guards of src/scrapeyard/engine/domain_guard.py keep, side by side.
use scrapeyard.Prelude.{
  ℕ, zero, suc, ◌+◌, ◌-◌, ◌*◌, ◌≤◌, ◌<◌, ◌≡◌, ◌≢◌, refl, sym, ap, ◌∙◌, String, Bool, true, false,
  ◌&&◌, nat_eq, inl, inr, arith, lt→ltb, Option, none, some, [], ◌∷◌, ◌==◌, ==-self, text_keys,
  pair_keys, Bool-cases, if◌then◌else◌,
}
use scrapeyard.Prelude.Dict.{Dict, get, put, get-put}
use scrapeyard.Guard.{or_zero}
use scrapeyard.Guard.Local.{LocalDomainGuard, remaining_until, without_host}
use scrapeyard.Guard.Redis.{
  Server, IsRedis, Entry, pages_key, cooldown_key, alive, value_of, deadline_of, time_to_live,
  positive, lua_consume, count_page, consume_turns, answer_of, day_key_ttl_seconds,
}
use scrapeyard.Guard.Keys.{pages_key_inj, cooldown_key_inj}

-- The page counter of a host in Redis, which lasts until the end at least, and in the local guard.
abbrev pub SamePages : ℕ → Option Entry → Option ℕ → Type 0
SamePages end none none = Unit {0}
SamePages end (some (n, some d)) (some m) = (n ≡ m) × (1 ≤ n) × (end ≤ d)
SamePages end _ _ = ⊥

-- The end of a cooldown, 0 where there is none.
abbrev pub cooldown_end : Option Entry → ℕ
cooldown_end (some (_, some d)) = d
cooldown_end _ = 0

pub same_count :
    (end now : ℕ) (e : Option Entry) (o : Option ℕ)
    → now < end
    → SamePages end e o
    → or_zero (value_of (alive now e)) ≡ or_zero o
same_count end now none none h p = refl
same_count end now none (some m) h p = elim p [ ]
same_count end now (some (n, none)) none h p = elim p [ ]
same_count end now (some (n, none)) (some m) h p = elim p [ ]
same_count end now (some (n, some d)) none h p = elim p [ ]
same_count end now (some (n, some d)) (some m) h (e, _, l) = ground arith

pub same_left :
    (now : ℕ) (e : Option Entry) → positive (time_to_live now (alive now e)) ≡ cooldown_end e - now
same_left now none = omega arith
same_left now (some (v, none)) = omega arith
same_left now (some (v, some d)) = ground arith

-- The counter after one more page: it gets its time to live when it is new.
unfoldable pub counted_entry : ℕ → Option Entry → Option Entry
counted_entry now e =
    let n = or_zero (value_of (alive now e)) + 1 in
    if nat_eq n 1
    then some (n, some (now + 1000 * day_key_ttl_seconds))
    else some (n, deadline_of (alive now e))

pub counted-SamePages :
    (end now : ℕ) (e : Option Entry) (o : Option ℕ)
    → now < end
    → end ≤ now + 1000 * day_key_ttl_seconds
    → SamePages end e o
    → SamePages end (counted_entry now e) (some (or_zero o + 1))
unfolding counted_entry
counted-SamePages end now none none h l p = (omega arith, omega arith, l)
counted-SamePages end now none (some m) h l p = elim p [ ]
counted-SamePages end now (some (n, none)) none h l p = elim p [ ]
counted-SamePages end now (some (n, none)) (some m) h l p = elim p [ ]
counted-SamePages end now (some (n, some d)) none h l p = elim p [ ]
counted-SamePages end now (some (n, some d)) (some m) h l (e, f, k) =
    let more : nat_eq (n + 1) 1 ≡ false = ground arith in
    rw (lt→ltb now d (omega arith), more) (omega arith, omega arith, k)

pub alive_deadline :
    (now n : ℕ) (e : Option Entry)
    → alive now (some (n, deadline_of (alive now e))) ≡ some (n, deadline_of (alive now e))
alive_deadline now n none = refl
alive_deadline now n (some (v, none)) = refl
alive_deadline now n (some (v, some d)) = ground arith

pub nested_if {ℓ} :
    {A : Type ℓ} (b : Bool) (x y z : A)
    → (if b then x else (if b then y else z)) ≡ (if b then x else z)
nested_if true x y z = refl
nested_if false x y z = refl

pub later : (a b now now' : ℕ) → now ≤ now' → a - now ≡ b - now → a - now' ≡ b - now'
later a b now now' l e = omega arith

pub remaining_left :
    (h : String) (now : ℕ) (g : LocalDomainGuard) (o : Option ℕ)
    → (remaining_until h now o g).0 ≡ or_zero o - now
remaining_left h now g none = omega arith
remaining_left h now g (some d) = ground arith

pub get-without_host :
    (h j day : String) (m : Dict (String × String) ℕ)
    → get (j, day) (without_host h m) ≡ (if h == j then none else get (j, day) m)
unfolding get without_host
get-without_host h j day [] = ground arith
get-without_host h j day (((i, d), n) ∷ m) = ground (
  arith,
  get-without_host h j day m,
  text_keys.decides h j,
  text_keys.decides i h,
  text_keys.decides i j,
)

pub same_test : (b c : Bool) → (b ≡ true → c ≡ true) → (c ≡ true → b ≡ true) → b ≡ c
same_test true true f g = refl
same_test true false f g = sym (f refl)
same_test false true f g = g refl
same_test false false f g = refl

pub test_key :
    (f : String → String)
    → ((h j : String) → f h ≡ f j → h ≡ j)
    → (h j : String) → (f h == f j) ≡ (h == j)
test_key f inj h j =
    same_test (f h == f j) (h == j)
      (λ e. (text_keys.decides h j).1 (inj h j ((text_keys.decides (f h) (f j)).0 e)))
      (λ e. (text_keys.decides (f h) (f j)).1 (ap f ((text_keys.decides h j).0 e)))

pub test_pages_key : (day h j : String) → (pages_key h day == pages_key j day) ≡ (h == j)
test_pages_key day h j = test_key (λ k. pages_key k day) (λ a b. pages_key_inj a b day) h j

pub test_cooldown_key : (h j : String) → (cooldown_key h == cooldown_key j) ≡ (h == j)
test_cooldown_key h j = test_key cooldown_key cooldown_key_inj h j

pub and_true : (b : Bool) → (b && true) ≡ b
and_true true = refl
and_true false = refl

pub get-put_day :
    (day h j : String) (n : ℕ) (m : Dict (String × String) ℕ)
    → get (j, day) (put (h, day) n m) ≡ (if h == j then some n else get (j, day) m)
get-put_day day h j n m =
    let k : String × String = (h, day) in
    let i : String × String = (j, day) in
    get-put k i n m ∙ ap (λ b. if b then some n else get i m) (rw (==-self day) (and_true (h == j)))

pub SamePages-if :
    (end : ℕ) (b : Bool) (e e' : Option Entry) (o o' : Option ℕ)
    → SamePages end e o
    → SamePages end e' o'
    → SamePages end (if b then e else e') (if b then o else o')
SamePages-if end true e e' o o' p q = p
SamePages-if end false e e' o o' p q = q

pub left_if :
    (now : ℕ) (b : Bool) (e e' : Option Entry) (o o' : Option ℕ)
    → cooldown_end e - now ≡ or_zero o - now
    → cooldown_end e' - now ≡ or_zero o' - now
    → cooldown_end (if b then e else e') - now ≡ or_zero (if b then o else o') - now
left_if now true e e' o o' p q = p
left_if now false e e' o o' p q = q

pub left_if_over :
    (now d : ℕ) (b : Bool) (e : Option Entry) (o : Option ℕ)
    → d ≤ now
    → (b ≡ true → o ≡ some d)
    → cooldown_end e - now ≡ or_zero o - now
    → cooldown_end e - now ≡ or_zero (if b then none else o) - now
left_if_over now d true e o l h p = p ∙ rw (h refl) (omega arith)
left_if_over now d false e o l h p = p

pub other_key :
    (k j : String) (e : Option Entry) (o : Option Entry) → (k ≢ j) → (if k == j then e else o) ≡ o
other_key k j e o n = elim (Bool-cases (k == j)) [
  | inl same ↦ absurd (n ((text_keys.decides k j).0 same))
  | inr apart ↦ rw apart refl
]

module _ (R : Server) (I : IsRedis R) where
  -- The entries after the script has counted a page.
  pub counted_entries :
      (key j : String) (now : ℕ) (s : R.State)
      → R.entry j (count_page R key day_key_ttl_seconds now s).1
        ≡ (if key == j then counted_entry now (R.entry key s) else R.entry j s)
  unfolding counted_entry
  counted_entries key j now s =
      elim (Bool-cases (nat_eq (or_zero (value_of (alive now (R.entry key s))) + 1) 1)) [
        | inl one ↦
            rw
              (
                I.incr_value key now s,
                one,
                I.expire_entry key j,
                I.incr_entry key j,
                I.incr_entry key key,
                ==-self key,
                alive_deadline,
              )
              (nested_if (key == j) _ _ _)
        | inr more ↦ rw (I.incr_value key now s, more, I.incr_entry key j) refl
      ]

  pub turns_answer :
      (lost : ℕ) (sha : Option String) (key : String) (limit now : ℕ) (s : R.State)
      → ((consume_turns R lost sha key limit now s).0
          ≡ answer_of (lua_consume R key limit day_key_ttl_seconds now s).0)
        × ((consume_turns R lost sha key limit now s).1.data_base
            ≡ (lua_consume R key limit day_key_ttl_seconds now s).1)
  unfolding consume_turns
  turns_answer zero sha key limit now s = (refl, refl)
  turns_answer (suc lost) sha key limit now s = turns_answer lost none key limit now s
