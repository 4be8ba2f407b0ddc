-- ===== src/HostVerdicts/Trust.antt =====
-- The memory of src/scrapeyard/common/host_verdicts.py against its specification.
use scrapeyard.Prelude.{
  ℕ, suc, ◌+◌, ◌≤◌, ◌<◌, ◌≡◌, refl, sym, ap, ◌∙◌, String, Bool, true, false, ltb, leb, ltb→lt, inl,
  inr, arith, Option, none, some, List, [], ◌∷◌, length, ◌==◌, ==-self, text_keys, Bool-cases,
  if◌then◌else◌,
}
use scrapeyard.Prelude.Dict.{
  Dict, get, put, remove, IsUnique, get-put, get-remove, put-IsUnique, remove-IsUnique,
  length-put_new, length-remove-le,
}
use scrapeyard.HostVerdicts.{
  PublicHostVerdicts, fresh_found, is_fresh, make_room, record_host, forget, clear, VerdictCall,
  ask, learn, unlearn, unlearn_all, step, run, spec_step, spec_run,
}

-- What the memory knows of a host, the specification knows.
abbrev pub Known : Option ℕ → Option ℕ → Type 0
Known none o = Unit {0}
Known (some e) o = o ≡ some e

Known-if :
    (b : Bool) (x y o p : Option ℕ)
    → Known x o
    → Known y p
    → Known (if b then x else y) (if b then o else p)
Known-if true x y o p h g = h
Known-if false x y o p h g = g

Known-forgotten : (b : Bool) (y o : Option ℕ) → Known y o → Known (if b then none else y) o
Known-forgotten true y o h = tt
Known-forgotten false y o h = h

-- The settings stay, no host is there twice, and there are not too many.
pub record IsBounded (ttl max_hosts : ℕ) (v : PublicHostVerdicts) : Type 0 where
  pub its_ttl : v.ttl ≡ ttl
  pub its_max : v.max_hosts ≡ max_hosts
  pub unique : IsUnique v.expires
  pub few : length v.expires ≤ max_hosts

abbrev Knows : PublicHostVerdicts → (String → Option ℕ) → Type 0
Knows v spec = (h : String) → Known (get h v.expires) (spec h)

Known-rest :
    (h j : String) (e : ℕ) (m : Dict String ℕ) (o : Option ℕ)
    → get j m ≡ none
    → Known (get h ((j, e) ∷ m)) o
    → Known (get h m) o
unfolding get
Known-rest h j e m o fresh g = elim (Bool-cases (j == h)) [
  | inl same ↦
      let gone : get h m ≡ none =
        ap (λ k. get k m) (sym ((text_keys.decides j h).0 same)) ∙ fresh in
      rw gone tt
  | inr other ↦ rw other at g
]

Known-none : (x : Option ℕ) → Known x none → x ≡ none
Known-none none h = refl
Known-none (some e) h = cc

room_made :
    (max_hosts : ℕ) (m : Dict String ℕ)
    → 0 < max_hosts
    → IsUnique m
    → length m ≤ max_hosts
    → (m' : Dict String ℕ) × (make_room max_hosts m ≡ some m')
      × IsUnique m'
      × (length m' < max_hosts)
      × ((h : String) (o : Option ℕ) → Known (get h m) o → Known (get h m') o)
room_made max_hosts [] l u k =
    let room : leb max_hosts 0 ≡ false = ground arith in ([], rw room refl, u, l, λ h o g. g)
room_made max_hosts ((j, e) ∷ m) l (fresh, u) k =
    elim (Bool-cases (leb max_hosts (suc (length m)))) [
      | inl full ↦ (m, rw full refl, u, omega arith, λ h o g. Known-rest h j e m o fresh g)
      | inr room ↦ ((j, e) ∷ m, rw room refl, (fresh, u), ground arith, λ h o g. g)
    ]

module _ (ttl max_hosts : ℕ) (l : 0 < max_hosts) where
  abbrev After : Option PublicHostVerdicts → (String → Option ℕ) → Type 0
  After o spec =
      (v : PublicHostVerdicts) × (o ≡ some v)
      × IsBounded ttl max_hosts v
      × ((h : String) → Known (get h v.expires) (spec h))

  module _ (v : PublicHostVerdicts) (spec : String → Option ℕ) (b : IsBounded ttl max_hosts v)
      (k : Knows v spec) where
    removed-IsBounded :
        (host : String) → IsBounded ttl max_hosts (record v { expires = remove host v.expires })
    removed-IsBounded host = record {
      its_ttl = b.its_ttl;
      its_max = b.its_max;
      unique = remove-IsUnique host v.expires b.unique;
      few = omega (arith, length-remove-le host v.expires, b.few);
    }

    removed-Known : (host h : String) → Known (get h (remove host v.expires)) (spec h)
    removed-Known host h =
        rw (get-remove host h v.expires) (Known-forgotten (host == h) _ (spec h) (k h))

    asked : (host : String) (now : ℕ) → After (some (is_fresh host now v).1) spec
    unfolding is_fresh
    asked host now = found (get host v.expires)
      where
        found : (o : Option ℕ) → After (some (fresh_found host now o v).1) spec
        found none = (v, refl, b, k)
        found (some until) = elim (Bool-cases (ltb now until)) [
          | inl fresh ↦ rw fresh (v, refl, b, k)
          | inr over ↦ rw over (
            record v { expires = remove host v.expires },
            refl,
            removed-IsBounded host,
            λ h. removed-Known host h,
          )
        ]

    learned :
        (host : String) (at : ℕ)
        → After (record_host host at v) (λ h. if host == h then some (at + ttl) else spec h)
    unfolding record_host
    learned host at =
        let m0 = remove host v.expires in
        let b0 = removed-IsBounded host in
        let (m, e, u, short, less) =
          room_made v.max_hosts m0 (omega (arith, l, b.its_max)) b0.unique
            (omega (arith, b0.few, b.its_max)) in
        let gone : get host m0 ≡ none = get-remove host host v.expires ∙ rw (==-self host) refl in
        let new : get host m ≡ none = Known-none (get host m) (less host none (rw gone tt)) in
        (
          record v { expires = put host (at + v.ttl) m },
          rw e refl,
          record {
            its_ttl = b.its_ttl;
            its_max = b.its_max;
            unique = put-IsUnique host (at + v.ttl) m u;
            few = omega (arith, length-put_new host (at + v.ttl) m new, short, b.its_max);
          },
          λ h. rw (get-put host h (at + v.ttl) m) (
              Known-if (host == h) (some (at + v.ttl)) (get h m) (some (at + ttl)) (spec h)
                (rw (b.its_ttl) refl) (less h (spec h) (removed-Known host h))),
        )

    stepped : (c : VerdictCall) → After (step c v) (λ h. spec_step ttl h c (spec h))
    unfolding step forget clear
    stepped (ask host now) = asked host now
    stepped (learn host at) = learned host at
    stepped (unlearn host) = (
      record v { expires = remove host v.expires },
      refl,
      removed-IsBounded host,
      λ h. rw (get-remove host h v.expires) (Known-if (host == h) none _ none (spec h) tt (k h)),
    )
    stepped unlearn_all = (
      record v { expires = [] },
      refl,
      record { its_ttl = b.its_ttl; its_max = b.its_max; unique = tt; few = omega arith },
      λ h. unfold get in tt,
    )

  stepped_all :
      (cs : List VerdictCall) (v : PublicHostVerdicts) (spec : String → Option ℕ)
      → IsBounded ttl max_hosts v
      → Knows v spec
      → After (run cs v) (λ h. spec_run ttl h cs (spec h))
  unfolding run spec_run
  stepped_all [] v spec b k = (v, refl, b, k)
  stepped_all (c ∷ cs) v spec b k =
      let (v1, e1, b1, k1) = stepped v spec b k c in
      let (v2, e2, b2, k2) = stepped_all cs v1 (λ h. spec_step ttl h c (spec h)) b1 k1 in
      (v2, rw e1 e2, b2, k2)

fresh_until :
    (host : String) (now : ℕ) (v : PublicHostVerdicts) (o : Option ℕ)
    → Known (get host v.expires) o
    → (is_fresh host now v).0 ≡ true
    → (e : ℕ) × (o ≡ some e) × (now < e)
unfolding is_fresh
fresh_until host now v o k h = found (get host v.expires) k h
  where
    found :
        (x : Option ℕ)
        → Known x o
        → (fresh_found host now x v).0 ≡ true
        → (e : ℕ) × (o ≡ some e) × (now < e)
    found none k h = absurd (cc)
    found (some e) k h = elim (Bool-cases (ltb now e)) [
      | inl fresh ↦ (e, k, ltb→lt now e fresh)
      | inr over ↦ absurd (let g : false ≡ true = (rw over at h) in cc)
    ]

-- An answer that a host is fresh has a verdict behind it that lasts longer than now.
abbrev pub Vouched : Bool → ℕ → Option ℕ → Type 0
Vouched false now o = Unit {0}
Vouched true now o = (e : ℕ) × (o ≡ some e) × (now < e)

answer-Vouched :
    (b : Bool) (now : ℕ) (o : Option ℕ) → (b ≡ true → Vouched true now o) → Vouched b now o
answer-Vouched true now o h = h refl
answer-Vouched false now o h = tt

-- From an empty memory with room for a host, every sequence of calls returns and leaves at most as many
-- hosts as there is room for; and if it then calls a host fresh, the specification, which has no
-- bound, has a verdict on that host that lasts longer than the time of the question.
pub run-spec_run :
    (ttl max_hosts : ℕ) (cs : List VerdictCall) (host : String) (now : ℕ)
    → 0 < max_hosts
    → (v : PublicHostVerdicts) × (run cs (record { ttl = ttl; max_hosts = max_hosts; expires = [] })
        ≡ some v)
      × (length v.expires ≤ max_hosts)
      × Vouched (is_fresh host now v).0 now (spec_run ttl host cs none)
run-spec_run ttl max_hosts cs host now l =
    let (v, e, b, k) =
      stepped_all ttl max_hosts l cs (record { ttl = ttl; max_hosts = max_hosts; expires = [] })
        (λ h. none) (record { its_ttl = refl; its_max = refl; unique = tt; few = omega arith })
        (λ h. unfold get in tt) in
    (
      v,
      e,
      b.few,
      answer-Vouched (is_fresh host now v).0 now (spec_run ttl host cs none)
          (λ h. fresh_until host now v (spec_run ttl host cs none) (k host) h),
    )
