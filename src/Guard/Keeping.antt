-- ===== src/Guard/Keeping.antt =====
-- What the calls of a run keep of the guard of src/scrapeyard/engine/domain_guard.py, whichever it is.
use scrapeyard.Prelude.{
  ℕ, zero, suc, ◌≡◌, subst, sym, String, ltb, inl, inr, Option, none, some, List, [], ◌∷◌,
  Bool-cases,
}
use scrapeyard.Guard.{DomainGuard}
use scrapeyard.Guard.Policy.{
  HostNames, RunDomainPolicy, PolicyCall, fetch, denied, domain_guard_host, count_page_attempt,
  admit_page_of, after_cooldown, admit, record_denial, follow, follow_all,
}

abbrev pub time_of : PolicyCall → ℕ
time_of (fetch url day now) = now
time_of (denied url now) = now

abbrev pub AllTimes : (ℕ → Type 0) → List PolicyCall → Type 0
AllTimes T [] = Unit {0}
AllTimes T (c ∷ cs) = T (time_of c) × AllTimes T cs

module _ (G : DomainGuard) (limit seconds : ℕ) (T : ℕ → Type 0) (P : G.State → Type 0) where
  -- Each operation of the guard keeps P at the times T.
  pub record IsStable : Type 0 where
    pub consume :
        (host day : String) (now : ℕ) (s : G.State)
        → T now
        → P s
        → P (G.consume_page host limit day now s).1
    pub wait :
        (host : String) (now : ℕ) (s : G.State)
        → T now
        → P s
        → P (G.cooldown_remaining host now s).1
    pub start :
        (host : String) (now : ℕ) (s : G.State)
        → T now
        → P s
        → P (G.start_cooldown host seconds now s)

  module _ (N : HostNames) (k : IsStable) where
    -- The policy keeps its settings, and its guard has P.
    pub record Kept (p : RunDomainPolicy N G) : Type 0 where
      pub its_limit : p.daily_page_limit ≡ limit
      pub its_seconds : p.cooldown_seconds ≡ seconds
      pub its_guard : P p.guard

    counted-Kept :
        (host : String) (p : RunDomainPolicy N G) (o : Option ℕ) (s : G.State)
        → Kept p
        → P s
        → Kept (count_page_attempt N G host p (o, s)).1
    counted-Kept host p none s h q = record {
      its_limit = h.its_limit;
      its_seconds = h.its_seconds;
      its_guard = q;
    }
    counted-Kept host p (some n) s h q = record {
      its_limit = h.its_limit;
      its_seconds = h.its_seconds;
      its_guard = q;
    }

    page-Kept :
        (host day : String) (now : ℕ) (p : RunDomainPolicy N G)
        → T now
        → Kept p
        → Kept (admit_page_of N G host day now p).1
    page-Kept host day now p t h =
        let (o, s) = G.consume_page host p.daily_page_limit day now p.guard in
        counted-Kept host p o s h (
          subst (λ l. P (G.consume_page host l day now p.guard).1) (sym h.its_limit)
            (k.consume host day now p.guard t h.its_guard))

    waited-Kept :
        (host day : String) (now : ℕ) (p : RunDomainPolicy N G) (n : ℕ) (s : G.State)
        → T now
        → Kept p
        → P s
        → Kept (after_cooldown N G host day now p (n, s)).1
    waited-Kept host day now p zero s t h q =
        page-Kept host day now (record p { guard = s }) t
          (record { its_limit = h.its_limit; its_seconds = h.its_seconds; its_guard = q })
    waited-Kept host day now p (suc n) s t h q = record {
      its_limit = h.its_limit;
      its_seconds = h.its_seconds;
      its_guard = q;
    }

    admit-Kept :
        (url day : String) (now : ℕ) (p : RunDomainPolicy N G)
        → T now
        → Kept p
        → Kept (admit N G url day now p).1
    unfolding admit
    admit-Kept url day now p t h = elim (Bool-cases (ltb 0 p.cooldown_seconds)) [
      | inl c ↦ rw c (
          let host = domain_guard_host N url in
          let (n, s) = G.cooldown_remaining host now p.guard in
          waited-Kept host day now p n s t h (k.wait host now p.guard t h.its_guard))
      | inr c ↦ rw c (page-Kept (domain_guard_host N url) day now p t h)
    ]

    denial-Kept :
        (url : String) (now : ℕ) (p : RunDomainPolicy N G)
        → T now
        → Kept p
        → Kept (record_denial N G url now p)
    unfolding record_denial
    denial-Kept url now p t h = elim (Bool-cases (ltb 0 p.cooldown_seconds)) [
      | inl c ↦ rw c (record {
        its_limit = h.its_limit;
        its_seconds = h.its_seconds;
        its_guard =
            subst (λ l. P (G.start_cooldown (domain_guard_host N url) l now p.guard))
              (sym h.its_seconds) (k.start (domain_guard_host N url) now p.guard t h.its_guard);
      })
      | inr c ↦ rw c h
    ]

    pub follow_all-Kept :
        (calls : List PolicyCall) (p : RunDomainPolicy N G)
        → AllTimes T calls
        → Kept p
        → Kept (follow_all N G calls p)
    unfolding follow_all follow
    follow_all-Kept [] p t h = h
    follow_all-Kept (fetch url day now ∷ cs) p (t, ts) h =
        follow_all-Kept cs (admit N G url day now p).1 ts (admit-Kept url day now p t h)
    follow_all-Kept (denied url now ∷ cs) p (t, ts) h =
        follow_all-Kept cs (record_denial N G url now p) ts (denial-Kept url now p t h)
