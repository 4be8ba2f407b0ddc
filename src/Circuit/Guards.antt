-- ===== src/Circuit/Guards.antt =====
-- A table of src/scrapeyard/engine/resilience.py that keeps the open or half-open circuit of a domain.
use scrapeyard.Prelude.{
  String, ◌≡◌, refl, ap, sym, ◌∙◌, inl, inr, true, false, Option, none, some, text_keys, ◌==◌,
  Bool-cases, length, ltb, not, eq_of_some, ==-self,
}
use mathlib.Core.Bool.{false≢true}
use scrapeyard.Prelude.Int.{ℤ}
use scrapeyard.Prelude.Dict.{
  Dict, get, IsUnique, Holds, get-put, get-remove, get-keep, put-IsUnique, remove-IsUnique,
  keep-IsUnique,
}
use scrapeyard.Circuit.{
  DomainCircuit, CircuitBreaker, is_closed, is_expired, prune_inactive_closed, oldest_closed, evict,
  make_room_for_closed_state, store, pop, Call, step,
}
use scrapeyard.Circuit.Eviction.{IsClosedEntry, oldest_closed-IsClosedEntry}
use scrapeyard.Circuit.Frame.{call_domain, step_frame}

-- The table is a dictionary, and a circuit of `d` that is not closed stands in it.
pub record Guards (d : String) (c : DomainCircuit) (b : CircuitBreaker) : Type 0 where
  pub unique : IsUnique b.circuits
  pub found : get d b.circuits ≡ some c
  pub tripped : is_closed c.state ≡ false

closed_ne_tripped :
    (m : Dict String DomainCircuit) (d d' : String) (c c' : DomainCircuit)
    → get d m ≡ some c
    → is_closed c.state ≡ true
    → get d' m ≡ some c'
    → is_closed c'.state ≡ false
    → (d == d') ≡ false
closed_ne_tripped m d d' c c' at is at' is' = elim (Bool-cases (d == d')) [
  | inl same ↦ absurd (
      closed_and_tripped c c' is is'
        (eq_of_some (sym at ∙ ap (λ x. get x m) ((text_keys.decides d d').0 same) ∙ at')))
  | inr other ↦ other
]
  where
    closed_and_tripped :
        (c c' : DomainCircuit) → is_closed c.state ≡ true → is_closed c'.state ≡ false → c ≡ c' → ⊥
    closed_and_tripped c c' is is' e =
        false≢true (sym is' ∙ ap (λ x. is_closed x.state) (sym e) ∙ is)

module _ (d : String) (c : DomainCircuit) where
  pub prune-Guards :
      (now : ℤ) (b : CircuitBreaker) → Guards d c b → Guards d c (prune_inactive_closed now b)
  unfolding prune_inactive_closed
  prune-Guards now b g =
      let p = λ (c : DomainCircuit). not (is_expired b.inactive_ttl now c) in
      record {
        unique = keep-IsUnique p b.circuits g.unique;
        found = rw (get-keep p d b.circuits g.unique) (rw g.found (rw g.tripped));
        tripped = g.tripped;
      }

  evict-Guards :
      (o : Option (ℤ × String)) (b : CircuitBreaker)
      → Holds (IsClosedEntry b.circuits) o
      → Guards d c b
      → Guards d c (evict o b)
  evict-Guards none b h g = g
  evict-Guards (some (t, victim)) b (x, at, is, _) g = record {
    unique = remove-IsUnique victim b.circuits g.unique;
    found =
        rw get-remove
          (rw (closed_ne_tripped b.circuits victim d x c at is g.found g.tripped) g.found);
    tripped = g.tripped;
  }

  room-Guards : (b : CircuitBreaker) → Guards d c b → Guards d c (make_room_for_closed_state b)
  unfolding make_room_for_closed_state
  room-Guards b g = elim (Bool-cases (ltb (length b.circuits) b.max_domains)) [
    | inl x ↦ rw x g
    | inr x ↦ rw x (
        evict-Guards (oldest_closed none b.circuits) b
          (oldest_closed-IsClosedEntry b.circuits g.unique) g)
  ]

  write-Guards :
      (d' : String) (c' : DomainCircuit) (b : CircuitBreaker)
      → (d' == d) ≡ false
      → Guards d c b
      → Guards d c (store b d' c')
  write-Guards d' c' b ne g = record {
    unique = put-IsUnique d' c' b.circuits g.unique;
    found = rw get-put (rw ne g.found);
    tripped = g.tripped;
  }

  drop-Guards :
      (d' : String) (b : CircuitBreaker) → (d' == d) ≡ false → Guards d c b → Guards d c (pop b d')
  drop-Guards d' b ne g = record {
    unique = remove-IsUnique d' b.circuits g.unique;
    found = rw get-remove (rw ne g.found);
    tripped = g.tripped;
  }

  -- A call on another domain leaves an open or half-open circuit exactly as it is, whatever it
  -- prunes or evicts.
  pub step-Guards :
      (b : CircuitBreaker) (call : Call)
      → (call_domain call == d) ≡ false
      → Guards d c b
      → Guards d c (step b call)
  step-Guards b call ne =
      step_frame (Guards d c) prune-Guards room-Guards b call
        (λ c' b g. write-Guards (call_domain call) c' b ne g)
        (λ b g. drop-Guards (call_domain call) b ne g)

pub write-Guards_self :
    (d : String) (c : DomainCircuit) (b : CircuitBreaker)
    → IsUnique b.circuits
    → is_closed c.state ≡ false
    → Guards d c (store b d c)
write-Guards_self d c b u t = record {
  unique = put-IsUnique d c b.circuits u;
  found = rw get-put (rw ==-self refl);
  tripped = t;
}
