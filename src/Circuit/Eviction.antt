-- ===== src/Circuit/Eviction.antt =====
-- Which entry `_make_room_for_closed_state` of src/scrapeyard/engine/resilience.py evicts.
use scrapeyard.Prelude.{
  String, ◌≡◌, refl, inl, inr, true, Option, none, some, [], ◌∷◌, text_keys, Bool-cases,
}
use scrapeyard.Prelude.Int.{ℤ}
use scrapeyard.Prelude.Dict.{Dict, get, Holds, IsUnique, AllEntries, AllEntries-get}
use scrapeyard.Circuit.{DomainCircuit, is_closed, is_before, least, oldest_closed}

module _ {ℓ} (P : ℤ × String → Type ℓ) where
  -- What holds of every closed entry holds of the chosen one.
  oldest_closed_induction :
      (best : Option (ℤ × String)) (m : Dict String DomainCircuit)
      → Holds P best
      → AllEntries (λ d c. is_closed c.state ≡ true → P (c.last_accessed_at, d)) m
      → Holds P (oldest_closed best m)
  unfolding oldest_closed
  oldest_closed_induction best [] h all = h
  oldest_closed_induction best ((d, c) ∷ m) h all = elim (Bool-cases (is_closed c.state)) [
    | inl x ↦ rw x (
        oldest_closed_induction (least best (c.last_accessed_at, d)) m
          (least_holds best (c.last_accessed_at, d) h (all.0 x)) all.1)
    | inr x ↦ rw x (oldest_closed_induction best m h all.1)
  ]
    where
      least_holds :
          (best : Option (ℤ × String)) (x : ℤ × String)
          → Holds P best
          → P x
          → Holds P (least best x)
      least_holds none x h p = p
      least_holds (some y) x h p = elim (Bool-cases (is_before x y)) [
        | inl q ↦ rw q p
        | inr q ↦ rw q h
      ]

abbrev pub IsClosedEntry : Dict String DomainCircuit → ℤ × String → Type 0
IsClosedEntry m (t, d) =
    (c : DomainCircuit) × (get d m ≡ some c) × (is_closed c.state ≡ true) × (c.last_accessed_at ≡ t)

AllEntries-map {ℓ κ} :
    (P : String → DomainCircuit → Type ℓ) (Q : String → DomainCircuit → Type κ)
    (m : Dict String DomainCircuit)
    → ((d : String) (c : DomainCircuit) → P d c → Q d c)
    → AllEntries P m
    → AllEntries Q m
AllEntries-map P Q [] f all = tt
AllEntries-map P Q ((d, c) ∷ m) f all = (f d c all.0, AllEntries-map P Q m f all.1)

pub oldest_closed-IsClosedEntry :
    (m : Dict String DomainCircuit) → IsUnique m → Holds (IsClosedEntry m) (oldest_closed none m)
oldest_closed-IsClosedEntry m u =
    oldest_closed_induction (IsClosedEntry m) none m tt
      (AllEntries-map _ _ m (λ d c found x. (c, found, x, refl)) (AllEntries-get m u))
