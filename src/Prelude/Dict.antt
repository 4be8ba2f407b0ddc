-- ===== src/Prelude/Dict.antt =====
-- Python's `dict` as an association list in insertion order: writing an existing key keeps its
-- place, a new key goes to the end.
use Prim.Native.Nat.{suc, ◌≤◌}
use mathlib.Core.Path.{◌≡◌, refl, subst₂}
use mathlib.Core.Bool.{Bool, true, false}
use mathlib.Core.Option.{Option, none, some}
use mathlib.Core.List.{List, [], ◌∷◌}
use native.Mathlib.Omega.{arith}
use mathlib.Core.Logic.{inl, inr}
use scrapeyard.Prelude.Tests.{if◌then◌else◌, Bool-cases}
use scrapeyard.Prelude.Lists.{length}
use scrapeyard.Prelude.Eq.{HasEq, ◌==◌, ==-self}

abbrev pub Dict {ℓ κ} : Type ℓ → Type κ → Type (ℓ ⊔ κ)
Dict K V = List (K × V)

abbrev pub only_if {ℓ} : {V : Type ℓ} → (V → Bool) → Option V → Option V
only_if p none = none
only_if p (some v) = if p v then some v else none

-- What is stored, if anything is, has the property.
abbrev pub Holds {ℓ κ} : {V : Type ℓ} → (V → Type κ) → Option V → Type κ
Holds P none = Unit
Holds P (some v) = P v

pub Holds-if {ℓ κ} :
    {V : Type ℓ} (P : V → Type κ) (b : Bool) (o o' : Option V)
    → Holds P o
    → Holds P o'
    → Holds P (if b then o else o')
Holds-if P true o o' h h' = h
Holds-if P false o o' h h' = h'

pub Holds-only_if {ℓ κ} :
    {V : Type ℓ} (P : V → Type κ) (p : V → Bool) (o : Option V) → Holds P o → Holds P (only_if p o)
Holds-only_if P p none h = tt
Holds-only_if P p (some v) h = Holds-if P (p v) (some v) none h tt

module _ {K V : Type 0} ⦃keys : HasEq K⦄ where
  unfoldable pub get : K → Dict K V → Option V
  get k [] = none
  get k ((j, v) ∷ m) = if j == k then some v else get k m

  unfoldable pub put : K → V → Dict K V → Dict K V
  put k v [] = (k, v) ∷ []
  put k v ((j, w) ∷ m) = if j == k then (j, v) ∷ m else (j, w) ∷ put k v m

  -- `pop(key, None)`.
  unfoldable pub remove : K → Dict K V → Dict K V
  remove k [] = []
  remove k ((j, v) ∷ m) = let rest = remove k m in if j == k then rest else (j, v) ∷ rest

  -- The entries whose value passes the test: what is left when all others are popped.
  unfoldable pub keep : (V → Bool) → Dict K V → Dict K V
  keep p [] = []
  keep p ((j, v) ∷ m) = let rest = keep p m in if p v then (j, v) ∷ rest else rest

  -- No key twice, as in every `dict`.
  abbrev pub IsUnique : Dict K V → Type 0
  IsUnique [] = Unit
  IsUnique ((j, v) ∷ m) = (get j m ≡ none) × IsUnique m

  pub get-put :
      (k j : K) (v : V) (m : Dict K V) → get j (put k v m) ≡ (if k == j then some v else get j m)
  unfolding get put
  get-put k j v [] = refl
  get-put k j v ((i, w) ∷ m) =
      ground (arith, get-put k j v m, keys.decides k j, keys.decides i k, keys.decides i j)

  pub get-remove :
      (k j : K) (m : Dict K V) → get j (remove k m) ≡ (if k == j then none else get j m)
  unfolding get remove
  get-remove k j [] = ground arith
  get-remove k j ((i, w) ∷ m) =
      ground (arith, get-remove k j m, keys.decides k j, keys.decides i k, keys.decides i j)

  pub get-keep :
      (p : V → Bool) (j : K) (m : Dict K V) → IsUnique m → get j (keep p m) ≡ only_if p (get j m)
  unfolding get keep
  get-keep p j [] u = refl
  get-keep p j ((i, w) ∷ m) u = ground (arith, get-keep p j m, keys.decides i j)

  pub put-IsUnique : (k : K) (v : V) (m : Dict K V) → IsUnique m → IsUnique (put k v m)
  unfolding get put
  put-IsUnique k v [] u = (refl, tt)
  put-IsUnique k v ((i, w) ∷ m) u =
      ground (arith, put-IsUnique k v m, get-put k i v m, keys.decides i k, keys.decides k i)

  pub remove-IsUnique : (k : K) (m : Dict K V) → IsUnique m → IsUnique (remove k m)
  unfolding get remove
  remove-IsUnique k [] u = tt
  remove-IsUnique k ((i, w) ∷ m) u =
      ground (arith, remove-IsUnique k m, get-remove k i m, keys.decides i k, keys.decides k i)

  pub keep-IsUnique : (p : V → Bool) (m : Dict K V) → IsUnique m → IsUnique (keep p m)
  unfolding get keep
  keep-IsUnique p [] u = tt
  keep-IsUnique p ((i, w) ∷ m) u = ground (arith, keep-IsUnique p m, get-keep p i m)

  pub length-put_new :
      (k : K) (v : V) (m : Dict K V) → get k m ≡ none → length (put k v m) ≡ suc (length m)
  unfolding get put
  length-put_new k v [] h = refl
  length-put_new k v ((i, w) ∷ m) h = ground (arith, length-put_new k v m)

  pub length-put_old :
      (k : K) (v w : V) (m : Dict K V) → get k m ≡ some w → length (put k v m) ≡ length m
  unfolding get put
  length-put_old k v x [] h = absurd (ground arith)
  length-put_old k v x ((i, w) ∷ m) h = ground (arith, length-put_old k v x m)

  pub length-remove-le : (k : K) (m : Dict K V) → length (remove k m) ≤ length m
  unfolding remove
  length-remove-le k [] = omega arith
  length-remove-le k ((i, w) ∷ m) = ground (arith, length-remove-le k m)

  pub length-remove-lt :
      (k : K) (v : V) (m : Dict K V) → get k m ≡ some v → suc (length (remove k m)) ≤ length m
  unfolding get remove
  length-remove-lt k v [] h = absurd (ground arith)
  length-remove-lt k v ((i, w) ∷ m) h = ground (arith, length-remove-lt k v m, length-remove-le k m)

  pub length-keep-le : (p : V → Bool) (m : Dict K V) → length (keep p m) ≤ length m
  unfolding keep
  length-keep-le p [] = omega arith
  length-keep-le p ((i, w) ∷ m) = ground (arith, length-keep-le p m)

  -- What every entry satisfies.
  abbrev pub AllEntries {ℓ} : (K → V → Type ℓ) → Dict K V → Type ℓ
  AllEntries P [] = Unit
  AllEntries P ((j, v) ∷ m) = P j v × AllEntries P m

module _ {K V : Type 0} ⦃keys : HasEq K⦄ where
  get-cons_old :
      (j k : K) (v w : V) (m : Dict K V)
      → get j m ≡ none
      → get k m ≡ some w
      → get k ((j, v) ∷ m) ≡ some w
  unfolding get
  get-cons_old j k v w m h g = elim (Bool-cases (j == k)) [
    | inl same ↦ cc (h, g, (keys.decides j k).0 same)
    | inr other ↦ rw other g
  ]

  AllEntries-within :
      (full m : Dict K V)
      → IsUnique m
      → ((k : K) (v : V) → get k m ≡ some v → get k full ≡ some v)
      → AllEntries (λ k v. get k full ≡ some v) m
  AllEntries-within full [] u h = tt
  AllEntries-within full ((j, v) ∷ m) u h = (
    h j v (unfold get in rw ==-self refl),
    AllEntries-within full m u.1 (λ k w g. h k w (get-cons_old j k v w m u.0 g)),
  )

  -- Every entry of a dictionary is found under its key.
  pub AllEntries-get : (m : Dict K V) → IsUnique m → AllEntries (λ k v. get k m ≡ some v) m
  AllEntries-get m u = AllEntries-within m m u (λ k v g. g)

  entry_value :
      (j k : K) (w v : V) (m : Dict K V) → (j == k) ≡ true → get k ((j, w) ∷ m) ≡ some v → w ≡ v
  unfolding get
  entry_value j k w v m same h = ground arith

  pub get-AllEntries {ℓ} :
      (P : K → V → Type ℓ) (m : Dict K V) (k : K) (v : V)
      → AllEntries P m
      → get k m ≡ some v
      → P k v
  unfolding get
  get-AllEntries P [] k v all h = absurd (cc)
  get-AllEntries P ((j, w) ∷ m) k v all h = elim (Bool-cases (j == k)) [
    | inl same ↦ subst₂ P ((keys.decides j k).0 same) (entry_value j k w v m same h) all.0
    | inr other ↦ get-AllEntries P m k v all.1 (rw other at h)
  ]
