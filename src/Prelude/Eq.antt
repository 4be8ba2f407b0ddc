-- ===== src/Prelude/Eq.antt =====
-- The equality test of the keys of a dictionary.
use Prim.Native.Nat.{ℕ}
use Prim.Native.String.{String}
use mathlib.Core.Path.{◌≡◌, refl}
use mathlib.Core.Logic.{◌↔◌}
use mathlib.Core.Bool.{Bool, true, false, ◌&&◌}
use mathlib.Core.Option.{Option, none, some}
use native.Mathlib.Omega.{arith}
use text.Mathlib.Text.{◌==◌ as text_eq}
use text.Mathlib.TextEquality.{eq_iff}
use scrapeyard.Prelude.Tests.{nat_eq, nat_eq_iff}

pub record HasEq {ℓ} (K : Type ℓ) : Type ℓ where
  pub test : K → K → Bool
  pub decides : (j k : K) → (test j k ≡ true) ↔ (j ≡ k)

module _ {ℓ} {K : Type ℓ} ⦃keys : HasEq K⦄ where
  infix 50 ◌==◌
  abbrev pub ◌==◌ : K → K → Bool
  j == k = keys.test j k

  pub ==-self : (k : K) → (k == k) ≡ true
  ==-self k = (keys.decides k k).1 refl

-- A key of two parts.
module _ {ℓ} {A B : Type ℓ} ⦃as_keys : HasEq A⦄ ⦃bs_keys : HasEq B⦄ where
  abbrev both_same : A × B → A × B → Bool
  both_same p q = as_keys.test p.0 q.0 && bs_keys.test p.1 q.1

  pub both_same_iff : (p q : A × B) → (both_same p q ≡ true) ↔ (p ≡ q)
  both_same_iff p q = ground (arith, as_keys.decides p.0 q.0, bs_keys.decides p.1 q.1)

  instance abbrev pub pair_keys : HasEq (A × B)
  pair_keys = record { test = both_same; decides = both_same_iff }

instance abbrev pub text_keys : HasEq String
text_keys = record { test = text_eq; decides = eq_iff }

instance abbrev pub nat_keys : HasEq ℕ
nat_keys = record { test = nat_eq; decides = nat_eq_iff }

-- A key that may be missing.
module _ {ℓ} {A : Type ℓ} ⦃as_keys : HasEq A⦄ where
  abbrev maybe_same : Option A → Option A → Bool
  maybe_same none none = true
  maybe_same (some a) (some b) = as_keys.test a b
  maybe_same _ _ = false

  pub maybe_same_iff : (p q : Option A) → (maybe_same p q ≡ true) ↔ (p ≡ q)
  maybe_same_iff none none = ground arith
  maybe_same_iff none (some b) = ground arith
  maybe_same_iff (some a) none = ground arith
  maybe_same_iff (some a) (some b) = ground (arith, as_keys.decides a b)

  instance abbrev pub option_keys : HasEq (Option A)
  option_keys = record { test = maybe_same; decides = maybe_same_iff }
