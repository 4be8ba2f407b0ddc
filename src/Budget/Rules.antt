-- ===== src/Budget/Rules.antt =====
-- What methods of src/scrapeyard/common/budgets.py's `RunBudget` keep, built up as they are.
use scrapeyard.Prelude.{◌≡◌, refl, Bool, true, false, if◌then◌else◌}
use scrapeyard.Budget.{
  RunBudget, Outcome, done, over, value_error, Method, ◌>>◌, proceed, refuse, Readings, check_at,
}

abbrev pub Keeps {ℓ} : (RunBudget → Type ℓ) → {A : Type 0} → Method A → Type ℓ
Keeps P m = (b : RunBudget) → P b → P (m b).1

proceed-Keeps {ℓ} :
    (P : RunBudget → Type ℓ) {A B : Type 0} (f : A → Method B) (r : Outcome A) (b : RunBudget)
    → ((a : A) → Keeps P (f a))
    → P b
    → P (proceed f r b).1
proceed-Keeps P f (done a) b k p = k a b p
proceed-Keeps P f (over e) b k p = p
proceed-Keeps P f value_error b k p = p

pub then-Keeps {ℓ} :
    (P : RunBudget → Type ℓ) {B : Type 0} (m : Method (Unit {0})) (k : Method B)
    → Keeps P m
    → Keeps P k
    → Keeps P (m >> k)
then-Keeps P m k first rest b p = proceed-Keeps P (λ _. k) (m b).0 (m b).1 (λ _. rest) (first b p)

pub guard-Keeps {ℓ} :
    (P : RunBudget → Type ℓ) {B : Type 0} (bad : Bool) (m : Method B)
    → (bad ≡ false → Keeps P m)
    → Keeps P (if bad then refuse else m)
guard-Keeps P true m k b p = p
guard-Keeps P false m k b p = k refl b p

-- A method that refuses bad amounts, checks the deadline once or twice, and then does its step.
module _ {ℓ} (P : RunBudget → Type ℓ) (check : (r : Readings) → Keeps P (check_at r)) where
  pub once-Keeps :
      {A : Type 0} (bad : Bool) (r : Readings) (m : Method A)
      → (bad ≡ false → Keeps P m)
      → Keeps P (if bad then refuse else check_at r >> m)
  once-Keeps bad r m k =
      guard-Keeps P bad (check_at r >> m) (λ ok. then-Keeps P (check_at r) m (check r) (k ok))

  pub twice-Keeps :
      {A : Type 0} (bad : Bool) (r s : Readings) (m : Method A)
      → (bad ≡ false → Keeps P m)
      → Keeps P (if bad then refuse else check_at r >> (check_at s >> m))
  twice-Keeps bad r s m k =
      once-Keeps bad r (check_at s >> m) (λ ok. then-Keeps P (check_at s) m (check s) (k ok))
