-- ===== src/Intake/Scan.antt =====
-- Lemmas on the script of src/scrapeyard/queue/pool.py where every delivery has its payload.
use scrapeyard.Prelude.{
  ℕ, ◌≤◌, ◌≡◌, ◌⊎◌, refl, sym, ap, ◌∙◌, String, Bool, true, false, ltb, inl, inr, arith, Option,
  some, List, [], ◌∷◌, Bool-cases,
}
use scrapeyard.Intake.{
  Priority, high, normal, low, Delivery, Intake, queue_of, set_queue, nothing_due, found, scan,
  start_execution, admit_from,
}

abbrev pub every : String → Bool
every job = true

-- The delivery is the first of the queue.
abbrev pub IsFirst : Priority → Delivery → Intake → Type 0
IsFirst p d s = (ds : List Delivery) × (queue_of p s ≡ d ∷ ds)

scan_due :
    (now : ℕ) (d : Delivery) (ds : List Delivery) (n : ℕ)
    → d.score ≤ now
    → scan every now (d ∷ ds) n ≡ found d ds
unfolding scan
scan_due now d ds n h = let due : ltb now d.score ≡ false = ground arith in rw due refl

-- A queue that yields nothing is left as it is.
pub scan_any :
    (now : ℕ) (q : List Delivery) (n : ℕ)
    → (scan every now q n ≡ nothing_due q n)
      ⊎ ((d : Delivery) × (ds : List Delivery) × (q ≡ d ∷ ds) × (scan every now q n ≡ found d ds))
unfolding scan
scan_any now [] n = inl refl
scan_any now (d ∷ ds) n = elim (Bool-cases (ltb now d.score)) [
  | inl early ↦ inl (rw early refl)
  | inr due ↦ inr (d, ds, refl, rw due refl)
]

pub set_same : (p : Priority) (s : Intake) → set_queue p (queue_of p s) s ≡ s
set_same high s = refl
set_same normal s = refl
set_same low s = refl

first_item : {d e : Delivery} {ds es : List Delivery} → d ∷ ds ≡ e ∷ es → d ≡ e
first_item h = cc

-- What is admitted is the delivery itself, or leaves it the first of its queue.
IsFirst-elsewhere :
    (p q : Priority) (d e : Delivery) (es : List Delivery) (s : Intake)
    → queue_of q s ≡ e ∷ es
    → IsFirst p d s
    → (e ≡ d) ⊎ IsFirst p d (start_execution q e es s).1
IsFirst-elsewhere high high d e es s f (ds, h) = inl (first_item (sym f ∙ h))
IsFirst-elsewhere high normal d e es s f g = inr g
IsFirst-elsewhere high low d e es s f g = inr g
IsFirst-elsewhere normal high d e es s f g = inr g
IsFirst-elsewhere normal normal d e es s f (ds, h) = inl (first_item (sym f ∙ h))
IsFirst-elsewhere normal low d e es s f g = inr g
IsFirst-elsewhere low high d e es s f g = inr g
IsFirst-elsewhere low normal d e es s f g = inr g
IsFirst-elsewhere low low d e es s f (ds, h) = inl (first_item (sym f ∙ h))

abbrev pub Among : {A : Type 0} → A → List A → Type 0
Among a [] = ⊥
Among a (x ∷ xs) = (x ≡ a) ⊎ Among a xs

pub same_cursor :
    (q : Priority) (e : Delivery) (es : List Delivery) (s : Intake)
    → (start_execution q e es s).1.cursor ≡ s.cursor
same_cursor high e es s = refl
same_cursor normal e es s = refl
same_cursor low e es s = refl

-- An admission admits something; the delivery is admitted or stays the first of its queue.
abbrev pub Serves : Priority → Delivery → Intake → Option Delivery × Intake → Type 0
Serves p d s o =
    (e : Delivery) × (o.0 ≡ some e) × (o.1.cursor ≡ s.cursor) × ((e ≡ d) ⊎ IsFirst p d o.1)

pub admit_preferred_first :
    (now : ℕ) (p : Priority) (ps : List Priority) (n : ℕ) (d : Delivery) (s : Intake)
    → IsFirst p d s
    → d.score ≤ now
    → (admit_from every now (p ∷ ps) n s).0 ≡ some d
unfolding admit_from
admit_preferred_first now p ps n d s (ds, h) l =
    let g : scan every now (queue_of p s) n ≡ found d ds =
      ap (λ q. scan every now q n) h ∙ scan_due now d ds n l in
    rw (g, admit_from) refl

pub admit_some :
    (now : ℕ) (p : Priority) (qs : List Priority) (n : ℕ) (d : Delivery) (s : Intake)
    → Among p qs
    → IsFirst p d s
    → d.score ≤ now
    → Serves p d s (admit_from every now qs n s)
unfolding admit_from
admit_some now p [] n d s m f l = elim m [ ]
admit_some now p (q ∷ qs) n d s m f l = elim (scan_any now (queue_of q s) n) [
  | inr (e, es, h, g) ↦
      rw (g, admit_from) (e, refl, same_cursor q e es s, IsFirst-elsewhere p q d e es s h f)
  | inl g ↦ elim m [
    | inr m' ↦ rw (g, admit_from, set_same q s) (admit_some now p qs n d s m' f l)
    | inl same ↦ absurd (
        let due : scan every now (queue_of q s) n ≡ found d f.0 =
          ap (λ r. scan every now (queue_of r s) n) same
          ∙ ap (λ r. scan every now r n) f.1
          ∙ scan_due now d f.0 n l in
        let clash : nothing_due (queue_of q s) n ≡ found d f.0 = sym g ∙ due in cc)
  ]
]
