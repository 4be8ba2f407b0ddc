-- ===== src/Intake/Turns.antt =====
-- The fair turns of src/scrapeyard/queue/priority.py as the admission of src/scrapeyard/queue/pool.py
-- takes them.
use scrapeyard.Prelude.{
  ℕ, zero, suc, ◌+◌, ◌-◌, ◌%◌, ◌≤◌, ◌<◌, ◌≡◌, ◌⊎◌, refl, sym, ap, ◌∙◌, true, inl, inr, arith,
  Option, none, some, List, [], ◌∷◌, eq_of_some,
}
use scrapeyard.Intake.{
  Priority, priorities, add_answer, take_steps, high, normal, low, Delivery, Intake, queue_of,
  set_queue, add, is_ahead, preferred, others, selection_order, next_cursor, admit_from, advance,
  admit_one, IntakeStep, admit, arrive,
}
use scrapeyard.Intake.Scan.{
  every, IsFirst, Among, scan_any, same_cursor, set_same, admit_preferred_first, admit_some,
}

-- The next turn that prefers a priority.
abbrev turn_of : Priority → ℕ
turn_of high = 0
turn_of normal = 4
turn_of low = 6

wait_for : (p : Priority) (c : ℕ) → c < 7 → (k : ℕ) × (k < 7) × ((c + k) % 7 ≡ turn_of p)
wait_for high c h = ((7 - c) % 7, omega arith, omega arith)
wait_for normal c h = ((11 - c) % 7, omega arith, omega arith)
wait_for low c h = (6 - c, omega arith, omega arith)

preferred_turn : (p : Priority) → preferred (turn_of p) ≡ some p
unfolding preferred
preferred_turn high = refl
preferred_turn normal = refl
preferred_turn low = refl

preferred_any : (c : ℕ) → c < 7 → (q : Priority) × (preferred c ≡ some q)
unfolding preferred
preferred_any zero h = (high, refl)
preferred_any (suc zero) h = (high, refl)
preferred_any (suc (suc zero)) h = (high, refl)
preferred_any (suc (suc (suc zero))) h = (high, refl)
preferred_any (suc (suc (suc (suc zero)))) h = (normal, refl)
preferred_any (suc (suc (suc (suc (suc zero))))) h = (normal, refl)
preferred_any (suc (suc (suc (suc (suc (suc zero)))))) h = (low, refl)
preferred_any (suc (suc (suc (suc (suc (suc (suc c))))))) h = absurd (omega arith)

orders_all : (q p : Priority) → Among p (selection_order q)
unfolding selection_order others
orders_all high high = inl refl
orders_all high normal = inr (inl refl)
orders_all high low = inr (inr (inl refl))
orders_all normal high = inr (inl refl)
orders_all normal normal = inl refl
orders_all normal low = inr (inr (inl refl))
orders_all low high = inr (inl refl)
orders_all low normal = inr (inr (inl refl))
orders_all low low = inl refl

IsFirst-kept :
    (p : Priority) (d : Delivery) (c : ℕ) (s : Intake)
    → IsFirst p d s
    → IsFirst p d (record s { cursor = c })
IsFirst-kept high d c s f = f
IsFirst-kept normal d c s f = f
IsFirst-kept low d c s f = f

advance-some :
    (e : Delivery) (o : Option Delivery × Intake)
    → o.0 ≡ some e
    → advance o ≡ (some e, record o.1 { cursor = next_cursor o.1.cursor })
advance-some e (none, s) h = absurd (cc)
advance-some e (some x, s) h = rw h refl

-- One admission by the policy of the pool.
abbrev Turn : Priority → Delivery → Intake → Option (Option Delivery × Intake) → Type 0
Turn p d s o =
    (e : Delivery) × (s' : Intake) × (o ≡ some (some e, s'))
    × (s'.cursor ≡ next_cursor s.cursor)
    × (preferred s.cursor ≡ some p → e ≡ d)
    × ((e ≡ d) ⊎ IsFirst p d s')

admit-Turn :
    (now : ℕ) (p : Priority) (d : Delivery) (s : Intake)
    → s.cursor < 7
    → IsFirst p d s
    → d.score ≤ now
    → Turn p d s (admit_one every now s)
unfolding admit_one selection_order
admit-Turn now p d s c f l =
    let (q, g) = preferred_any s.cursor c in
    let o = admit_from every now (selection_order q) 0 s in
    let (e, answer, same, kept) = admit_some now p (selection_order q) 0 d s (orders_all q p) f l in
    (
      e,
      record o.1 { cursor = next_cursor o.1.cursor },
      rw g (ap some (advance-some e o answer)),
      ap next_cursor same,
      λ h.
          let it_is : q ≡ p = eq_of_some (sym g ∙ h) in
          let first : (admit_from every now (selection_order p) 0 s).0 ≡ some d =
            admit_preferred_first now p (others p priorities) 0 d s f l in
          eq_of_some
            (sym answer ∙ ap (λ r. (admit_from every now (selection_order r) 0 s).0) it_is ∙ first),
      elim kept [ inl same_one ↦ inl same_one | inr first ↦ inr (IsFirst-kept p d _ o.1 first) ],
    )

-- How many of the steps are admissions.
abbrev pub admissions : List IntakeStep → ℕ
admissions [] = 0
admissions (admit now ∷ steps) = suc (admissions steps)
admissions (arrive p d ∷ steps) = admissions steps

-- The delivery is due at every admission, and whatever arrives is behind it.
abbrev pub InLine : Delivery → List IntakeStep → Type 0
InLine d [] = Unit {0}
InLine d (admit now ∷ steps) = (d.score ≤ now) × InLine d steps
InLine d (arrive p e ∷ steps) = (is_ahead d e ≡ true) × InLine d steps

add_behind :
    (d e : Delivery) (ds : List Delivery) → is_ahead d e ≡ true → add e (d ∷ ds) ≡ d ∷ add e ds
unfolding add
add_behind d e ds h = rw h refl

IsFirst-arrive :
    (p q : Priority) (d e : Delivery) (s : Intake)
    → is_ahead d e ≡ true
    → IsFirst p d s
    → IsFirst p d (set_queue q (add e (queue_of q s)) s)
IsFirst-arrive high high d e s h (ds, f) = (add e ds, ap (add e) f ∙ add_behind d e ds h)
IsFirst-arrive high normal d e s h f = f
IsFirst-arrive high low d e s h f = f
IsFirst-arrive normal high d e s h f = f
IsFirst-arrive normal normal d e s h (ds, f) = (add e ds, ap (add e) f ∙ add_behind d e ds h)
IsFirst-arrive normal low d e s h f = f
IsFirst-arrive low high d e s h f = f
IsFirst-arrive low normal d e s h f = f
IsFirst-arrive low low d e s h (ds, f) = (add e ds, ap (add e) f ∙ add_behind d e ds h)

cursor_after_arrival :
    (q : Priority) (ds : List Delivery) (s : Intake) → (set_queue q ds s).cursor ≡ s.cursor
cursor_after_arrival high ds s = refl
cursor_after_arrival normal ds s = refl
cursor_after_arrival low ds s = refl

kept_cursor :
    (now : ℕ) (ps : List Priority) (n : ℕ) (s : Intake)
    → (admit_from every now ps n s).1.cursor ≡ s.cursor
unfolding admit_from
kept_cursor now [] n s = refl
kept_cursor now (q ∷ ps) n s = elim (scan_any now (queue_of q s) n) [
  | inr (e, es, h, g) ↦ rw (g, admit_from) (same_cursor q e es s)
  | inl g ↦ rw (g, admit_from, set_same q s) (kept_cursor now ps n s)
]

advanced_cursor :
    (c : ℕ) (o : Option Delivery × Intake) → c < 7 → o.1.cursor ≡ c → (advance o).1.cursor < 7
unfolding next_cursor
advanced_cursor c (none, s) l h = omega (arith, h)
advanced_cursor c (some d, s) l h = omega arith

-- The steps never leave the cycle.
take_steps_total :
    (steps : List IntakeStep) (s : Intake)
    → s.cursor < 7
    → (out : List Delivery) × (s' : Intake) × (take_steps every steps s ≡ some (out, s'))
unfolding take_steps admit_one
take_steps_total [] s c = ([], s, refl)
take_steps_total (arrive q e ∷ steps) s c =
    take_steps_total steps (set_queue q (add e (queue_of q s)) s)
      (omega (arith, cursor_after_arrival q (add e (queue_of q s)) s))
take_steps_total (admit now ∷ steps) s c =
    let (q, g) = preferred_any s.cursor c in
    let o = admit_from every now (selection_order q) 0 s in
    let (out, s', h) =
      take_steps_total steps (advance o).1
        (advanced_cursor s.cursor o c (kept_cursor now (selection_order q) 0 s)) in
    (add_answer (advance o).0 out, s', rw (g, h) refl)

Admitted : Delivery → List IntakeStep → Intake → Type 0
Admitted d steps s =
    (out : List Delivery) × (s' : Intake) × (take_steps every steps s ≡ some (out, s'))
    × Among d out

Admitted-after :
    (k : ℕ) (p : Priority) (d : Delivery) (steps : List IntakeStep) (s : Intake)
    → s.cursor < 7
    → (s.cursor + k) % 7 ≡ turn_of p
    → k < 7
    → k < admissions steps
    → IsFirst p d s
    → InLine d steps
    → Admitted d steps s
unfolding Admitted take_steps next_cursor
Admitted-after k p d [] s c t b a f l = absurd (omega arith)
Admitted-after k p d (arrive q e ∷ steps) s c t b a f (h, l) =
    let s1 = set_queue q (add e (queue_of q s)) s in
    let same : s1.cursor ≡ s.cursor = cursor_after_arrival q (add e (queue_of q s)) s in
    Admitted-after k p d steps s1 (omega (arith, same)) (omega (arith, same, t)) b a
      (IsFirst-arrive p q d e s h f) l
Admitted-after zero p d (admit now ∷ steps) s c t b a f (h, l) =
    let (e, s1, answer, next, preferring, outcome) = admit-Turn now p d s c f h in
    let its_turn : s.cursor ≡ turn_of p = omega (arith, t) in
    let (out, s', rest) = take_steps_total steps s1 (omega (arith, next)) in
    (
      e ∷ out,
      s',
      rw (answer, rest) refl,
      inl (preferring (ap preferred its_turn ∙ preferred_turn p)),
    )
Admitted-after (suc k) p d (admit now ∷ steps) s c t b a f (h, l) =
    let (e, s1, answer, next, preferring, outcome) = admit-Turn now p d s c f h in
    elim outcome [
      | inl same ↦
          let (out, s', rest) = take_steps_total steps s1 (omega (arith, next)) in
          (e ∷ out, s', rw (answer, rest) refl, inl same)
      | inr first ↦
          let (out, s', rest, d_in) =
            Admitted-after k p d steps s1 (omega (arith, next)) (omega (arith, next, t))
              (omega arith) (omega arith) first l in
          (e ∷ out, s', rw (answer, rest) refl, inr d_in)
    ]

-- Where every delivery has its payload, a delivery that is first in its queue, whatever its
-- priority, is among those admitted by any sequence of steps with at least seven admissions, if it
-- is due at each of them and what arrives in the meantime, in any queue, is behind it in the order of
-- scores and names. The cursor is one of the seven turns.
pub admitted_within_turns :
    (p : Priority) (d : Delivery) (steps : List IntakeStep) (s : Intake)
    → s.cursor < 7
    → IsFirst p d s
    → InLine d steps
    → 7 ≤ admissions steps
    → (out : List Delivery) × (s' : Intake) × (take_steps every steps s ≡ some (out, s'))
      × Among d out
unfolding Admitted
admitted_within_turns p d steps s c f l a =
    let (k, b, t) = wait_for p s.cursor c in Admitted-after k p d steps s c t b (omega arith) f l
