-- ===== src/RunResult/Groups.antt =====
-- The grouped results of src/scrapeyard/queue/worker.py keep every target's.
use text.Mathlib.TextLemmas.{append_cancel_left}
use scrapeyard.Prelude.{
  ℕ, zero, suc, ◌+◌, ◌≤◌, ◌<◌, ◌≡◌, refl, sym, ap, ◌∙◌, subst, String, false, inl, inr, Bool-cases,
  Option-cases, Option, none, some, List, [], ◌∷◌, ◌++◌, length, map, arith, ◌==◌, text_keys,
}
use mathlib.Core.List.{append-nil, append_assoc}
use scrapeyard.Prelude.Decimal.{decimal_inj}
use scrapeyard.Prelude.Dict.{
  Dict, get, put, remove, IsUnique, get-remove, put-IsUnique, length-remove-lt,
}
use scrapeyard.Target.{TargetResult}
use scrapeyard.Budget.{RunBudget, Outcome, done, over, value_error, Method, ◌>>◌, proceed, Readings}
use scrapeyard.RunResult.Artifact.{
  TargetOutput, Labels, numbered_key, next_key, unique_result_group_key, target_output, reserve,
  add_results, group_results,
}

numbered_key_inj : (base : String) (i j : ℕ) → numbered_key base i ≡ numbered_key base j → i ≡ j
numbered_key_inj base i j e =
    decimal_inj i j (append_cancel_left "#" _ _ (append_cancel_left base _ _ e))

other_number :
    (base : String) (i j : ℕ) → i < j → (numbered_key base i == numbered_key base j) ≡ false
other_number base i j l = elim (Bool-cases (numbered_key base i == numbered_key base j)) [
  | inl same ↦
      absurd (let e = numbered_key_inj base i j ((text_keys.decides _ _).0 same) in omega arith)
  | inr other ↦ other
]

module _ {V : Type 0} (base : String) where
  -- The search from `i` on does not see an entry of a smaller number.
  next_key-remove :
      (fuel i j : ℕ) (m : Dict String V)
      → j < i
      → next_key fuel base i (remove (numbered_key base j) m) ≡ next_key fuel base i m
  unfolding next_key
  next_key-remove zero i j m l = refl
  next_key-remove (suc fuel) i j m l =
      rw
        (
          get-remove (numbered_key base j) (numbered_key base i) m,
          other_number base j i l,
          next_key-remove fuel (i + 1) j m (omega arith),
        )
        refl

  abbrev Found : ℕ → Dict String V → Option String → Type 0
  Found i m o =
      (j : ℕ) × (i ≤ j) × (o ≡ some (numbered_key base j)) × (get (numbered_key base j) m ≡ none)

  next_key-Found :
      (fuel i : ℕ) (m : Dict String V) → length m < fuel → Found i m (next_key fuel base i m)
  unfolding next_key
  next_key-Found zero i m l = absurd (omega arith)
  next_key-Found (suc fuel) i m l = elim (Option-cases (get (numbered_key base i) m)) [
    | inl free ↦ (i, omega arith, rw free refl, free)
    | inr (v, taken) ↦
        let shorter = length-remove-lt (numbered_key base i) v m taken in
        let (j, le, found, absent) =
          next_key-Found fuel (i + 1) (remove (numbered_key base i) m) (omega arith) in
        (
          j,
          omega arith,
          rw taken (sym (next_key-remove fuel (i + 1) i m (omega arith)) ∙ found),
          rw
              (
                get-remove (numbered_key base i) (numbered_key base j) m,
                other_number base i j (omega arith),
              )
              at absent,
        )
  ]

  -- The key that a result is stored under is a new one.
  unique_key_found :
      (m : Dict String V)
      → (key : String) × (unique_result_group_key m base ≡ some key) × (get key m ≡ none)
  unfolding unique_result_group_key
  unique_key_found m = elim (Option-cases (get base m)) [
    | inl free ↦ (base, rw free refl, free)
    | inr (v, taken) ↦
        let (j, _, found, absent) = next_key-Found (suc (length m)) 2 m (omega arith) in
        (numbered_key base j, rw taken found, absent)
  ]

abbrev pub outputs : {V : Type 0} → Dict String V → List V
outputs m = map (λ (e : String × _). e.1) m

put_new :
    {V : Type 0} (key : String) (v : V) (m : Dict String V)
    → get key m ≡ none
    → put key v m ≡ m ++ ((key, v) ∷ [])
unfolding get put
put_new key v [] e = refl
put_new key v ((k, w) ∷ m) e = elim (Bool-cases (k == key)) [
  | inl same ↦ absurd (let h = rw same at e in cc)
  | inr other ↦ rw other (ap (λ ws. (k, w) ∷ ws) (put_new key v m (rw other at e)))
]

module _ (x : Labels) (clock : ℕ → Readings × Readings) where
  -- The reservations of the entries of a table, from number `n` on, one after the other; then the
  -- answer.
  abbrev pub reserve_each :
      ℕ
      → Dict String TargetOutput
      → Option (Dict String TargetOutput)
      → Method (Option (Dict String TargetOutput))
  reserve_each n [] answer = λ b. (done answer, b)
  reserve_each n ((key, out) ∷ m) answer =
      reserve x clock n (x.output_size key out) >> reserve_each (n + 1) m answer

  proceed_same :
      (k k' : Method (Option (Dict String TargetOutput))) (o : Outcome (Unit {0})) (b : RunBudget)
      → ((c : RunBudget) → k c ≡ k' c)
      → proceed (λ _. k) o b ≡ proceed (λ _. k') o b
  proceed_same k k' (done u) b h = h b
  proceed_same k k' (over e) b h = refl
  proceed_same k k' value_error b h = refl

  -- What adding the results to a table comes to: which entries are added, and that the run is the one
  -- of their reservations.
  abbrev Adds : ℕ → List TargetResult → Dict String TargetOutput → Type 0
  Adds n rs m =
      (added : Dict String TargetOutput) × (outputs added ≡ map (target_output x) rs)
      × IsUnique (m ++ added)
      × ((b : RunBudget)
          → add_results x clock n rs m b ≡ reserve_each n added (some (m ++ added)) b)

  add_results-Adds :
      (n : ℕ) (rs : List TargetResult) (m : Dict String TargetOutput) → IsUnique m → Adds n rs m
  unfolding add_results
  add_results-Adds n [] m u =
      ([], refl, rw (append-nil m) u, λ b. ap (λ t. (done (some t), b)) (sym (append-nil m)))
  add_results-Adds n (r ∷ rs) m u =
      let (key, found, absent) = unique_key_found (x.url_host_label r.url) m in
      let out = target_output x r in
      let (added, kept, unique, same) =
        add_results-Adds (n + 1) rs (put key out m) (put-IsUnique key out m u) in
      let whole : put key out m ++ added ≡ m ++ ((key, out) ∷ added) =
        ap (λ t. t ++ added) (put_new key out m absent) ∙ append_assoc m _ _ in
      (
        (key, out) ∷ added,
        ap (λ os. out ∷ os) kept,
        subst IsUnique whole unique,
        λ b. rw found (
            proceed_same (add_results x clock (n + 1) rs (put key out m))
              (reserve_each (n + 1) added (some (m ++ ((key, out) ∷ added))))
              (reserve x clock n (x.output_size key out) b).0
              (reserve x clock n (x.output_size key out) b).1
              (λ c. same c ∙ ap (λ t. reserve_each (n + 1) added (some t) c) whole)),
      )

-- Whatever labels the URLs of a run's targets have, the same one for several of them or one that is
-- the numbered key of another, there is a table with one entry for each target, in the order of the
-- targets and with no key twice, such that the grouping of the results does just this: it reserves the
-- size of no results and then the size of each entry under its key, in the order of the table, and
-- returns the table if no reservation raises. So the search for a free key ends, no target's records
-- replace another's, and the grouping raises only what one of these reservations, in the budget that
-- those before it have left, raises.
pub group_results_lem :
    (x : Labels) (clock : ℕ → Readings × Readings) (rs : List TargetResult) (b : RunBudget)
    → (grouped : Dict String TargetOutput) × (outputs grouped ≡ map (target_output x) rs)
      × IsUnique grouped
      × (group_results x clock rs b
          ≡ (reserve x clock 0 x.empty_size >> reserve_each x clock 1 grouped (some grouped)) b)
unfolding group_results
group_results_lem x clock rs b =
    let (grouped, kept, unique, same) = add_results-Adds x clock 1 rs [] tt in
    (
      grouped,
      kept,
      unique,
      proceed_same x clock (add_results x clock 1 rs [])
          (reserve_each x clock 1 grouped (some grouped)) (reserve x clock 0 x.empty_size b).0
          (reserve x clock 0 x.empty_size b).1 same,
    )
