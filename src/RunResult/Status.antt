-- ===== src/RunResult/Status.antt =====
-- When a run is complete, partial or failed, and what it publishes: src/scrapeyard/queue/worker.py.
use scrapeyard.Prelude.{
  ℕ, suc, subst, ◌+◌, ◌≤◌, ◌≡◌, refl, ◌∙◌, Bool, true, false, ◌&&◌, ◌||◌, not, ltb, nat_eq, arith,
  List, [], ◌∷◌, ◌++◌, length, Bool-cases, inl, inr, if◌then◌else◌,
}
use scrapeyard.Target.{TargetResult, is_failed}
use scrapeyard.Jobs.{JobStatus, complete, partial, failed, same_status, is_terminal}
use scrapeyard.RunResult.{
  FailStrategy, keep_partial, all_or_nothing, continue, is_empty, failed_count, collect_data,
  collect_errors, determine_final_status, publishes, persist_job_results,
}

append_empty : {A : Type 0} (xs ys : List A) → is_empty (xs ++ ys) ≡ (is_empty xs && is_empty ys)
append_empty [] ys = refl
append_empty (x ∷ xs) ys = refl

one_more : (a b : ℕ) → nat_eq (1 + a) (suc b) ≡ nat_eq a b
one_more a b = ground arith

withhold :
    {A : Type 0} (b : Bool) (xs : List A) → (if not b then xs else []) ≡ (if b then [] else xs)
withhold true xs = refl
withhold false xs = refl

and_false : (b : Bool) → not (b && false) ≡ true
and_false true = refl
and_false false = refl

partial_table :
    (good all full : Bool)
    → (full ≡ true → all ≡ true → good ≡ true)
    → (if not good || not full then failed else (if not all then partial else complete))
      ≡ (if all && full then complete else (if not all && good && full then partial else failed))
partial_table true true true h = refl
partial_table true true false h = refl
partial_table true false true h = refl
partial_table true false false h = refl
partial_table false true true h = let g = h refl refl in cc
partial_table false true false h = refl
partial_table false false true h = refl
partial_table false false false h = refl

abbrev pub all_succeed : List TargetResult → Bool
all_succeed [] = true
all_succeed (r ∷ rs) = not (is_failed r) && all_succeed rs

abbrev pub any_succeeds : List TargetResult → Bool
any_succeeds [] = false
any_succeeds (r ∷ rs) = not (is_failed r) || any_succeeds rs

abbrev pub any_record : List TargetResult → Bool
any_record [] = false
any_record (r ∷ rs) = not (is_empty r.data_items) || any_record rs

-- What makes a run complete, and what makes it partial.
abbrev pub is_complete : FailStrategy → List TargetResult → Bool
is_complete all_or_nothing rs = all_succeed rs
is_complete continue rs = any_record rs
is_complete keep_partial rs = all_succeed rs && any_record rs

abbrev pub is_partial : FailStrategy → List TargetResult → Bool
is_partial keep_partial rs = not (all_succeed rs) && any_succeeds rs && any_record rs
is_partial _ rs = false

failed_count-length : (rs : List TargetResult) → failed_count rs ≤ length rs
unfolding failed_count
failed_count-length [] = omega arith
failed_count-length (r ∷ rs) = elim (Bool-cases (is_failed r)) [
  | inl bad ↦ rw bad (let h = failed_count-length rs in omega arith)
  | inr good ↦ rw good (let h = failed_count-length rs in omega arith)
]

none_failed : (rs : List TargetResult) → ltb 0 (failed_count rs) ≡ not (all_succeed rs)
unfolding failed_count
none_failed [] = refl
none_failed (r ∷ rs) = elim (Bool-cases (is_failed r)) [
  | inl bad ↦ rw bad (ground arith)
  | inr good ↦ rw good (none_failed rs)
]

all_failed : (rs : List TargetResult) → nat_eq (failed_count rs) (length rs) ≡ not (any_succeeds rs)
unfolding failed_count
all_failed [] = refl
all_failed (r ∷ rs) = elim (Bool-cases (is_failed r)) [
  | inl bad ↦ rw bad (one_more (failed_count rs) (length rs) ∙ all_failed rs)
  | inr good ↦ rw good (let h = failed_count-length rs in ground arith)
]

no_records : (rs : List TargetResult) → is_empty (collect_data rs) ≡ not (any_record rs)
unfolding collect_data
no_records [] = refl
no_records (r ∷ rs) = elim (Bool-cases (is_empty r.data_items)) [
  | inl bare ↦ rw (append_empty r.data_items (collect_data rs), bare) (no_records rs)
  | inr full ↦ rw (append_empty r.data_items (collect_data rs), full) refl
]

some_succeed :
    (rs : List TargetResult) → any_record rs ≡ true → all_succeed rs ≡ true → any_succeeds rs ≡ true
some_succeed [] h g = h
some_succeed (r ∷ rs) h g = elim (Bool-cases (is_failed r)) [
  | inl bad ↦ let g = subst (λ b. (not b && all_succeed rs) ≡ true) bad g in cc
  | inr good ↦ rw good refl
]

-- The status of a run, and whether its records are held back, in these terms.
abbrev pub verdict : FailStrategy → List TargetResult → JobStatus
verdict strategy rs =
    if is_complete strategy rs
    then complete
    else (if is_partial strategy rs then partial else failed)

abbrev pub is_withheld : FailStrategy → List TargetResult → Bool
is_withheld all_or_nothing rs = not (all_succeed rs)
is_withheld _ rs = false

final_status_lem :
    (strategy : FailStrategy) (rs : List TargetResult)
    → determine_final_status strategy rs (collect_data rs) ≡ verdict strategy rs
unfolding determine_final_status
final_status_lem all_or_nothing rs = elim (Bool-cases (all_succeed rs)) [
  | inl all ↦ rw (none_failed rs, all) refl
  | inr some ↦ rw (none_failed rs, some) refl
]
final_status_lem continue rs = elim (Bool-cases (any_record rs)) [
  | inl full ↦ rw (no_records rs, full) refl
  | inr bare ↦ rw (no_records rs, bare) refl
]
final_status_lem keep_partial rs =
    rw (all_failed rs, none_failed rs, no_records rs)
      (partial_table (any_succeeds rs) (all_succeed rs) (any_record rs) (some_succeed rs))

published :
    (strategy : FailStrategy) (rs : List TargetResult)
    → publishes strategy (verdict strategy rs) ≡ not (is_withheld strategy rs)
unfolding publishes
published all_or_nothing rs = elim (Bool-cases (all_succeed rs)) [
  | inl all ↦ rw all refl
  | inr some ↦ rw some refl
]
published continue rs = and_false (same_status (verdict continue rs) failed)
published keep_partial rs = and_false (same_status (verdict keep_partial rs) failed)

verdict-is_terminal :
    (strategy : FailStrategy) (rs : List TargetResult) → is_terminal (verdict strategy rs) ≡ true
verdict-is_terminal strategy rs = elim (Bool-cases (is_complete strategy rs)) [
  | inl whole ↦ rw whole refl
  | inr less ↦ elim (Bool-cases (is_partial strategy rs)) [
    | inl part ↦ rw (less, part) refl
    | inr none_left ↦ rw (less, none_left) refl
  ]
]

-- The status that is stored with a run's result is a terminal one: complete if, by the run's
-- strategy, all targets succeeded (all or nothing), there is a record (continue), or both (partial);
-- partial if, under the strategy of that name, there is a record, and some targets succeeded and some
-- failed; and failed otherwise. The records are those of all targets in their order, but none if a
-- target failed under all or nothing, and the errors are those of all targets in their order.
pub persist_job_results_lem :
    (strategy : FailStrategy) (rs : List TargetResult)
    → (persist_job_results strategy rs ≡ record {
      final_status = verdict strategy rs;
      flat_data = if is_withheld strategy rs then [] else collect_data rs;
      all_errors = collect_errors rs;
    })
      × (is_terminal (persist_job_results strategy rs).final_status ≡ true)
unfolding persist_job_results
persist_job_results_lem strategy rs =
    rw
      (
        final_status_lem strategy rs,
        published strategy rs,
        withhold (is_withheld strategy rs) (collect_data rs),
      )
      (refl, verdict-is_terminal strategy rs)
