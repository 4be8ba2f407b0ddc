-- ===== src/Budget/Exhaustion.antt =====
-- The exhaustion of src/scrapeyard/common/budgets.py's `RunBudget`.
use scrapeyard.Prelude.{
  ℕ, ◌≡◌, refl, leb, sym, subst, not, ◌&&◌, Bool, true, false, some, List, [], ◌∷◌, arith, inl, inr,
  Bool-cases, if◌then◌else◌,
}
use mathlib.Core.Bool.{false≢true}
use scrapeyard.Prelude.Int.{ℤ, pos, ◌-ℤ◌, ◌≤ℤ◌, leb_ℤ, ltb_ℤ, -ℤ_parts}
use scrapeyard.Budget.{
  BudgetExceeded, RunBudget, Outcome, done, over, value_error, Method, ◌>>◌, refuse, proceed,
  unless_exhausted, duration_error, check_deadline, check_at, exhaust_duration, Readings,
  commit_requests, reserve_requests, settle_requests, fit_fetched, check_fetched_capacity,
  commit_fetched, consume_fetched_bytes, commit_records, reserve_extracted_records, fit_serialized,
  enforce_serialized_result_bytes, commit_estimate, reserve_estimated_result_bytes, commit_debug,
  reserve_browser_debug_bytes, release_browser_debug_bytes, begin_wait, end_wait, Call,
  call_reserve_requests, call_settle_requests, call_check_fetched, call_consume_fetched,
  call_reserve_records, call_enforce_serialized, call_reserve_estimated, call_reserve_debug,
  call_release_debug, call_check_deadline, call_exhaust_duration, call_begin_wait, call_end_wait,
  perform, run, forget,
}

-- The calls that reserve or check; the others give capacity back or end a wait.
abbrev pub is_guarded : Call → Bool
is_guarded (call_settle_requests n k) = false
is_guarded (call_release_debug n) = false
is_guarded (call_end_wait finished now) = false
is_guarded _ = true

abbrev pub is_done : {A : Type 0} → Outcome A → Bool
is_done (done a) = true
is_done _ = false

record Refused (b : RunBudget) {A : Type 0} (answer : Outcome A × RunBudget) : Type 0 where
  failed : is_done answer.0 ≡ false
  unchanged : answer.1 ≡ b

spent_check :
    {A : Type 0} (r : Readings) (m : Method A) (b : RunBudget) (e : BudgetExceeded)
    → b.exhausted ≡ some e
    → Refused b ((check_at r >> m) b)
unfolding check_deadline
spent_check (now, then_) m b e h =
    subst
      (λ o. Refused b (
        let (r, b') =
          unless_exhausted o
            (λ b. if leb b.deadline now then duration_error then_ b else (done tt, b)) b in
        proceed (λ _. m) r b'))
      (sym h) (record { failed = refl; unchanged = refl })

spent_guard :
    {A : Type 0} (bad : Bool) (m : Method A) (b : RunBudget)
    → Refused b (m b)
    → Refused b ((if bad then refuse else m) b)
spent_guard true m b h = record { failed = refl; unchanged = refl }
spent_guard false m b h = h

module _ (b : RunBudget) (e : BudgetExceeded) (h : b.exhausted ≡ some e) where
  spent_once :
      {A : Type 0} (bad : Bool) (r : Readings) (m : Method A)
      → Refused b ((if bad then refuse else check_at r >> m) b)
  spent_once bad r m = spent_guard bad (check_at r >> m) b (spent_check r m b e h)

  spent_unless : {A : Type 0} (m : Method A) → Refused b (unless_exhausted b.exhausted m b)
  spent_unless m =
      subst (λ o. Refused b (unless_exhausted o m b)) (sym h)
        (record { failed = refl; unchanged = refl })

  spent_alone : (r : Readings) → Refused b (check_at r b)
  unfolding check_deadline
  spent_alone (now, then_) =
      spent_unless (λ b. if leb b.deadline now then duration_error then_ b else (done tt, b))

  spent_duration : (now : ℕ) → Refused b (exhaust_duration now b)
  unfolding exhaust_duration
  spent_duration now = spent_unless (duration_error now)

forget-Refused :
    {A : Type 0} (b : RunBudget) (answer : Outcome A × RunBudget)
    → Refused b answer
    → Refused b (forget answer.0, answer.1)
forget-Refused b (done a, b') q = absurd (false≢true (sym q.failed))
forget-Refused b (over e, b') q = record { failed = refl; unchanged = q.unchanged }
forget-Refused b (value_error, b') q = record { failed = refl; unchanged = q.unchanged }

perform-Refused :
    (b : RunBudget) (e : BudgetExceeded) (call : Call)
    → b.exhausted ≡ some e
    → is_guarded call ≡ true
    → Refused b (perform call b)
unfolding perform reserve_requests check_fetched_capacity consume_fetched_bytes
    reserve_extracted_records enforce_serialized_result_bytes reserve_estimated_result_bytes
    reserve_browser_debug_bytes begin_wait
perform-Refused b e (call_reserve_requests n r) h g =
    spent_once b e h (ltb_ℤ n (pos 1)) r (commit_requests n)
perform-Refused b e (call_check_fetched n r) h g =
    spent_once b e h (ltb_ℤ n (pos 0)) r (fit_fetched n)
perform-Refused b e (call_consume_fetched n r s) h g =
    spent_once b e h (ltb_ℤ n (pos 0)) r (check_at s >> commit_fetched n)
perform-Refused b e (call_reserve_records n r s) h g =
    spent_once b e h (ltb_ℤ n (pos 0)) r (check_at s >> commit_records n)
perform-Refused b e (call_enforce_serialized n r) h g = spent_check r (fit_serialized n) b e h
perform-Refused b e (call_reserve_estimated n r s) h g =
    spent_once b e h (ltb_ℤ n (pos 0)) r (check_at s >> commit_estimate n)
perform-Refused b e (call_reserve_debug n p r s) h g =
    forget-Refused b _ (spent_once b e h (ltb_ℤ n (pos 0)) r (check_at s >> commit_debug n p))
perform-Refused b e (call_check_deadline r) h g = spent_alone b e h r
perform-Refused b e (call_exhaust_duration now) h g = spent_duration b e h now
perform-Refused b e (call_begin_wait r) h g = spent_alone b e h r
perform-Refused b e (call_settle_requests n k) h g = absurd (false≢true g)
perform-Refused b e (call_release_debug n) h g = absurd (false≢true g)
perform-Refused b e (call_end_wait finished now) h g = absurd (false≢true g)

-- An exhausted budget refuses every call that reserves or checks, and does not change.
pub exhausted_refuses :
    (b : RunBudget) (e : BudgetExceeded) (call : Call)
    → b.exhausted ≡ some e
    → is_guarded call ≡ true
    → (is_done (perform call b).0 ≡ false) × ((perform call b).1 ≡ b)
exhausted_refuses b e call h g = let q = perform-Refused b e call h g in (q.failed, q.unchanged)

-- What is left of `a` after its exhaustion.
pub record Frozen (a b : RunBudget) : Type 0 where
  pub error : BudgetExceeded
  pub spent : b.exhausted ≡ some error
  pub fetched : b.used_fetched_bytes ≡ a.used_fetched_bytes
  pub records : b.used_extracted_records ≡ a.used_extracted_records
  pub estimated : b.estimated_result_bytes ≡ a.estimated_result_bytes
  pub requests : b.used_requests ≤ℤ a.used_requests
  pub debug : b.used_browser_debug_bytes ≤ℤ a.used_browser_debug_bytes
  pub debug_nonneg : pos 0 ≤ℤ b.used_browser_debug_bytes

settle-Frozen : (a b : RunBudget) (n k : ℤ) → Frozen a b → Frozen a (settle_requests n k b).1
unfolding settle_requests
settle-Frozen a b n k f = elim (Bool-cases (not (leb_ℤ (pos 0) k && leb_ℤ k n))) [
  | inl bad ↦ rw bad f
  | inr fine ↦ rw fine (record {
    error = f.error;
    spent = f.spent;
    fetched = f.fetched;
    records = f.records;
    estimated = f.estimated;
    requests = ground (arith, f.requests, -ℤ_parts n k, -ℤ_parts b.used_requests (n -ℤ k));
    debug = f.debug;
    debug_nonneg = f.debug_nonneg;
  })
]

release-Frozen :
    (a b : RunBudget) (n : ℤ) → Frozen a b → Frozen a (release_browser_debug_bytes n b).1
unfolding release_browser_debug_bytes
release-Frozen a b n f = elim (Bool-cases (ltb_ℤ n (pos 0))) [
  | inl bad ↦ rw bad f
  | inr fine ↦ rw fine (record {
    error = f.error;
    spent = f.spent;
    fetched = f.fetched;
    records = f.records;
    estimated = f.estimated;
    requests = f.requests;
    debug = ground (arith, f.debug, f.debug_nonneg, -ℤ_parts b.used_browser_debug_bytes n);
    debug_nonneg = ground arith;
  })
]

end_wait-Frozen :
    (a b : RunBudget) (finished : Bool) (now : ℕ)
    → Frozen a b
    → Frozen a (end_wait finished now b).1
unfolding end_wait
end_wait-Frozen a b true now f = f
end_wait-Frozen a b false now f = record {
  error = _;
  spent = refl;
  fetched = f.fetched;
  records = f.records;
  estimated = f.estimated;
  requests = f.requests;
  debug = f.debug;
  debug_nonneg = f.debug_nonneg;
}

free-Frozen :
    (a b : RunBudget) (call : Call)
    → is_guarded call ≡ false
    → Frozen a b
    → Frozen a (perform call b).1
unfolding perform
free-Frozen a b (call_settle_requests n k) g f = settle-Frozen a b n k f
free-Frozen a b (call_release_debug n) g f = release-Frozen a b n f
free-Frozen a b (call_end_wait finished now) g f = end_wait-Frozen a b finished now f
free-Frozen a b _ g f = absurd (false≢true (sym g))

perform-Frozen : (a b : RunBudget) (call : Call) → Frozen a b → Frozen a (perform call b).1
perform-Frozen a b call f = elim (Bool-cases (is_guarded call)) [
  | inl g ↦ subst (Frozen a) (sym (perform-Refused b f.error call f.spent g).unchanged) f
  | inr g ↦ free-Frozen a b call g f
]

run_from-Frozen : (a b : RunBudget) (calls : List Call) → Frozen a b → Frozen a (run b calls)
unfolding run
run_from-Frozen a b [] f = f
run_from-Frozen a b (call ∷ calls) f =
    run_from-Frozen a (perform call b).1 calls (perform-Frozen a b call f)

-- From the moment of its exhaustion, with artifact bytes that are not negative, whatever the run's
-- tasks still call, the budget stays exhausted: the fetched bytes, the records and the estimated result bytes do not change, and the
-- requests and the artifact bytes can only be given back.
pub exhaustion_is_final :
    (b : RunBudget) (e : BudgetExceeded) (calls : List Call)
    → b.exhausted ≡ some e
    → pos 0 ≤ℤ b.used_browser_debug_bytes
    → Frozen b (run b calls)
exhaustion_is_final b e calls h nonneg = run_from-Frozen b b calls (record {
  error = e;
  spent = h;
  fetched = refl;
  records = refl;
  estimated = refl;
  requests = omega arith;
  debug = omega arith;
  debug_nonneg = nonneg;
})
