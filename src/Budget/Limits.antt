-- ===== src/Budget/Limits.antt =====
-- The limits of src/scrapeyard/common/budgets.py's `RunBudget`.
use scrapeyard.Prelude.{ℕ, ◌≡◌, Bool, false, List, [], ◌∷◌, arith}
use scrapeyard.Prelude.Int.{ℤ, pos, ◌-ℤ◌, ◌≤ℤ◌, ltb_ℤ, +ℤ_parts, -ℤ_parts}
use scrapeyard.Budget.Rules.{Keeps, then-Keeps, once-Keeps, twice-Keeps}
use scrapeyard.Budget.{
  RunBudget, check_deadline, check_at, exhaust_duration, Readings, commit_requests,
  reserve_requests, settle_requests, fit_fetched, check_fetched_capacity, commit_fetched,
  consume_fetched_bytes, commit_records, reserve_extracted_records, fit_serialized,
  enforce_serialized_result_bytes, commit_estimate, reserve_estimated_result_bytes, commit_debug,
  reserve_browser_debug_bytes, release_browser_debug_bytes, begin_wait, end_wait, Call,
  call_reserve_requests, call_settle_requests, call_check_fetched, call_consume_fetched,
  call_reserve_records, call_enforce_serialized, call_reserve_estimated, call_reserve_debug,
  call_release_debug, call_check_deadline, call_exhaust_duration, call_begin_wait, call_end_wait,
  perform, run,
}

pub record IsWithin (b : RunBudget) : Type 0 where
  pub requests : b.used_requests ≤ℤ b.max_requests
  pub fetched : b.used_fetched_bytes ≤ℤ b.max_fetched_bytes
  pub records : b.used_extracted_records ≤ℤ b.max_extracted_records
  pub estimated : b.estimated_result_bytes ≤ℤ b.max_serialized_result_bytes
  pub debug : b.used_browser_debug_bytes ≤ℤ b.max_browser_debug_bytes
  pub debug_nonneg : pos 0 ≤ℤ b.used_browser_debug_bytes

check_at-IsWithin : (r : Readings) (b : RunBudget) → IsWithin b → IsWithin (check_at r b).1
unfolding check_deadline
check_at-IsWithin (now, then_) b w = ground arith

commit_requests-IsWithin : (n : ℤ) → Keeps IsWithin (commit_requests n)
unfolding commit_requests
commit_requests-IsWithin n b w = ground arith

commit_fetched-IsWithin : (n : ℤ) → Keeps IsWithin (commit_fetched n)
unfolding commit_fetched
commit_fetched-IsWithin n b w = ground arith

commit_records-IsWithin : (n : ℤ) → Keeps IsWithin (commit_records n)
unfolding commit_records
commit_records-IsWithin n b w = ground arith

commit_estimate-IsWithin : (n : ℤ) → Keeps IsWithin (commit_estimate n)
unfolding commit_estimate
commit_estimate-IsWithin n b w = ground arith

fit_fetched-IsWithin : (n : ℤ) → Keeps IsWithin (fit_fetched n)
unfolding fit_fetched
fit_fetched-IsWithin n b w = ground arith

fit_serialized-IsWithin : (n : ℤ) → Keeps IsWithin (fit_serialized n)
unfolding fit_serialized
fit_serialized-IsWithin n b w = ground arith

settle_requests-IsWithin : (n k : ℤ) → Keeps IsWithin (settle_requests n k)
unfolding settle_requests
settle_requests-IsWithin n k b w = ground (arith, -ℤ_parts n k, -ℤ_parts b.used_requests (n -ℤ k))

release-IsWithin : (n : ℤ) → Keeps IsWithin (release_browser_debug_bytes n)
unfolding release_browser_debug_bytes
release-IsWithin n b w = ground (arith, -ℤ_parts b.used_browser_debug_bytes n)

commit_debug-IsWithin :
    (n : ℤ) (partial : Bool) → ltb_ℤ n (pos 0) ≡ false → Keeps IsWithin (commit_debug n partial)
unfolding commit_debug
commit_debug-IsWithin n partial nonneg b w =
    let left = b.max_browser_debug_bytes -ℤ b.used_browser_debug_bytes in
    ground (
      arith,
      -ℤ_parts b.max_browser_debug_bytes b.used_browser_debug_bytes,
      +ℤ_parts b.used_browser_debug_bytes n,
      +ℤ_parts b.used_browser_debug_bytes left,
      +ℤ_parts b.used_browser_debug_bytes (pos 0),
    )

exhaust_duration-IsWithin : (now : ℕ) → Keeps IsWithin (exhaust_duration now)
unfolding exhaust_duration
exhaust_duration-IsWithin now b w = ground arith

end_wait-IsWithin : (finished : Bool) (now : ℕ) → Keeps IsWithin (end_wait finished now)
unfolding end_wait
end_wait-IsWithin finished now b w = ground arith

pub perform-IsWithin : (call : Call) → Keeps IsWithin (perform call)
unfolding perform reserve_requests check_fetched_capacity consume_fetched_bytes
    reserve_extracted_records enforce_serialized_result_bytes reserve_estimated_result_bytes
    reserve_browser_debug_bytes begin_wait
perform-IsWithin (call_reserve_requests n r) =
    once-Keeps IsWithin check_at-IsWithin (ltb_ℤ n (pos 1)) r (commit_requests n)
      (λ _. commit_requests-IsWithin n)
perform-IsWithin (call_settle_requests n k) = settle_requests-IsWithin n k
perform-IsWithin (call_check_fetched n r) =
    once-Keeps IsWithin check_at-IsWithin (ltb_ℤ n (pos 0)) r (fit_fetched n)
      (λ _. fit_fetched-IsWithin n)
perform-IsWithin (call_consume_fetched n r s) =
    twice-Keeps IsWithin check_at-IsWithin (ltb_ℤ n (pos 0)) r s (commit_fetched n)
      (λ _. commit_fetched-IsWithin n)
perform-IsWithin (call_reserve_records n r s) =
    twice-Keeps IsWithin check_at-IsWithin (ltb_ℤ n (pos 0)) r s (commit_records n)
      (λ _. commit_records-IsWithin n)
perform-IsWithin (call_enforce_serialized n r) =
    then-Keeps IsWithin (check_at r) (fit_serialized n) (check_at-IsWithin r)
      (fit_serialized-IsWithin n)
perform-IsWithin (call_reserve_estimated n r s) =
    twice-Keeps IsWithin check_at-IsWithin (ltb_ℤ n (pos 0)) r s (commit_estimate n)
      (λ _. commit_estimate-IsWithin n)
perform-IsWithin (call_reserve_debug n partial r s) =
    twice-Keeps IsWithin check_at-IsWithin (ltb_ℤ n (pos 0)) r s (commit_debug n partial)
      (commit_debug-IsWithin n partial)
perform-IsWithin (call_release_debug n) = release-IsWithin n
perform-IsWithin (call_check_deadline r) = check_at-IsWithin r
perform-IsWithin (call_exhaust_duration now) = exhaust_duration-IsWithin now
perform-IsWithin (call_begin_wait r) = check_at-IsWithin r
perform-IsWithin (call_end_wait finished now) = end_wait-IsWithin finished now

-- From a budget within its limits, whatever the run's tasks call, in whatever order and with
-- whatever amounts, no counter of the budget ever passes its limit, and the space for browser artifacts is never overdrawn either way.
pub run-IsWithin : (b : RunBudget) (calls : List Call) → IsWithin b → IsWithin (run b calls)
unfolding run
run-IsWithin b [] w = w
run-IsWithin b (call ∷ calls) w = run-IsWithin (perform call b).1 calls (perform-IsWithin call b w)
