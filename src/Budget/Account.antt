-- ===== src/Budget/Account.antt =====
-- The request counter of src/scrapeyard/common/budgets.py's `RunBudget` as an account.
use scrapeyard.Prelude.{
  ℕ, ◌≡◌, refl, ◌∙◌, ap, not, ◌&&◌, Bool, List, [], ◌∷◌, arith, inl, inr, Bool-cases,
}
use scrapeyard.Prelude.Int.{ℤ, pos, ◌+ℤ◌, ◌-ℤ◌, leb_ℤ, ltb_ℤ, int_laws}
use scrapeyard.Budget.Rules.{Keeps, then-Keeps, once-Keeps, twice-Keeps}
use scrapeyard.Budget.{
  RunBudget, Outcome, done, check_deadline, check_at, exhaust_duration, Readings, commit_requests,
  reserve_requests, settle_requests, fit_fetched, check_fetched_capacity, commit_fetched,
  consume_fetched_bytes, commit_records, reserve_extracted_records, fit_serialized,
  enforce_serialized_result_bytes, commit_estimate, reserve_estimated_result_bytes, commit_debug,
  reserve_browser_debug_bytes, release_browser_debug_bytes, begin_wait, end_wait, Call,
  call_reserve_requests, call_settle_requests, call_check_fetched, call_consume_fetched,
  call_reserve_records, call_enforce_serialized, call_reserve_estimated, call_reserve_debug,
  call_release_debug, call_check_deadline, call_exhaust_duration, call_begin_wait, call_end_wait,
  perform, run,
}

-- What a call adds to the requests, by its answer.
abbrev pub charge : Call → Outcome (Unit {0}) → ℤ
charge (call_reserve_requests n r) (done _) = n
charge (call_settle_requests n k) (done _) = k -ℤ n
charge _ _ = pos 0

abbrev pub total_charge : RunBudget → List Call → ℤ
total_charge b [] = pos 0
total_charge b (call ∷ calls) =
    charge call (perform call b).0 +ℤ total_charge (perform call b).1 calls

module _ (x : ℤ) where
  abbrev Has : RunBudget → Type 0
  Has b = b.used_requests ≡ x

  check-Has : (r : Readings) → Keeps Has (check_at r)
  unfolding check_deadline
  check-Has (now, then_) b h = ground arith

  commit_fetched-Has : (n : ℤ) → Keeps Has (commit_fetched n)
  unfolding commit_fetched
  commit_fetched-Has n b h = ground arith

  fit_fetched-Has : (n : ℤ) → Keeps Has (fit_fetched n)
  unfolding fit_fetched
  fit_fetched-Has n b h = ground arith

  commit_records-Has : (n : ℤ) → Keeps Has (commit_records n)
  unfolding commit_records
  commit_records-Has n b h = ground arith

  fit_serialized-Has : (n : ℤ) → Keeps Has (fit_serialized n)
  unfolding fit_serialized
  fit_serialized-Has n b h = ground arith

  commit_estimate-Has : (n : ℤ) → Keeps Has (commit_estimate n)
  unfolding commit_estimate
  commit_estimate-Has n b h = ground arith

  commit_debug-Has : (n : ℤ) (partial : Bool) → Keeps Has (commit_debug n partial)
  unfolding commit_debug
  commit_debug-Has n partial b h = h

  release-Has : (n : ℤ) → Keeps Has (release_browser_debug_bytes n)
  unfolding release_browser_debug_bytes
  release-Has n b h = ground arith

  exhaust_duration-Has : (now : ℕ) → Keeps Has (exhaust_duration now)
  unfolding exhaust_duration
  exhaust_duration-Has now b h = ground arith

  end_wait-Has : (finished : Bool) (now : ℕ) → Keeps Has (end_wait finished now)
  unfolding end_wait
  end_wait-Has finished now b h = ground arith

+ℤ-zero : (x : ℤ) → x ≡ x +ℤ pos 0
+ℤ-zero x = omega int_laws

commit_requests_lem :
    (n : ℤ) (b : RunBudget) (r : Readings)
    → (commit_requests n b).1.used_requests
      ≡ b.used_requests +ℤ charge (call_reserve_requests n r) (commit_requests n b).0
unfolding commit_requests
commit_requests_lem n b r = ground (arith, +ℤ-zero b.used_requests)

reserve_requests_lem :
    (n : ℤ) (b : RunBudget) (r : Readings)
    → (reserve_requests n r b).1.used_requests
      ≡ b.used_requests +ℤ charge (call_reserve_requests n r) (reserve_requests n r b).0
unfolding reserve_requests check_deadline
reserve_requests_lem n b (now, then_) =
    ground (arith, commit_requests_lem n b (now, then_), +ℤ-zero b.used_requests)

settle_requests_lem :
    (n k : ℤ) (b : RunBudget)
    → (settle_requests n k b).1.used_requests
      ≡ b.used_requests +ℤ charge (call_settle_requests n k) (settle_requests n k b).0
unfolding settle_requests
settle_requests_lem n k b = elim (Bool-cases (not (leb_ℤ (pos 0) k && leb_ℤ k n))) [
  | inl bad ↦ rw bad (+ℤ-zero b.used_requests)
  | inr fine ↦ rw fine (omega int_laws)
]

perform-charge :
    (call : Call) (b : RunBudget)
    → (perform call b).1.used_requests ≡ b.used_requests +ℤ charge call (perform call b).0
unfolding perform check_fetched_capacity consume_fetched_bytes reserve_extracted_records
    enforce_serialized_result_bytes reserve_estimated_result_bytes reserve_browser_debug_bytes
    begin_wait
perform-charge (call_reserve_requests n r) b = reserve_requests_lem n b r
perform-charge (call_settle_requests n k) b = settle_requests_lem n k b
perform-charge (call_check_fetched n r) b =
    let x = b.used_requests in
    once-Keeps (Has x) (check-Has x) (ltb_ℤ n (pos 0)) r (fit_fetched n) (λ _. fit_fetched-Has x n)
      b refl
    ∙ +ℤ-zero x
perform-charge (call_consume_fetched n r s) b =
    let x = b.used_requests in
    twice-Keeps (Has x) (check-Has x) (ltb_ℤ n (pos 0)) r s (commit_fetched n)
      (λ _. commit_fetched-Has x n) b refl
    ∙ +ℤ-zero x
perform-charge (call_reserve_records n r s) b =
    let x = b.used_requests in
    twice-Keeps (Has x) (check-Has x) (ltb_ℤ n (pos 0)) r s (commit_records n)
      (λ _. commit_records-Has x n) b refl
    ∙ +ℤ-zero x
perform-charge (call_enforce_serialized n r) b =
    let x = b.used_requests in
    then-Keeps (Has x) (check_at r) (fit_serialized n) (check-Has x r) (fit_serialized-Has x n) b
      refl
    ∙ +ℤ-zero x
perform-charge (call_reserve_estimated n r s) b =
    let x = b.used_requests in
    twice-Keeps (Has x) (check-Has x) (ltb_ℤ n (pos 0)) r s (commit_estimate n)
      (λ _. commit_estimate-Has x n) b refl
    ∙ +ℤ-zero x
perform-charge (call_reserve_debug n partial r s) b =
    let x = b.used_requests in
    twice-Keeps (Has x) (check-Has x) (ltb_ℤ n (pos 0)) r s (commit_debug n partial)
      (λ _. commit_debug-Has x n partial) b refl
    ∙ +ℤ-zero x
perform-charge (call_release_debug n) b =
    release-Has b.used_requests n b refl ∙ +ℤ-zero b.used_requests
perform-charge (call_check_deadline r) b =
    check-Has b.used_requests r b refl ∙ +ℤ-zero b.used_requests
perform-charge (call_exhaust_duration now) b =
    exhaust_duration-Has b.used_requests now b refl ∙ +ℤ-zero b.used_requests
perform-charge (call_begin_wait r) b = check-Has b.used_requests r b refl ∙ +ℤ-zero b.used_requests
perform-charge (call_end_wait finished now) b =
    end_wait-Has b.used_requests finished now b refl ∙ +ℤ-zero b.used_requests

+ℤ_regroup : (x c t : ℤ) → x +ℤ c +ℤ t ≡ x +ℤ (c +ℤ t)
+ℤ_regroup x c t = omega int_laws

-- After any calls the request counter is its old value plus what the granted reservations asked
-- for, less what the accepted settlements gave back; a refused call changes nothing.
pub requests_balance :
    (b : RunBudget) (calls : List Call)
    → (run b calls).used_requests ≡ b.used_requests +ℤ total_charge b calls
unfolding run
requests_balance b [] = +ℤ-zero b.used_requests
requests_balance b (call ∷ calls) =
    requests_balance (perform call b).1 calls
    ∙ ap (λ x. x +ℤ total_charge (perform call b).1 calls) (perform-charge call b)
    ∙ +ℤ_regroup b.used_requests (charge call (perform call b).0)
        (total_charge (perform call b).1 calls)
