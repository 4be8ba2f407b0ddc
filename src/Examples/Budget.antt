-- ===== src/Examples/Budget.antt =====
-- The budget of src/scrapeyard/common/budgets.py on small inputs.
use scrapeyard.Prelude.{◌≡◌, refl, false, none, some, List, [], ◌∷◌, arith}
use scrapeyard.Prelude.Int.{pos, negsuc, ◌+ℤ◌, ◌-ℤ◌}
use scrapeyard.Budget.{
  requests, run_duration_seconds, BudgetExceeded, RunBudget, over, value_error, new_budget,
  elapsed_seconds, check_deadline, commit_requests, reserve_requests, settle_requests, Call,
  call_reserve_requests, call_settle_requests, perform, run,
}
use scrapeyard.Budget.Limits.{IsWithin, run-IsWithin}
use scrapeyard.Budget.Exhaustion.{Frozen, exhausted_refuses, exhaustion_is_final, is_done}
use scrapeyard.Budget.Account.{total_charge, requests_balance}

-- Ten ticks, five requests, a hundred bytes and fifty artifact bytes.
abbrev small : RunBudget
small = record {
  max_duration = 10;
  max_requests = pos 5;
  max_fetched_bytes = pos 100;
  max_extracted_records = pos 20;
  max_serialized_result_bytes = pos 1000;
  max_browser_debug_bytes = pos 50;
  started = 0;
  deadline = 10;
  used_requests = pos 0;
  used_fetched_bytes = pos 0;
  used_extracted_records = pos 0;
  used_browser_debug_bytes = pos 0;
  estimated_result_bytes = pos 0;
  exhausted = none;
}

new_budget-small : new_budget 10 (pos 5) (pos 100) (pos 20) (pos 1000) (pos 50) 0 ≡ small
unfolding new_budget
new_budget-small = refl

small-IsWithin : IsWithin small
small-IsWithin = record {
  requests = omega arith;
  fetched = omega arith;
  records = omega arith;
  estimated = omega arith;
  debug = omega arith;
  debug_nonneg = omega arith;
}

abbrev calls : List Call
calls =
    call_reserve_requests (pos 3) (1, 1)
    ∷ call_settle_requests (pos 3) (pos 1)
    ∷ call_reserve_requests (pos 5) (2, 2)
    ∷ call_reserve_requests (pos 1) (3, 3)
    ∷ []

-- One request was issued; five more would be six.
abbrev five_of_five : BudgetExceeded
five_of_five = record { limit_name = requests; configured_limit = pos 5; observed_amount = pos 6 }

run-calls : run small calls ≡ record small { used_requests = pos 1; exhausted = some five_of_five }
unfolding run perform reserve_requests settle_requests check_deadline commit_requests new_budget
    ◌+ℤ◌ ◌-ℤ◌
run-calls = refl

no_negative_amounts : (reserve_requests (negsuc 0) (1, 1) small).0 ≡ value_error
unfolding reserve_requests
no_negative_amounts = refl

too_late :
    (reserve_requests (pos 1) (10, 11) small).0
    ≡ over (record {
      limit_name = run_duration_seconds;
      configured_limit = pos 10;
      observed_amount = pos 11;
    })
unfolding reserve_requests check_deadline commit_requests elapsed_seconds
too_late = refl

run-IsWithin_example : IsWithin (run small calls)
run-IsWithin_example = run-IsWithin small calls small-IsWithin

abbrev spent : RunBudget
spent = record small {
  used_requests = pos 4;
  used_browser_debug_bytes = pos 7;
  exhausted = some five_of_five;
}

exhausted_refuses_example :
    (is_done (perform (call_reserve_requests (pos 1) (3, 3)) spent).0 ≡ false)
    × ((perform (call_reserve_requests (pos 1) (3, 3)) spent).1 ≡ spent)
exhausted_refuses_example =
    exhausted_refuses spent five_of_five (call_reserve_requests (pos 1) (3, 3)) refl refl

exhaustion_is_final_example : Frozen spent (run spent calls)
exhaustion_is_final_example = exhaustion_is_final spent five_of_five calls refl (omega arith)

requests_balance_example :
    (run small calls).used_requests ≡ small.used_requests +ℤ total_charge small calls
requests_balance_example = requests_balance small calls
