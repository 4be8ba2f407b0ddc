-- ===== src/Examples/Circuit.antt =====
-- The circuit breaker of src/scrapeyard/engine/resilience.py on small inputs.
use scrapeyard.Prelude.{◌≡◌, ◌≢◌, refl, true, none, some, List, [], ◌∷◌, arith, text_keys}
use scrapeyard.Prelude.Int.{pos, ◌-ℤ◌}
use scrapeyard.Prelude.Dict.{get, put, keep}
use scrapeyard.Circuit.{
  closed, opened, half_open, CircuitBreaker, make, prune_inactive_closed,
  make_room_for_closed_state, admitted, probing, refused, check, record_success, record_failure,
  abort_probe, Call, success_call, failure_call, abort_call, step, run,
}
use scrapeyard.Circuit.Invariant.{run-IsValid, make-IsValid}
use scrapeyard.Circuit.Table.{IsValid}
use scrapeyard.Circuit.Probe.{is_refused, the_probe, IsProbing, sole_probe}
use scrapeyard.Circuit.Trip.{fail_all, tally, failures_add_up}
use scrapeyard.Circuit.Outcome.{open_answer, probe_outcomes}

-- Two failures trip a circuit for thirty seconds; four domains are remembered.
abbrev small : CircuitBreaker
small = record {
  max_failures = 2;
  cooldown = 30;
  max_domains = 4;
  inactive_ttl = 3600;
  circuits = [];
}

make-small : make (pos 2) (pos 30) (pos 4) (pos 3600) ≡ some small
unfolding make
make-small = refl

make_refuses : make (pos 0) (pos 30) (pos 4) (pos 3600) ≡ none
unfolding make
make_refuses = refl

abbrev failures : List Call
failures =
    failure_call "a" none (pos 1)
    ∷ failure_call "b" none (pos 2)
    ∷ failure_call "a" none (pos 3)
    ∷ []

-- "a" is open since 3, and "b" has failed once.
abbrev tripped : CircuitBreaker
tripped = record small {
  circuits =
      (
        "a",
        record {
          state = opened;
          failures = 2;
          opened_at = pos 3;
          generation = 0;
          last_accessed_at = pos 3;
        },
      )
      ∷ (
        "b",
        record {
          state = closed;
          failures = 1;
          opened_at = pos 0;
          generation = 0;
          last_accessed_at = pos 2;
        },
      )
      ∷ [];
}

run_failures : run small failures ≡ tripped
unfolding run step record_failure prune_inactive_closed make_room_for_closed_state get put keep ◌-ℤ◌
run_failures = refl

check_early : (check tripped "a" (pos 23)).0 ≡ refused "a" (pos 10)
unfolding check prune_inactive_closed get keep ◌-ℤ◌
check_early = refl

check_cooled : (check tripped "a" (pos 33)).0 ≡ probing (the_probe "a" 1)
unfolding check prune_inactive_closed get keep ◌-ℤ◌
check_cooled = refl

run-IsValid_example : IsValid (run small failures)
run-IsValid_example =
    run-IsValid small failures (make-IsValid (pos 2) (pos 30) (pos 4) (pos 3600) small make-small)

abbrev strangers : List Call
strangers =
    success_call "a" none (pos 34)
    ∷ failure_call "b" none (pos 35)
    ∷ abort_call "a" (some (the_probe "a" 2)) (pos 36)
    ∷ []

other_generation : some (the_probe "a" 2) ≢ some (the_probe "a" 1)
other_generation e = ground arith

sole_probe_example :
    is_refused (check (run (check tripped "a" (pos 33)).1 strangers) "a" (pos 99)).0 ≡ true
unfolding get
sole_probe_example =
    sole_probe tripped "a" (pos 33) (the_probe "a" 1) strangers (pos 99) (refl, (refl, tt))
      check_cooled ((λ e. cc), ((λ e. cc), (other_generation, tt)))

failures_add_up_example :
    get "a" (fail_all small "a" (pos 1 ∷ pos 2 ∷ [])).circuits ≡ some (tally 2 2 (pos 2))
unfolding get ◌-ℤ◌
failures_add_up_example =
    failures_add_up "a" small (pos 1) (pos 2 ∷ []) tt refl (omega arith) (omega arith) (refl, tt)

abbrev waiting : CircuitBreaker
waiting = record small {
  circuits =
      (
        "a",
        record {
          state = half_open;
          failures = 2;
          opened_at = pos 3;
          generation = 1;
          last_accessed_at = pos 33;
        },
      )
      ∷ [];
}

waiting-IsProbing : IsProbing "a" 1 waiting
unfolding get
waiting-IsProbing = record {
  circuit = record {
    state = half_open;
    failures = 2;
    opened_at = pos 3;
    generation = 1;
    last_accessed_at = pos 33;
  };
  guarded = record { unique = (refl, tt); found = refl; tripped = refl };
  half = refl;
  current = refl;
}

probe_outcomes_example :
    ((check (record_success waiting "a" (some (the_probe "a" 1)) (pos 40)) "a" (pos 45)).0
      ≡ admitted)
    × ((check (record_failure waiting "a" (some (the_probe "a" 1)) (pos 40)) "a" (pos 45)).0
        ≡ open_answer 30 "a" 1 (pos 5))
    × ((check (abort_probe waiting "a" (some (the_probe "a" 1)) (pos 40)) "a" (pos 45)).0
        ≡ probing (the_probe "a" 2))
unfolding ◌-ℤ◌
probe_outcomes_example =
    probe_outcomes "a" 1 waiting (pos 40) (pos 45) waiting-IsProbing (omega arith)
