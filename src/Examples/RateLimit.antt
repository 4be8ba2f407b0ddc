-- ===== src/Examples/RateLimit.antt =====
-- Tests and examples for the rate limit of domains, src/scrapeyard/engine/rate_limiter.py.
use scrapeyard.Prelude.{
  ℕ, ◌+◌, ◌*◌, ◌/◌, ◌≡◌, refl, String, arith, none, some, List, [], ◌∷◌, ◌==◌, text_keys,
  if◌then◌else◌,
}
use scrapeyard.RateLimit.{IsRounded, acquired, try_acquire, granted, acquire, rate_key}
use scrapeyard.RateLimit.Spacing.{Spaced, granted-Spaced}
use scrapeyard.RateLimit.Waiting.{wait_is_enough}
use scrapeyard.Examples.Guard.{Entries, small_server, small_server-IsRedis}

-- The nearest multiple of 100.
abbrev nearest : ℕ → ℕ
nearest t = (t + 50) / 100 * 100

nearest-IsRounded : IsRounded nearest
nearest-IsRounded t = (omega arith, omega arith)

abbrev tries : List (String × ℕ)
tries = ("a", 1000049) ∷ ("b", 1200000) ∷ ("a", 1500000) ∷ ("a", 3000000) ∷ []

abbrev nothing : Entries
nothing k = none

granted-Spaced_example : Spaced (λ _. 2000) (granted small_server nearest (λ _. 2000) tries nothing)
granted-Spaced_example =
    granted-Spaced small_server small_server-IsRedis nearest nearest-IsRounded (λ _. 2000) 0 tries
      nothing (omega arith)

-- The second grant of `a` is 49 microseconds early.
two_are_granted :
    granted small_server nearest (λ _. 2000) tries nothing
    ≡ ("a", 1000049) ∷ ("b", 1200000) ∷ ("a", 3000000) ∷ []
unfolding granted
two_are_granted = refl

abbrev after_first : Entries
after_first k = if k == "scrapeyard:rate:a" then some (1000000, some 4000) else none

wait_is_enough_example :
    (try_acquire small_server nearest "a" 2000 3000100 after_first).0 ≡ acquired
unfolding try_acquire rate_key
wait_is_enough_example =
    wait_is_enough small_server small_server-IsRedis nearest nearest-IsRounded "a" 2000 1500000
      3000100 1500 after_first after_first refl refl (omega arith)

-- A job with an interval of a second, and three seconds later one with ten: the entry has expired.
longer_interval_is_granted :
    (try_acquire small_server nearest "a" 10000 4000000
      (try_acquire small_server nearest "a" 1000 1000000 nothing).1).0
    ≡ acquired
unfolding try_acquire
longer_interval_is_granted = refl

acquire_waits :
    (acquire small_server nearest "a" 2000 (0 ∷ 5 ∷ []) 1500000 after_first).0 ≡ some 3000005
unfolding acquire rate_key
acquire_waits = refl
