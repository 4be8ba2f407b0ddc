-- ===== src/Resilience/Retry.antt =====
-- `RetryHandler` of src/scrapeyard/engine/resilience.py. The function that is tried, the checkpoints
-- and the sleep are parameters. Delays are whole seconds.
use scrapeyard.Prelude.{
  ℕ, zero, suc, ◌+◌, ◌^◌, min, Bool, ◌||◌, nat_eq, Option, none, some, List, [], ◌∷◌, if◌then◌else◌,
}

pub data BackoffStrategy : Type 0 where
  fixed linear exponential : BackoffStrategy

pub record RetryHandler : Type 0 where
  pub max_attempts : ℕ
  pub backoff : BackoffStrategy
  pub backoff_max : ℕ

abbrev pub raw_delay : BackoffStrategy → ℕ → ℕ
raw_delay fixed attempt = 1
raw_delay linear attempt = attempt + 1
raw_delay exponential attempt = 2 ^ attempt

unfoldable pub delay_of : RetryHandler → ℕ → ℕ
delay_of h attempt = min (raw_delay h.backoff attempt) h.backoff_max

-- How a call ends: a value; `RetryableError` with its status, `URLResolutionError` or a transport
-- error that passes; any other exception.
pub data Outcome (A E : Type 0) : Type 0 where
  returned : A → Outcome A E
  retryable : ℕ → E → Outcome A E
  unresolved : E → Outcome A E
  transient : E → Outcome A E
  other : E → Outcome A E

pub data Point : Type 0 where
  before_retry_attempt after_retry_attempt before_retry_backoff after_retry_backoff : Point

-- What each attempt meets: the call, the checkpoints, and the sleep, with what they raise.
pub record Surroundings (A E : Type 0) : Type 0 where
  pub call : ℕ → Outcome A E
  pub checkpoint : Point → ℕ → Option E
  pub sleep : ℕ → ℕ → Option E

pub data Ending (A E : Type 0) : Type 0 where
  value : A → Ending A E
  raised : E → Ending A E
  no_attempt : Ending A E

-- The end, how often the function was called, and the sleeps, in order.
pub record Run (A E : Type 0) : Type 0 where
  pub ending : Ending A E
  pub calls : ℕ
  pub slept : List ℕ

abbrev pub is_denial : ℕ → Bool
is_denial status = nat_eq status 401 || nat_eq status 403 || nat_eq status 407

module _ {A E : Type 0} where
  abbrev pub finish : Ending A E → Run A E
  finish ending = record { ending = ending; calls = 0; slept = [] }

  abbrev pub unless : Option E → Run A E → Run A E
  unless none r = r
  unless (some e) r = finish (raised e)

  abbrev pub after_call : Run A E → Run A E
  after_call r = record r { calls = suc r.calls }

  abbrev pub after_sleep : ℕ → Run A E → Run A E
  after_sleep delay r = record r { slept = delay ∷ r.slept }

  -- What is raised after the last attempt.
  abbrev pub end_of_attempts : Option E → Run A E
  end_of_attempts none = finish no_attempt
  end_of_attempts (some e) = finish (raised e)

  module _ (h : RetryHandler) (w : Surroundings A E) where
    -- The backoff before another attempt.
    abbrev pub back_off : ℕ → Run A E → Run A E
    back_off attempt rest = unless (w.checkpoint before_retry_backoff attempt) (
        after_sleep (delay_of h attempt) (
          unless (w.sleep attempt (delay_of h attempt))
            (unless (w.checkpoint after_retry_backoff attempt) rest)))

    -- After a failure that may pass: the last attempt does not sleep.
    abbrev pub try_again : ℕ → ℕ → E → Run A E → Run A E
    try_again zero attempt e rest = end_of_attempts (some e)
    try_again (suc left) attempt e rest = back_off attempt rest

    abbrev pub settle_call : ℕ → ℕ → Outcome A E → (E → Run A E) → Run A E
    settle_call left attempt (returned a) rest =
        unless (w.checkpoint after_retry_attempt attempt) (finish (value a))
    settle_call left attempt (retryable status e) rest =
        if is_denial status then finish (raised e) else try_again left attempt e (rest e)
    settle_call left attempt (unresolved e) rest = try_again left attempt e (rest e)
    settle_call left attempt (transient e) rest = try_again left attempt e (rest e)
    settle_call left attempt (other e) rest = finish (raised e)

    -- The attempts that are left, and the last error.
    unfoldable pub attempts : ℕ → ℕ → Option E → Run A E
    unfolding delay_of
    attempts zero attempt last = end_of_attempts last
    attempts (suc left) attempt last = unless (w.checkpoint before_retry_attempt attempt) (
        after_call
          (settle_call left attempt (w.call attempt) (λ e. attempts left (attempt + 1) (some e))))

    unfoldable pub execute : Run A E
    unfolding attempts
    execute = attempts h.max_attempts 0 none
