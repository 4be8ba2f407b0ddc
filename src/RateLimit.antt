-- ===== src/RateLimit.antt =====
-- The rate limit of domains over Redis, `RedisDomainRateLimiter` of
-- src/scrapeyard/engine/rate_limiter.py. The server is the one of the domain guard, a parameter. The
-- times that `TIME` returns are whole microseconds; the server expires keys by the whole milliseconds
-- of the same clock. Intervals and waits are whole milliseconds. The script stores `tostring(now)` and
-- reads it back with `tonumber`: what Lua makes of a time on this way is a parameter, `written`.
pub mod Spacing
pub mod Waiting
use scrapeyard.Prelude.{
  ℕ, zero, suc, ◌+◌, ◌-◌, ◌*◌, ◌/◌, ◌≤◌, min, max, String, Bool, true, false, ltb, leb, Option,
  none, some, List, [], ◌∷◌, if◌then◌else◌,
}
use Prim.Native.String.{◌++◌ as ◌++ᵗ◌}
use scrapeyard.Guard.Redis.{Server}

unfoldable pub rate_key : String → String
rate_key domain = "scrapeyard:rate:" ++ᵗ domain

-- `max(int(min_interval) + 1, 2)`, in seconds.
unfoldable pub ttl_of : ℕ → ℕ
ttl_of min_interval = max (min_interval / 1000 + 1) 2

-- Whether the caller may proceed, or the time that remains.
pub data Answer : Type 0 where
  acquired : Answer
  wait_more : ℕ → Answer

abbrev pub add_granted : String × ℕ → Answer → List (String × ℕ) → List (String × ℕ)
add_granted t acquired out = t ∷ out
add_granted t (wait_more _) out = out

-- Lua writes a number with 14 significant digits, so a time in seconds since 1970 with four decimals,
-- the nearest such.
abbrev pub IsRounded : (ℕ → ℕ) → Type 0
IsRounded written = (t : ℕ) → (written t ≤ t + 50) × (t ≤ written t + 50)

-- `math.ceil((min_interval - elapsed) * 1000)`.
unfoldable pub remaining_ms : ℕ → ℕ → ℕ
remaining_ms min_interval elapsed = (1000 * min_interval - elapsed + 999) / 1000

module _ (R : Server) (written : ℕ → ℕ) where
  abbrev pub set_last : String → ℕ → ℕ → R.State → R.State
  set_last key ttl now s = R.set_ex key (written now) ttl (now / 1000) s

  abbrev pub decide : String → ℕ → ℕ → ℕ → Option ℕ → R.State → Answer × R.State
  decide key min_interval ttl now none s = (acquired, set_last key ttl now s)
  decide key min_interval ttl now (some last) s =
      if ltb now last
      then (wait_more min_interval, set_last key ttl now s)
      else if leb (1000 * min_interval) (now - last)
      then (acquired, set_last key ttl now s)
      else (wait_more (remaining_ms min_interval (now - last)), s)

  -- The Lua script.
  unfoldable pub lua_acquire : String → ℕ → ℕ → ℕ → R.State → Answer × R.State
  unfolding remaining_ms
  lua_acquire key min_interval ttl now s =
      decide key min_interval ttl now (R.read key (now / 1000) s) s

  -- One turn of the loop of `acquire`, for an interval above 0.
  unfoldable pub try_acquire : String → ℕ → ℕ → R.State → Answer × R.State
  unfolding rate_key ttl_of lua_acquire
  try_acquire domain min_interval now s =
      lua_acquire (rate_key domain) min_interval (ttl_of min_interval) now s

  -- `min(min_interval, max(0.0, remaining_ms / 1000.0))`.
  abbrev pub next_wait : ℕ → ℕ → ℕ
  next_wait min_interval remaining = min min_interval remaining

  abbrev pub after_try :
      ℕ → ℕ → (ℕ → R.State → Option ℕ × R.State) → Answer × R.State → Option ℕ × R.State
  after_try now min_interval again (acquired, s) = (some now, s)
  after_try now min_interval again (wait_more remaining, s) =
      again (now + 1000 * next_wait min_interval remaining) s

  -- `acquire`: when it returns, with what else the sleep takes each time; nothing while it waits. An
  -- interval of 0 is no limit.
  unfoldable pub acquire_loop : String → ℕ → List ℕ → ℕ → R.State → Option ℕ × R.State
  unfolding try_acquire
  acquire_loop domain min_interval [] now s = (none, s)
  acquire_loop domain min_interval (late ∷ lates) now s =
      after_try (now + late) min_interval (acquire_loop domain min_interval lates)
        (try_acquire domain min_interval (now + late) s)

  unfoldable pub acquire : String → ℕ → List ℕ → ℕ → R.State → Option ℕ × R.State
  unfolding acquire_loop
  acquire domain zero lates now s = (some now, s)
  acquire domain (suc n) lates now s = acquire_loop domain (suc n) lates now s

  -- The tries of all workers, each for a domain at a time, and those that were granted.
  unfoldable pub granted : (String → ℕ) → List (String × ℕ) → R.State → List (String × ℕ)
  unfolding try_acquire
  granted interval [] s = []
  granted interval ((domain, now) ∷ tries) s =
      let (answer, s') = try_acquire domain (interval domain) now s in
      add_granted (domain, now) answer (granted interval tries s')
