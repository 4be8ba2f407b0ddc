-- ===== src/Guard.antt =====
-- The domain guard, src/scrapeyard/engine/domain_guard.py: daily page budgets and cooldowns of hosts.
-- Times are whole milliseconds. A call of a guard is one step; it is given its reading of the clock
-- and the UTC day.
pub mod Local
pub mod Redis
pub mod Keys
pub mod Entries
pub mod Agreement
pub mod Policy
pub mod Keeping
pub mod Limit
pub mod Cooldown
use scrapeyard.Prelude.{
  ℕ, zero, suc, ◌+◌, ◌-◌, ◌*◌, min, String, Bool, true, false, ◌&&◌, ltb, leb, Option, none, some,
  List, [], ◌∷◌, HasEq, ◌==◌, text_keys, pair_keys, if◌then◌else◌,
}
use scrapeyard.Prelude.Dict.{Dict, get, put, remove}

pub record DomainGuardStatus : Type 0 where
  pub host : String
  pub day : String
  pub pages_today : ℕ
  pub cooldown_remaining : ℕ

-- The protocol `DomainGuard`. `consume_page` answers with the new count, and with nothing where it
-- raises `DomainDailyLimitReached`.
pub record DomainGuard : Type 1 where
  pub State : Type 0
  pub consume_page : String → ℕ → String → ℕ → State → Option ℕ × State
  pub cooldown_remaining : String → ℕ → State → ℕ × State
  pub start_cooldown : String → ℕ → ℕ → State → State
  pub status : String → String → ℕ → State → DomainGuardStatus × State
  pub clear : String → String → ℕ → State → State

abbrev pub or_zero : Option ℕ → ℕ
or_zero none = 0
or_zero (some n) = n

abbrev pub is_used_up : ℕ → ℕ → Bool
is_used_up limit count = ltb 0 limit && leb limit count

-- The calls of a guard, and what it answers.
pub data GuardCall : Type 0 where
  consume : String → ℕ → GuardCall
  remaining : String → GuardCall
  start : String → ℕ → GuardCall
  look : String → GuardCall
  wipe : String → GuardCall

pub data GuardAnswer : Type 0 where
  counted : Option ℕ → GuardAnswer
  left : ℕ → GuardAnswer
  seen : DomainGuardStatus → GuardAnswer
  done : GuardAnswer

module _ (G : DomainGuard) where
  unfoldable pub step : String → ℕ → GuardCall → G.State → GuardAnswer × G.State
  step day now (consume host limit) s =
      let (n, s') = G.consume_page host limit day now s in (counted n, s')
  step day now (remaining host) s = let (n, s') = G.cooldown_remaining host now s in (left n, s')
  step day now (start host seconds) s = (done, G.start_cooldown host seconds now s)
  step day now (look host) s = let (x, s') = G.status host day now s in (seen x, s')
  step day now (wipe host) s = (done, G.clear host day now s)

  -- Calls with the times at which they are made.
  unfoldable pub answers : String → List (ℕ × GuardCall) → G.State → List GuardAnswer
  unfolding step
  answers day [] s = []
  answers day ((now, c) ∷ cs) s = let (a, s') = step day now c s in a ∷ answers day cs s'

-- `effective_daily_page_limit`.
unfoldable pub effective_daily_page_limit : ℕ → Option ℕ → ℕ
effective_daily_page_limit service_limit none = service_limit
effective_daily_page_limit service_limit (some job_limit) =
    if leb service_limit 0 then job_limit else min service_limit job_limit
