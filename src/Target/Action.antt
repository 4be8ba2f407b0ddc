-- ===== src/Target/Action.antt =====
-- What a target's task is run in: awaits that may raise, and the task's own state, for
-- src/scrapeyard/queue/validation_policy.py and src/scrapeyard/queue/worker.py.
use scrapeyard.Prelude.{ℕ, String, Bool, Option, none, some, if◌then◌else◌}
use scrapeyard.Prelude.Dict.{Dict}
use scrapeyard.Resilience.Validator.{Value, Check}
use scrapeyard.Target.{ErrorType, TargetResult}
use scrapeyard.Target.Recorder.{Work}

-- The exceptions that the worker tells apart. Of any other it uses what `classify_fetch_exception`
-- and `_exception_detail` say of it.
pub data Raised : Type 0 where
  cancelled ownership_lost budget_exhausted : Raised
  failure : ErrorType → Option ℕ → Option (Dict String Value) → String → Raised

pub data Attempt (A : Type 0) : Type 0 where
  done : A → Attempt A
  raised : Raised → Attempt A

abbrev pub Action : Type 0 → Type 0
Action A = Work → Attempt A × Work

abbrev pub pure : {A : Type 0} → A → Action A
pure a w = (done a, w)

abbrev pub raise : {A : Type 0} → Raised → Action A
raise e w = (raised e, w)

abbrev pub bound : {A B : Type 0} → (A → Action B) → Attempt A → Action B
bound f (done a) w = f a w
bound f (raised e) w = (raised e, w)

infixl 5 ◌>>=◌ ◌>>◌
abbrev pub ◌>>=◌ : {A B : Type 0} → Action A → (A → Action B) → Action B
◌>>=◌ m f w = let (r, w') = m w in bound f r w'

abbrev pub ◌>>◌ : {B : Type 0} → Action (Unit {0}) → Action B → Action B
m >> k = m >>= λ _. k

-- `try: … except`: the handler of what was raised.
abbrev pub handled : {A : Type 0} → (Raised → Action A) → Attempt A → Action A
handled h (done a) w = (done a, w)
handled h (raised e) w = h e w

abbrev pub catch : {A : Type 0} → Action A → (Raised → Action A) → Action A
catch m h w = let (r, w') = m w in handled h r w'

abbrev pub modify : (Work → Work) → Action (Unit {0})
modify f w = (done tt, f w)

abbrev pub or_raise : {A : Type 0} → Option Raised → Action A → Action A
or_raise none m = m
or_raise (some e) m = raise e

abbrev pub attempted : {A : Type 0} → Attempt A → Action A
attempted r w = (r, w)

pub data Point : Type 0 where
  during_target_execution browser_slot after_target_fetch : Point
  before_validation_retry after_validation_retry : Point

-- What the awaits of a target meet: the fetch and the fetch of the retry, whether the first saw a
-- response, what the checkpoints and the wait for a browser raise, and the deadline in the first and
-- the second validation.
pub record Surroundings : Type 0 where
  pub scrape : Attempt TargetResult
  pub scrape_again : Attempt TargetResult
  pub is_observed : Bool
  pub point : Point → Option Raised
  pub late : Check → Option Raised
  pub late_again : Check → Option Raised

abbrev pub checkpoint : Surroundings → Point → Action (Unit {0})
checkpoint s p = or_raise (s.point p) (pure tt)

abbrev pub when : Bool → Action (Unit {0}) → Action (Unit {0})
when b m = if b then m else pure tt
