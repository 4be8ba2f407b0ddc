-- ===== src/Budget.antt =====
-- The budget of one run, src/scrapeyard/common/budgets.py: `RunBudget` without its traffic report.
-- A method is given its readings of the clock, in the order in which it makes them, and returns its
-- result beside the new state, since what was written before a raise stays written. No lock of
-- `RunBudget` is held across an await, so a method is atomic, except for `wait_for`, which is the
-- step that begins the wait and the step that ends it. Times and byte counts are whole numbers.
pub mod Rules
pub mod Limits
pub mod Exhaustion
pub mod Account
use scrapeyard.Prelude.{
  ℕ, ◌+◌, ◌-◌, Bool, true, false, ◌&&◌, not, Option, none, some, List, [], ◌∷◌, leb, ltb,
  if◌then◌else◌,
}
use scrapeyard.Prelude.Int.{ℤ, pos, ◌+ℤ◌, ◌-ℤ◌, leb_ℤ, ltb_ℤ}

pub data LimitName : Type 0 where
  run_duration_seconds requests fetched_bytes extracted_records : LimitName
  serialized_result_bytes browser_debug_bytes : LimitName

pub record BudgetExceeded : Type 0 where
  pub limit_name : LimitName
  pub configured_limit : ℤ
  pub observed_amount : ℤ

pub record RunBudget : Type 0 where
  pub max_duration : ℕ
  pub max_requests : ℤ
  pub max_fetched_bytes : ℤ
  pub max_extracted_records : ℤ
  pub max_serialized_result_bytes : ℤ
  pub max_browser_debug_bytes : ℤ
  pub started : ℕ
  pub deadline : ℕ
  pub used_requests : ℤ
  pub used_fetched_bytes : ℤ
  pub used_extracted_records : ℤ
  pub used_browser_debug_bytes : ℤ
  pub estimated_result_bytes : ℤ
  pub exhausted : Option BudgetExceeded

-- A method returns, raises `BudgetExceeded` or raises `ValueError`.
pub data Outcome (A : Type 0) : Type 0 where
  done : A → Outcome A
  over : BudgetExceeded → Outcome A
  value_error : Outcome A

abbrev pub Method : Type 0 → Type 0
Method A = RunBudget → Outcome A × RunBudget

abbrev pub proceed : {A B : Type 0} → (A → Method B) → Outcome A → Method B
proceed f (done a) b = f a b
proceed f (over e) b = (over e, b)
proceed f value_error b = (value_error, b)

infixl 5 ◌>>=◌ ◌>>◌
abbrev pub ◌>>=◌ : {A B : Type 0} → Method A → (A → Method B) → Method B
◌>>=◌ m f b = let (r, b') = m b in proceed f r b'

abbrev pub ◌>>◌ : {B : Type 0} → Method (Unit {0}) → Method B → Method B
m >> k = m >>= λ _. k

abbrev pub refuse : {A : Type 0} → Method A
refuse b = (value_error, b)

-- Python sets `_exhausted` and raises it.
abbrev pub exhaust : {A : Type 0} → LimitName → ℤ → ℤ → Method A
exhaust name limit observed b =
    let e : BudgetExceeded = record {
      limit_name = name;
      configured_limit = limit;
      observed_amount = observed;
    } in
    (over e, record b { exhausted = some e })

unfoldable pub new_budget : ℕ → ℤ → ℤ → ℤ → ℤ → ℤ → ℕ → RunBudget
new_budget duration request_limit fetched records serialized debug now = record {
  max_duration = duration;
  max_requests = request_limit;
  max_fetched_bytes = fetched;
  max_extracted_records = records;
  max_serialized_result_bytes = serialized;
  max_browser_debug_bytes = debug;
  started = now;
  deadline = now + duration;
  used_requests = pos 0;
  used_fetched_bytes = pos 0;
  used_extracted_records = pos 0;
  used_browser_debug_bytes = pos 0;
  estimated_result_bytes = pos 0;
  exhausted = none;
}

-- `max(0.0, now - started)` and `max(0.0, deadline - now)`: `-` stops at 0.
unfoldable pub elapsed_seconds : RunBudget → ℕ → ℕ
elapsed_seconds b now = now - b.started

unfoldable pub remaining_seconds : RunBudget → ℕ → ℕ
remaining_seconds b now = b.deadline - now

abbrev pub duration_error : {A : Type 0} → ℕ → Method A
duration_error now b =
    exhaust run_duration_seconds (pos b.max_duration) (pos (elapsed_seconds b now)) b

-- `raise self._exhausted`, unless it is `None`.
abbrev pub unless_exhausted : {A : Type 0} → Option BudgetExceeded → Method A → Method A
unless_exhausted none m b = m b
unless_exhausted (some e) m b = (over e, b)

-- The test reads the clock at `now`; the error's own reading is `then_`.
unfoldable pub check_deadline : ℕ → ℕ → Method (Unit {0})
unfolding elapsed_seconds
check_deadline now then_ b =
    unless_exhausted b.exhausted
      (λ b. if leb b.deadline now then duration_error then_ b else (done tt, b)) b

unfoldable pub exhaust_duration : ℕ → Method (Unit {0})
unfolding elapsed_seconds
exhaust_duration now b = unless_exhausted b.exhausted (duration_error now) b

-- The two readings of a check of the deadline.
abbrev pub Readings : Type 0
Readings = ℕ × ℕ

abbrev pub check_at : Readings → Method (Unit {0})
check_at (now, then_) = check_deadline now then_

unfoldable pub commit_requests : ℤ → Method (Unit {0})
commit_requests amount b =
    let observed = b.used_requests +ℤ amount in
    if ltb_ℤ b.max_requests observed
    then exhaust requests b.max_requests observed b
    else (done tt, record b { used_requests = observed })

unfoldable pub reserve_requests : ℤ → Readings → Method (Unit {0})
unfolding commit_requests
reserve_requests amount r =
    if ltb_ℤ amount (pos 1) then refuse else check_at r >> commit_requests amount

unfoldable pub settle_requests : ℤ → ℤ → Method (Unit {0})
settle_requests reserved issued b =
    if not (leb_ℤ (pos 0) issued && leb_ℤ issued reserved)
    then (value_error, b)
    else (done tt, record b { used_requests = b.used_requests -ℤ (reserved -ℤ issued) })

unfoldable pub fit_fetched : ℤ → Method (Unit {0})
fit_fetched amount b =
    let observed = b.used_fetched_bytes +ℤ amount in
    if ltb_ℤ b.max_fetched_bytes observed
    then exhaust fetched_bytes b.max_fetched_bytes observed b
    else (done tt, b)

unfoldable pub check_fetched_capacity : ℤ → Readings → Method (Unit {0})
unfolding fit_fetched
check_fetched_capacity amount r =
    if ltb_ℤ amount (pos 0) then refuse else check_at r >> fit_fetched amount

unfoldable pub commit_fetched : ℤ → Method (Unit {0})
commit_fetched amount b =
    let observed = b.used_fetched_bytes +ℤ amount in
    if ltb_ℤ b.max_fetched_bytes observed
    then exhaust fetched_bytes b.max_fetched_bytes observed b
    else (done tt, record b { used_fetched_bytes = observed })

-- The deadline is checked before the lock is taken and again under it.
unfoldable pub consume_fetched_bytes : ℤ → Readings → Readings → Method (Unit {0})
unfolding commit_fetched
consume_fetched_bytes amount r s =
    if ltb_ℤ amount (pos 0) then refuse else check_at r >> (check_at s >> commit_fetched amount)

unfoldable pub commit_records : ℤ → Method (Unit {0})
commit_records amount b =
    let observed = b.used_extracted_records +ℤ amount in
    if ltb_ℤ b.max_extracted_records observed
    then exhaust extracted_records b.max_extracted_records observed b
    else (done tt, record b { used_extracted_records = observed })

unfoldable pub reserve_extracted_records : ℤ → Readings → Readings → Method (Unit {0})
unfolding commit_records
reserve_extracted_records amount r s =
    if ltb_ℤ amount (pos 0) then refuse else check_at r >> (check_at s >> commit_records amount)

unfoldable pub fit_serialized : ℤ → Method (Unit {0})
fit_serialized amount b =
    if ltb_ℤ b.max_serialized_result_bytes amount
    then exhaust serialized_result_bytes b.max_serialized_result_bytes amount b
    else (done tt, b)

unfoldable pub enforce_serialized_result_bytes : ℤ → Readings → Method (Unit {0})
unfolding fit_serialized
enforce_serialized_result_bytes amount r = check_at r >> fit_serialized amount

unfoldable pub commit_estimate : ℤ → Method (Unit {0})
commit_estimate amount b =
    let observed = b.estimated_result_bytes +ℤ amount in
    if ltb_ℤ b.max_serialized_result_bytes observed
    then exhaust serialized_result_bytes b.max_serialized_result_bytes observed b
    else (done tt, record b { estimated_result_bytes = observed })

unfoldable pub reserve_estimated_result_bytes : ℤ → Readings → Readings → Method (Unit {0})
unfolding commit_estimate
reserve_estimated_result_bytes amount r s =
    if ltb_ℤ amount (pos 0) then refuse else check_at r >> (check_at s >> commit_estimate amount)

-- `min(requested, remaining)`, or all or nothing.
abbrev pub debug_grant : Bool → ℤ → ℤ → ℤ
debug_grant allow_partial requested remaining =
    if leb_ℤ requested remaining then requested else if allow_partial then remaining else pos 0

unfoldable pub commit_debug : ℤ → Bool → Method ℤ
commit_debug requested allow_partial b =
    let granted =
      debug_grant allow_partial requested
        (b.max_browser_debug_bytes -ℤ b.used_browser_debug_bytes) in
    (done granted, record b { used_browser_debug_bytes = b.used_browser_debug_bytes +ℤ granted })

unfoldable pub reserve_browser_debug_bytes : ℤ → Bool → Readings → Readings → Method ℤ
unfolding commit_debug
reserve_browser_debug_bytes requested allow_partial r s =
    if ltb_ℤ requested (pos 0)
    then refuse
    else check_at r >> (check_at s >> commit_debug requested allow_partial)

unfoldable pub release_browser_debug_bytes : ℤ → Method (Unit {0})
release_browser_debug_bytes amount b =
    if ltb_ℤ amount (pos 0)
    then (value_error, b)
    else let left = b.used_browser_debug_bytes -ℤ amount in
      (done tt, record b { used_browser_debug_bytes = if leb_ℤ left (pos 0) then pos 0 else left })

-- `wait_for` and `wait_for_owned`: the check before the wait, and what the expired wait does.
unfoldable pub begin_wait : Readings → Method (Unit {0})
begin_wait r = check_at r

unfoldable pub end_wait : Bool → ℕ → Method (Unit {0})
unfolding elapsed_seconds
end_wait finished now b = if finished then (done tt, b) else duration_error now b

-- A method called by any of the run's tasks.
pub data Call : Type 0 where
  call_reserve_requests : ℤ → Readings → Call
  call_settle_requests : ℤ → ℤ → Call
  call_check_fetched : ℤ → Readings → Call
  call_consume_fetched : ℤ → Readings → Readings → Call
  call_reserve_records : ℤ → Readings → Readings → Call
  call_enforce_serialized : ℤ → Readings → Call
  call_reserve_estimated : ℤ → Readings → Readings → Call
  call_reserve_debug : ℤ → Bool → Readings → Readings → Call
  call_release_debug : ℤ → Call
  call_check_deadline : Readings → Call
  call_exhaust_duration : ℕ → Call
  call_begin_wait : Readings → Call
  call_end_wait : Bool → ℕ → Call

abbrev pub forget : {A : Type 0} → Outcome A → Outcome (Unit {0})
forget (done a) = done tt
forget (over e) = over e
forget value_error = value_error

unfoldable pub perform : Call → Method (Unit {0})
perform (call_reserve_requests n r) = reserve_requests n r
perform (call_settle_requests n k) = settle_requests n k
perform (call_check_fetched n r) = check_fetched_capacity n r
perform (call_consume_fetched n r s) = consume_fetched_bytes n r s
perform (call_reserve_records n r s) = reserve_extracted_records n r s
perform (call_enforce_serialized n r) = enforce_serialized_result_bytes n r
perform (call_reserve_estimated n r s) = reserve_estimated_result_bytes n r s
perform (call_reserve_debug n p r s) =
    λ b. let (granted, b') = reserve_browser_debug_bytes n p r s b in (forget granted, b')
perform (call_release_debug n) = release_browser_debug_bytes n
perform (call_check_deadline r) = check_at r
perform (call_exhaust_duration now) = exhaust_duration now
perform (call_begin_wait r) = begin_wait r
perform (call_end_wait finished now) = end_wait finished now

unfoldable pub run : RunBudget → List Call → RunBudget
run b [] = b
run b (call ∷ calls) = run (perform call b).1 calls
