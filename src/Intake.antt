-- ===== src/Intake.antt =====
-- The weighted admission of runs: src/scrapeyard/queue/priority.py, and `_admit_one` of
-- src/scrapeyard/queue/pool.py with its script. A queue of Redis is a list in the order of its sorted
-- set, by score and then by name; scores and times are whole milliseconds.
pub mod Scan
pub mod Turns
use scrapeyard.Prelude.{
  ℕ, zero, suc, ◌+◌, ◌%◌, String, Bool, true, false, ◌&&◌, ◌||◌, not, ltb, leb, text_ltb, Option,
  none, some, List, [], ◌∷◌, ◌++◌, length, get_elem?, insert_by, if◌then◌else◌,
}

pub data Priority : Type 0 where
  high normal low : Priority

abbrev pub priorities : List Priority
priorities = high ∷ normal ∷ low ∷ []

abbrev pub fair_admission_cycle : List Priority
fair_admission_cycle = high ∷ high ∷ high ∷ high ∷ normal ∷ normal ∷ low ∷ []

abbrev pub same_priority : Priority → Priority → Bool
same_priority high high = true
same_priority normal normal = true
same_priority low low = true
same_priority _ _ = false

-- Nothing for an `IndexError`.
unfoldable pub preferred : ℕ → Option Priority
preferred cursor = get_elem? fair_admission_cycle cursor

unfoldable pub others : Priority → List Priority → List Priority
others p [] = []
others p (q ∷ qs) = let rest = others p qs in if same_priority q p then rest else q ∷ rest

unfoldable pub selection_order : Priority → List Priority
unfolding others
selection_order p = p ∷ others p priorities

unfoldable pub next_cursor : ℕ → ℕ
next_cursor cursor = (cursor + 1) % length fair_admission_cycle

pub record Delivery : Type 0 where
  pub job : String
  pub score : ℕ

-- The three intake queues, the execution queue and the cursor of the policy.
pub record Intake : Type 0 where
  pub high_queue : List Delivery
  pub normal_queue : List Delivery
  pub low_queue : List Delivery
  pub execution : List Delivery
  pub cursor : ℕ

abbrev pub queue_of : Priority → Intake → List Delivery
queue_of high s = s.high_queue
queue_of normal s = s.normal_queue
queue_of low s = s.low_queue

abbrev pub set_queue : Priority → List Delivery → Intake → Intake
set_queue high q s = record s { high_queue = q }
set_queue normal q s = record s { normal_queue = q }
set_queue low q s = record s { low_queue = q }

abbrev pub is_ahead : Delivery → Delivery → Bool
is_ahead a b = ltb a.score b.score || not (ltb b.score a.score) && text_ltb a.job b.job

-- `ZADD`.
unfoldable pub add : Delivery → List Delivery → List Delivery
unfolding insert_by
add d q = insert_by is_ahead d q

-- What the inner loop of the script ends with: nothing more is due, a delivery, or too many
-- deliveries without payload; and what is left of the queue.
pub data Scanned : Type 0 where
  nothing_due : List Delivery → ℕ → Scanned
  found : Delivery → List Delivery → Scanned
  too_many : List Delivery → Scanned

-- Whether a delivery's payload exists, the time, and the orphans removed so far.
unfoldable pub scan : (String → Bool) → ℕ → List Delivery → ℕ → Scanned
scan exists now [] orphans = nothing_due [] orphans
scan exists now (d ∷ ds) orphans =
    let rest = scan exists now ds (orphans + 1) in
    if ltb now d.score
    then nothing_due (d ∷ ds) orphans
    else if exists d.job
    then found d ds
    else if leb 100 (orphans + 1)
    then too_many ds
    else rest

abbrev pub start_execution : Priority → Delivery → List Delivery → Intake → Option Delivery × Intake
start_execution p d q s =
    let s' = set_queue p q s in (some d, record s' { execution = add d s'.execution })

-- The outer loop of the script.
unfoldable pub admit_from :
    (String → Bool) → ℕ → List Priority → ℕ → Intake → Option Delivery × Intake
unfolding scan add
admit_from exists now [] orphans s = (none, s)
admit_from exists now (p ∷ ps) orphans s = elim (scan exists now (queue_of p s) orphans) [
  | nothing_due q n ↦ admit_from exists now ps n (set_queue p q s)
  | found d q ↦ start_execution p d q s
  | too_many q ↦ (none, set_queue p q s)
]

abbrev pub advance : Option Delivery × Intake → Option Delivery × Intake
advance (none, s) = (none, s)
advance (some d, s) = (some d, record s { cursor = next_cursor s.cursor })

abbrev pub admit_preferred :
    (String → Bool) → ℕ → Option Priority → Intake → Option (Option Delivery × Intake)
admit_preferred exists now none s = none
admit_preferred exists now (some p) s =
    some (advance (admit_from exists now (selection_order p) 0 s))

-- `_admit_one`: the delivery that is admitted, if any; nothing at all for an `IndexError`.
unfoldable pub admit_one : (String → Bool) → ℕ → Intake → Option (Option Delivery × Intake)
unfolding preferred selection_order admit_from
admit_one exists now s = admit_preferred exists now (preferred s.cursor) s

-- What happens to the queues: an admission, or the arrival of a delivery.
pub data IntakeStep : Type 0 where
  admit : ℕ → IntakeStep
  arrive : Priority → Delivery → IntakeStep

abbrev pub add_answer : Option Delivery → List Delivery → List Delivery
add_answer none out = out
add_answer (some d) out = d ∷ out

-- What is admitted in the steps, in order, and the state they lead to.
unfoldable pub take_steps :
    (String → Bool) → List IntakeStep → Intake → Option (List Delivery × Intake)
unfolding admit_one add
take_steps exists [] s = some ([], s)
take_steps exists (arrive p d ∷ steps) s =
    take_steps exists steps (set_queue p (add d (queue_of p s)) s)
take_steps exists (admit now ∷ steps) s = elim (admit_one exists now s) [
  | none ↦ none
  | some answer ↦ elim (take_steps exists steps answer.1) [
    | none ↦ none
    | some rest ↦ some (add_answer answer.0 rest.0, rest.1)
  ]
]
