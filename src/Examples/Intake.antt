-- ===== src/Examples/Intake.antt =====
-- Tests and examples for the admission of runs, src/scrapeyard/queue/pool.py.
use scrapeyard.Prelude.{ℕ, ◌≡◌, refl, String, arith, some, List, [], ◌∷◌, ◌==◌, text_keys}
use scrapeyard.Intake.{
  high, low, Delivery, Intake, IntakeStep, found, admit, arrive, scan, take_steps,
}
use scrapeyard.Intake.Scan.{every, Among}
use scrapeyard.Intake.Turns.{admitted_within_turns}

abbrev delivery : String → ℕ → Delivery
delivery job score = record { job = job; score = score }

-- A low delivery waits behind a stream of high ones.
abbrev intake : Intake
intake = record {
  high_queue = delivery "h1" 1 ∷ delivery "h2" 2 ∷ delivery "h3" 3 ∷ [];
  normal_queue = [];
  low_queue = delivery "l" 4 ∷ [];
  execution = [];
  cursor = 0;
}

abbrev steps : List IntakeStep
steps =
    admit 10
    ∷ arrive high (delivery "h4" 11)
    ∷ admit 12
    ∷ admit 12
    ∷ arrive high (delivery "h5" 13)
    ∷ admit 14
    ∷ admit 14
    ∷ admit 14
    ∷ admit 14
    ∷ []

admitted_within_turns_example :
    (out : List Delivery) × (s' : Intake) × (take_steps every steps intake ≡ some (out, s'))
    × Among (delivery "l" 4) out
admitted_within_turns_example =
    admitted_within_turns low (delivery "l" 4) steps intake (omega arith) ([], refl)
      (omega arith, (refl, (omega arith, (omega arith, (refl, omega arith))))) (omega arith)

-- An orphan is dropped on the way.
orphan_dropped :
    scan (λ job. job == "h2") 10 intake.high_queue 0
    ≡ found (delivery "h2" 2) (delivery "h3" 3 ∷ [])
unfolding scan
orphan_dropped = refl
