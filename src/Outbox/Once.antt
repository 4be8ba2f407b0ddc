-- ===== src/Outbox/Once.antt =====
-- How often a delivery of src/scrapeyard/storage/webhook_outbox.py is begun and enqueued.
use scrapeyard.Prelude.{
  ℕ, ◌+◌, ◌≤◌, ◌≡◌, refl, ◌∙◌, String, Bool, true, false, inl, inr, arith, Option, none, some, List,
  text_keys, Bool-cases, ==-self, eq_of_some, sym,
}
use scrapeyard.Prelude.Dict.{get, get-put}
use scrapeyard.Outbox.{Row, Table, is_open, update_found, update_row, begin_change, reserve_attempt}
use scrapeyard.Outbox.Codec.{
  Coding, WebhookDelivery, WebhookDeliveryCreate, begin_reserved, begin_attempt, enqueue_delivery,
  insert_ignore, new_row, names_itself,
}
use scrapeyard.Outbox.Steps.{Step, AllSpareRun, apply_all}
use scrapeyard.Outbox.Evolution.{apply_all-Kept, begin_reserved-Kept, reserve_attempt-Kept}

-- A reservation that is won leaves a row with one more attempt.
reserved_row :
    (id : String) (n at : ℕ) (o : Option Row) (t : Table)
    → get id t ≡ o
    → (update_found id (is_open (some n)) (begin_change at) o t).0 ≡ true
    → (r : Row) × (get id (update_found id (is_open (some n)) (begin_change at) o t).1 ≡ some r)
      × (r.attempts ≡ n + 1)
reserved_row id n at none t e h = absurd (cc)
reserved_row id n at (some r) t e h = elim (Bool-cases (is_open (some n) r)) [
  | inl m ↦
      rw m (
        begin_change at r,
        get-put id id (begin_change at r) t ∙ rw (==-self id) refl,
        ground arith,
      )
  | inr m ↦ absurd (let g : false ≡ true = (rw m at h) in cc)
]

is_won :
    (c : Coding) (id : String) (at : ℕ) (b : Bool) (t : Table) (d : WebhookDelivery)
    → (begin_reserved c id at (b, t)).0 ≡ some d
    → b ≡ true
is_won c id at true t d h = refl
is_won c id at false t d h = absurd (cc)

refused_later :
    (c : Coding) (id : String) (n at : ℕ) (r : Row) (t : Table)
    → get id t ≡ some r
    → n + 1 ≤ r.attempts
    → begin_attempt c id n at t ≡ (none, t)
unfolding begin_attempt reserve_attempt update_row
refused_later c id n at r t e h =
    let closed : is_open (some n) r ≡ false = ground arith in rw e (rw closed refl)

-- An attempt is begun by at most one caller: when `begin_attempt` with an expected number of
-- attempts returns a delivery, every later call with the same number returns nothing and changes
-- nothing, whatever is done to the outbox in between, unless the job or the run of the delivery is
-- deleted.
pub begin_attempt_once :
    (c : Coding) (id : String) (n at later : ℕ) (t : Table) (row : Row) (d : WebhookDelivery)
    (steps : List Step)
    → get id t ≡ some row
    → (begin_attempt c id n at t).0 ≡ some d
    → AllSpareRun row.job_id row.run_id steps
    → begin_attempt c id n later (apply_all c steps (begin_attempt c id n at t).1)
      ≡ (none, apply_all c steps (begin_attempt c id n at t).1)
unfolding begin_attempt reserve_attempt update_row
begin_attempt_once c id n at later t row d steps present h a =
    let reserved = reserve_attempt id n at t in
    let won : reserved.0 ≡ true = is_won c id at reserved.0 reserved.1 d h in
    let (r0, e0, v0) = reserve_attempt-Kept id id n at row t present in
    let (r, e, q) = reserved_row id n at (get id t) t refl won in
    let (r1, e1, v1) = begin_reserved-Kept c id id at reserved.0 r reserved.1 e in
    let same : r0 ≡ r = eq_of_some (sym e0 ∙ e) in
    let spared : AllSpareRun r1.job_id r1.run_id steps =
      rw (v1.job_id, v1.run_id, ← same, v0.job_id, v0.run_id) a in
    let (r2, e2, v2) = apply_all-Kept c steps id r1 (begin_attempt c id n at t).1 e1 spared in
    refused_later c id n later r2 (apply_all c steps (begin_attempt c id n at t).1) e2
      (omega (arith, q, v1.attempts, v2.attempts))

-- A delivery that has been accepted is enqueued only once: enqueuing it again, whatever is done to
-- the outbox in between, is accepted and changes nothing, unless the job or the run of the row that
-- stands under its id is deleted.
pub enqueue_delivery_once :
    (c : Coding) (d : WebhookDeliveryCreate) (now later : ℕ) (steps : List Step) (t : Table)
    (row : Row)
    → (enqueue_delivery c d now t).0 ≡ true
    → get d.delivery_id (enqueue_delivery c d now t).1 ≡ some row
    → AllSpareRun row.job_id row.run_id steps
    → enqueue_delivery c d later (apply_all c steps (enqueue_delivery c d now t).1)
      ≡ (true, apply_all c steps (enqueue_delivery c d now t).1)
unfolding enqueue_delivery
enqueue_delivery_once c d now later steps t row h stored a =
    elim (Bool-cases (names_itself d (get "delivery_id" d.payload))) [
      | inl m ↦ rw m (
          let t1 = insert_ignore d.delivery_id (new_row c d now) (get d.delivery_id t) t in
          let (r2, e2, _) = apply_all-Kept c steps d.delivery_id row t1 (rw m at stored) a in
          rw e2 refl)
      | inr m ↦ absurd (let g : false ≡ true = (rw m at h) in cc)
    ]
