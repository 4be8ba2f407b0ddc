-- ===== src/Outbox/Evolution.antt =====
-- What becomes of a row of the outbox of src/scrapeyard/storage/webhook_outbox.py.
use scrapeyard.Prelude.{
  ℕ, zero, suc, ◌≤◌, ◌≡◌, refl, sym, ap, ◌∙◌, subst, String, Bool, true, false, ◌==◌, inl, inr,
  arith, Option, none, some, List, [], ◌∷◌, text_keys, Bool-cases,
}
use scrapeyard.Prelude.Dict.{get, get-put}
use scrapeyard.Outbox.{
  Row, Table, is_pending, update_row, is_open, begin_change, delivered_change, retry_change,
  failed_change, count_attempts, count_some_attempts, quarantine_change, reserve_attempt,
  pending_update, mark_delivered, mark_retryable_failure, mark_failed, quarantine_malformed_row,
}
use scrapeyard.Outbox.Codec.{
  Coding, WebhookDeliveryCreate, WebhookDelivery, new_row, insert_ignore, names_itself,
  enqueue_delivery, row_to_webhook_delivery, answer_decoded, read_reserved, begin_reserved,
  begin_attempt, get_delivery,
}
use scrapeyard.Outbox.Scrub.{
  Entry, scrub_change, is_scrubbable, is_delivered, is_failed, of_status, scrub_rows, select_old,
  scrub_terminal_deliveries,
}
use scrapeyard.Outbox.Deletion.{get-delete_deliveries, get-prune_tombstones}
use scrapeyard.Outbox.Steps.{
  Step, enqueue, begin, read, deliver, retry, fail, quarantine, scrub, delete_job, prune_run,
  spares, AllSpareRun, apply, apply_all,
}
use scrapeyard.Outbox.Evolves.{
  Evolves, Evolves-refl, Evolves-trans, pending-Evolves, Kept, Kept-refl, update_row-Kept,
}

-- How a row may change: the attempts never fall, and the end of a delivery is final.

open_is_pending : (expected : Option ℕ) (r : Row) → is_open expected r ≡ true → is_pending r ≡ true
open_is_pending expected r h = ground arith

count_attempts-le :
    (expected : Option ℕ) (more at : ℕ) (r : Row)
    → r.attempts ≤ (count_attempts expected more at r).attempts
count_attempts-le none more at r = omega arith
count_attempts-le (some n) more at r = omega arith

count_some_attempts-le :
    (expected : Option ℕ) (more at : ℕ) (r : Row)
    → r.attempts ≤ (count_some_attempts expected more at r).attempts
count_some_attempts-le expected zero at r = omega arith
count_some_attempts-le expected (suc n) at r = count_attempts-le expected (suc n) at r

count_attempts-job_id :
    (expected : Option ℕ) (more at : ℕ) (r : Row)
    → (count_attempts expected more at r).job_id ≡ r.job_id
count_attempts-job_id none more at r = refl
count_attempts-job_id (some n) more at r = refl

count_attempts-run_id :
    (expected : Option ℕ) (more at : ℕ) (r : Row)
    → (count_attempts expected more at r).run_id ≡ r.run_id
count_attempts-run_id none more at r = refl
count_attempts-run_id (some n) more at r = refl

count_some_attempts-job_id :
    (expected : Option ℕ) (more at : ℕ) (r : Row)
    → (count_some_attempts expected more at r).job_id ≡ r.job_id
count_some_attempts-job_id expected zero at r = refl
count_some_attempts-job_id expected (suc n) at r = count_attempts-job_id expected (suc n) at r

count_some_attempts-run_id :
    (expected : Option ℕ) (more at : ℕ) (r : Row)
    → (count_some_attempts expected more at r).run_id ≡ r.run_id
count_some_attempts-run_id expected zero at r = refl
count_some_attempts-run_id expected (suc n) at r = count_attempts-run_id expected (suc n) at r

scrub-Evolves : (at : ℕ) (r : Row) → Evolves r (scrub_change at r)
scrub-Evolves at r = record {
  job_id = refl;
  run_id = refl;
  attempts = omega arith;
  status = λ _. refl;
  delivered_at = λ _. refl;
  failed_at = λ _. refl;
  failure_reason = λ _. refl;
  final_attempts = λ _. refl;
}

then-Kept :
    (id : String) (row : Row) (t : Table) (f : Table → Table)
    → Kept id row t
    → ((r : Row) → get id t ≡ some r → Kept id r (f t))
    → Kept id row (f t)
then-Kept id row t f (r, e, ev) h =
    let (r', e', ev') = h r e in (r', e', Evolves-trans row r r' ev ev')

scrub_rows-Kept :
    (at : ℕ) (rows : List Entry) (id : String) (row : Row) (t : Table)
    → get id t ≡ some row
    → Kept id row (scrub_rows at rows t)
unfolding scrub_rows
scrub_rows-Kept at [] id row t e = Kept-refl id row t e
scrub_rows-Kept at ((k, _) ∷ rows) id row t e =
    then-Kept id row (update_row k is_scrubbable (scrub_change at) t).1 (scrub_rows at rows)
      (update_row-Kept k id is_scrubbable (scrub_change at) row t (λ r _. scrub-Evolves at r) e)
      (λ r f. scrub_rows-Kept at rows id r (update_row k is_scrubbable (scrub_change at) t).1 f)

quarantine-Kept :
    (k id : String) (at : ℕ) (row : Row) (t : Table)
    → get id t ≡ some row
    → Kept id row (quarantine_malformed_row k at t).1
unfolding quarantine_malformed_row
quarantine-Kept k id at row t e =
    update_row-Kept k id is_pending (quarantine_change at) row t
      (λ r p. pending-Evolves r (quarantine_change at r) refl refl p (omega arith)) e

read_reserved-Kept :
    (c : Coding) (k id : String) (at : ℕ) (o : Option Row) (row : Row) (t : Table)
    → get id t ≡ some row
    → Kept id row (read_reserved c k at o t).1
read_reserved-Kept c k id at none row t e = Kept-refl id row t e
read_reserved-Kept c k id at (some r) row t e = answered (row_to_webhook_delivery c k r)
  where
    answered : (d : Option WebhookDelivery) → Kept id row (answer_decoded k at d t).1
    answered none = quarantine-Kept k id at row t e
    answered (some d) = Kept-refl id row t e

pub begin_reserved-Kept :
    (c : Coding) (k id : String) (at : ℕ) (b : Bool) (row : Row) (t : Table)
    → get id t ≡ some row
    → Kept id row (begin_reserved c k at (b, t)).1
begin_reserved-Kept c k id at false row t e = Kept-refl id row t e
begin_reserved-Kept c k id at true row t e = read_reserved-Kept c k id at (get k t) row t e

pub reserve_attempt-Kept :
    (k id : String) (n at : ℕ) (row : Row) (t : Table)
    → get id t ≡ some row
    → Kept id row (reserve_attempt k n at t).1
unfolding reserve_attempt
reserve_attempt-Kept k id n at row t e =
    update_row-Kept k id (is_open (some n)) (begin_change at) row t
      (λ r m.
        pending-Evolves r (begin_change at r) refl refl (open_is_pending (some n) r m)
          (omega arith))
      e

insert_ignore-Kept :
    (k id : String) (new row : Row) (o : Option Row) (t : Table)
    → get k t ≡ o
    → get id t ≡ some row
    → Kept id row (insert_ignore k new o t)
insert_ignore-Kept k id new row (some _) t f e = Kept-refl id row t e
insert_ignore-Kept k id new row none t f e = elim (Bool-cases (k == id)) [
  | inl same ↦ absurd (
      let g : none ≡ some row = sym f ∙ ap (λ q. get q t) ((text_keys.decides k id).0 same) ∙ e in
      cc)
  | inr other ↦ (row, get-put k id new t ∙ rw other e, Evolves-refl row)
]

enqueue-Kept :
    (c : Coding) (d : WebhookDeliveryCreate) (now : ℕ) (id : String) (row : Row) (t : Table)
    → get id t ≡ some row
    → Kept id row (enqueue_delivery c d now t).1
unfolding enqueue_delivery
enqueue-Kept c d now id row t e = elim (Bool-cases (names_itself d (get "delivery_id" d.payload))) [
  | inl m ↦
      rw m
        (insert_ignore-Kept d.delivery_id id (new_row c d now) row (get d.delivery_id t) t refl e)
  | inr m ↦ rw m (Kept-refl id row t e)
]

scrub-Kept :
    (delivered_before failed_before at limit : ℕ) (id : String) (row : Row) (t : Table)
    → get id t ≡ some row
    → Kept id row (scrub_terminal_deliveries delivered_before failed_before at limit t).1
unfolding scrub_terminal_deliveries
scrub-Kept delivered_before failed_before at zero id row t e = Kept-refl id row t e
scrub-Kept delivered_before failed_before at (suc n) id row t e =
    let rows = select_old delivered_before failed_before (suc n) t in
    then-Kept id row (scrub_rows at (of_status is_delivered rows) t)
      (scrub_rows at (of_status is_failed rows))
      (scrub_rows-Kept at (of_status is_delivered rows) id row t e)
      (λ r f.
        scrub_rows-Kept at (of_status is_failed rows) id r
          (scrub_rows at (of_status is_delivered rows) t) f)

apply-Kept :
    (c : Coding) (s : Step) (id : String) (row : Row) (t : Table)
    → get id t ≡ some row
    → spares row.job_id row.run_id s ≡ true
    → Kept id row (apply c s t)
unfolding apply begin_attempt get_delivery mark_delivered mark_retryable_failure mark_failed
    pending_update
apply-Kept c (enqueue d now) id row t e a = enqueue-Kept c d now id row t e
apply-Kept c (begin k n at) id row t e a =
    then-Kept id row (reserve_attempt k n at t).1
      (λ u. (begin_reserved c k at ((reserve_attempt k n at t).0, u)).1)
      (reserve_attempt-Kept k id n at row t e)
      (λ r f.
        begin_reserved-Kept c k id at (reserve_attempt k n at t).0 r (reserve_attempt k n at t).1 f)
apply-Kept c (read k now) id row t e a = read_reserved-Kept c k id now (get k t) row t e
apply-Kept c (deliver k at expected more) id row t e a =
    update_row-Kept k id (is_open expected) (delivered_change at expected more) row t
      (λ r m.
        pending-Evolves r (delivered_change at expected more r)
          (count_attempts-job_id expected more at _) (count_attempts-run_id expected more at _)
          (open_is_pending expected r m) (count_attempts-le expected more at _))
      e
apply-Kept c (retry k at next error expected more) id row t e a =
    update_row-Kept k id (is_open expected) (retry_change at next error expected more) row t
      (λ r m.
        pending-Evolves r (retry_change at next error expected more r)
          (count_attempts-job_id expected more at _) (count_attempts-run_id expected more at _)
          (open_is_pending expected r m) (count_attempts-le expected more at _))
      e
apply-Kept c (fail k at reason error expected more) id row t e a =
    update_row-Kept k id (is_open expected) (failed_change at reason error expected more) row t
      (λ r m.
        pending-Evolves r (failed_change at reason error expected more r)
          (count_some_attempts-job_id expected more at _)
          (count_some_attempts-run_id expected more at _) (open_is_pending expected r m)
          (count_some_attempts-le expected more at _))
      e
apply-Kept c (quarantine k at) id row t e a = quarantine-Kept k id at row t e
apply-Kept c (scrub delivered_before failed_before at limit) id row t e a =
    scrub-Kept delivered_before failed_before at limit id row t e
apply-Kept c (delete_job job_id) id row t e a =
    (row, get-delete_deliveries job_id id row t e (ground arith), Evolves-refl row)
apply-Kept c (prune_run job_id run_id before) id row t e a =
    (row, get-prune_tombstones job_id run_id before id row t e (ground arith), Evolves-refl row)

pub apply_all-Kept :
    (c : Coding) (steps : List Step) (id : String) (row : Row) (t : Table)
    → get id t ≡ some row
    → AllSpareRun row.job_id row.run_id steps
    → Kept id row (apply_all c steps t)
unfolding apply_all
apply_all-Kept c [] id row t e a = Kept-refl id row t e
apply_all-Kept c (s ∷ ss) id row t e (a, rest) =
    let (r1, e1, v1) = apply-Kept c s id row t e a in
    let (r2, e2, v2) =
      apply_all-Kept c ss id r1 (apply c s t) e1 (rw (v1.job_id, v1.run_id) rest) in
    (r2, e2, Evolves-trans row r1 r2 v1 v2)

-- The end of a delivery.
pub record SameEnd (old new : Row) : Type 0 where
  pub status : new.status ≡ old.status
  pub delivered_at : new.delivered_at ≡ old.delivered_at
  pub failed_at : new.failed_at ≡ old.failed_at
  pub failure_reason : new.failure_reason ≡ old.failure_reason
  pub attempts : new.attempts ≡ old.attempts

abbrev pub SameEndUnless : Bool → Row → Row → Type 0
SameEndUnless true old new = Unit
SameEndUnless false old new = SameEnd old new

abbrev pub Endures : String → Row → Table → Type 0
Endures id row t =
    (r : Row) × (get id t ≡ some r)
    × (row.attempts ≤ r.attempts)
    × SameEndUnless (is_pending row) row r

same_end : (old new : Row) → Evolves old new → SameEndUnless (is_pending old) old new
same_end old new v = elim (Bool-cases (is_pending old)) [
  | inl p ↦ subst (λ b. SameEndUnless b old new) (sym p) tt
  | inr p ↦
      subst (λ b. SameEndUnless b old new) (sym p)
        (record {
          status = v.status p;
          delivered_at = v.delivered_at p;
          failed_at = v.failed_at p;
          failure_reason = v.failure_reason p;
          attempts = v.final_attempts p;
        })
]

-- Whatever is done to the outbox, a delivery that is in it stays in it unless its job or its run is
-- deleted: its attempts never fall, and once it is no longer pending its status, the times and the
-- reason of its end and its attempts are fixed.
pub apply_all-Endures :
    (c : Coding) (steps : List Step) (id : String) (row : Row) (t : Table)
    → get id t ≡ some row
    → AllSpareRun row.job_id row.run_id steps
    → Endures id row (apply_all c steps t)
apply_all-Endures c steps id row t e a =
    let (r, f, v) = apply_all-Kept c steps id row t e a in (r, f, v.attempts, same_end row r v)
