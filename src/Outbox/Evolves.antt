-- ===== src/Outbox/Evolves.antt =====
-- How a row of src/scrapeyard/storage/webhook_outbox.py may change, and updates of a table that keep it.
use scrapeyard.Prelude.{
  ◌≤◌, ◌≡◌, refl, sym, ap, ◌∙◌, subst, String, Bool, true, false, ◌==◌, inl, inr, arith, Option,
  none, some, text_keys, Bool-cases, eq_of_some,
}
use scrapeyard.Prelude.Dict.{get, put, get-put}
use scrapeyard.Outbox.{pending, Row, Table, is_pending, update_found, update_row}

pub record Evolves (old new : Row) : Type 0 where
  pub job_id : new.job_id ≡ old.job_id
  pub run_id : new.run_id ≡ old.run_id
  pub attempts : old.attempts ≤ new.attempts
  pub status : is_pending old ≡ false → new.status ≡ old.status
  pub delivered_at : is_pending old ≡ false → new.delivered_at ≡ old.delivered_at
  pub failed_at : is_pending old ≡ false → new.failed_at ≡ old.failed_at
  pub failure_reason : is_pending old ≡ false → new.failure_reason ≡ old.failure_reason
  pub final_attempts : is_pending old ≡ false → new.attempts ≡ old.attempts

pub Evolves-refl : (r : Row) → Evolves r r
Evolves-refl r = record {
  job_id = refl;
  run_id = refl;
  attempts = omega arith;
  status = λ _. refl;
  delivered_at = λ _. refl;
  failed_at = λ _. refl;
  failure_reason = λ _. refl;
  final_attempts = λ _. refl;
}

still_closed : (a b : Row) → Evolves a b → is_pending a ≡ false → is_pending b ≡ false
still_closed a b e h =
    subst (λ s. (elim s [ pending ↦ true | _ ↦ false ]) ≡ false) (sym (e.status h)) h

pub Evolves-trans : (a b c : Row) → Evolves a b → Evolves b c → Evolves a c
Evolves-trans a b c e f = record {
  job_id = f.job_id ∙ e.job_id;
  run_id = f.run_id ∙ e.run_id;
  attempts = omega (arith, e.attempts, f.attempts);
  status = λ h. f.status (still_closed a b e h) ∙ e.status h;
  delivered_at = λ h. f.delivered_at (still_closed a b e h) ∙ e.delivered_at h;
  failed_at = λ h. f.failed_at (still_closed a b e h) ∙ e.failed_at h;
  failure_reason = λ h. f.failure_reason (still_closed a b e h) ∙ e.failure_reason h;
  final_attempts = λ h. f.final_attempts (still_closed a b e h) ∙ e.final_attempts h;
}

-- A row that was pending may get any end, with no fewer attempts.
pub pending-Evolves :
    (old new : Row)
    → new.job_id ≡ old.job_id
    → new.run_id ≡ old.run_id
    → is_pending old ≡ true
    → old.attempts ≤ new.attempts
    → Evolves old new
pending-Evolves old new j r p le = record {
  job_id = j;
  run_id = r;
  attempts = le;
  status = λ h. absurd (cc);
  delivered_at = λ h. absurd (cc);
  failed_at = λ h. absurd (cc);
  failure_reason = λ h. absurd (cc);
  final_attempts = λ h. absurd (cc);
}

-- The row is still there, and has evolved.
abbrev pub Kept : String → Row → Table → Type 0
Kept id old t = (new : Row) × (get id t ≡ some new) × Evolves old new

pub Kept-refl : (id : String) (row : Row) (t : Table) → get id t ≡ some row → Kept id row t
Kept-refl id row t e = (row, e, Evolves-refl row)

put-Kept :
    (k id : String) (changed found row : Row) (t : Table)
    → get k t ≡ some found
    → Evolves found changed
    → get id t ≡ some row
    → Kept id row (put k changed t)
put-Kept k id changed found row t f ev e = elim (Bool-cases (k == id)) [
  | inl same ↦ (
    changed,
    get-put k id changed t ∙ rw same refl,
    subst (λ r. Evolves r changed)
        (eq_of_some (sym f ∙ ap (λ q. get q t) ((text_keys.decides k id).0 same) ∙ e)) ev,
  )
  | inr other ↦ (row, get-put k id changed t ∙ rw other e, Evolves-refl row)
]

update_found-Kept :
    (k id : String) (matches : Row → Bool) (change : Row → Row) (o : Option Row) (row : Row)
    (t : Table)
    → get k t ≡ o
    → ((r : Row) → matches r ≡ true → Evolves r (change r))
    → get id t ≡ some row
    → Kept id row (update_found k matches change o t).1
update_found-Kept k id matches change none row t f ev e = Kept-refl id row t e
update_found-Kept k id matches change (some r) row t f ev e = elim (Bool-cases (matches r)) [
  | inl m ↦ rw m (put-Kept k id (change r) r row t f (ev r m) e)
  | inr m ↦ rw m (Kept-refl id row t e)
]

pub update_row-Kept :
    (k id : String) (matches : Row → Bool) (change : Row → Row) (row : Row) (t : Table)
    → ((r : Row) → matches r ≡ true → Evolves r (change r))
    → get id t ≡ some row
    → Kept id row (update_row k matches change t).1
unfolding update_row
update_row-Kept k id matches change row t ev e =
    update_found-Kept k id matches change (get k t) row t refl ev e
