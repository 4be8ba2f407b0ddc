-- ===== src/Outbox/Secrecy.antt =====
-- Which rows of the outbox of src/scrapeyard/storage/webhook_outbox.py hold no texts.
use scrapeyard.Prelude.{
  ℕ, zero, suc, ◌≡◌, refl, sym, ◌∙◌, subst, String, Bool, true, false, not, inl, inr, arith, Option,
  none, some, List, [], ◌∷◌, text_keys, Bool-cases,
}
use scrapeyard.Prelude.Dict.{get, AllEntries}
use scrapeyard.Outbox.{
  Row, Table, is_pending, update_row, is_open, begin_change, delivered_change, retry_change,
  failed_change, count_attempts, count_some_attempts, quarantine_change, reserve_attempt,
  pending_update, mark_delivered, mark_retryable_failure, mark_failed,
}
use scrapeyard.Outbox.Codec.{Coding, WebhookDeliveryCreate, new_row, begin_attempt, get_delivery}
use scrapeyard.Outbox.Scrub.{scrub_change, is_scrubbable, is_unscrubbed}
use scrapeyard.Outbox.Entries.{
  AllEntries-update_row, IsStable, quarantine-All, scrub-All, read_reserved-All, begin_reserved-All,
  enqueue-All,
}
use scrapeyard.Outbox.Deletion.{AllEntries-keep, AllEntries-delete, is_tombstone, prune_tombstones}
use scrapeyard.Outbox.Steps.{
  Step, enqueue, begin, read, deliver, retry, fail, quarantine, scrub, delete_job, prune_run, apply,
  apply_all,
}

-- A scrubbed row is over and its texts are gone.
pub record IsErased (r : Row) : Type 0 where
  pub url : r.url ≡ ""
  pub headers_json : r.headers_json ≡ "{}"
  pub payload_json : r.payload_json ≡ "{}"
  pub last_error : r.last_error ≡ none
  pub over : is_pending r ≡ false

abbrev pub ErasedUnless : Bool → Row → Type 0
ErasedUnless true r = Unit
ErasedUnless false r = IsErased r

abbrev pub KeepsNothing : Row → Type 0
KeepsNothing r = ErasedUnless (is_unscrubbed r) r

is_erased : (r : Row) → KeepsNothing r → is_unscrubbed r ≡ false → IsErased r
is_erased r k u = subst (λ b. ErasedUnless b r) u k

from_erased : (r : Row) → (is_unscrubbed r ≡ false → IsErased r) → KeepsNothing r
from_erased r h = elim (Bool-cases (is_unscrubbed r)) [
  | inl u ↦ subst (λ b. ErasedUnless b r) (sym u) tt
  | inr u ↦ subst (λ b. ErasedUnless b r) (sym u) (h u)
]

abbrev pub AllKeepNothing : Table → Type 0
AllKeepNothing t = AllEntries (λ _ r. KeepsNothing r) t

-- A pending row has not been scrubbed, so a change that leaves the mark alone is harmless.
pending-KeepsNothing :
    (r : Row) (new : Row)
    → KeepsNothing r
    → is_pending r ≡ true
    → is_unscrubbed new ≡ is_unscrubbed r
    → KeepsNothing new
pending-KeepsNothing r new k p e =
    from_erased new
      λ u. absurd (let over : is_pending r ≡ false = (is_erased r k (sym e ∙ u)).over in cc)

unscrubbed_after_count :
    (expected : Option ℕ) (more at : ℕ) (r : Row)
    → is_unscrubbed (count_attempts expected more at r) ≡ is_unscrubbed r
unscrubbed_after_count none more at r = refl
unscrubbed_after_count (some n) more at r = refl

unscrubbed_after_some_count :
    (expected : Option ℕ) (more at : ℕ) (r : Row)
    → is_unscrubbed (count_some_attempts expected more at r) ≡ is_unscrubbed r
unscrubbed_after_some_count expected zero at r = refl
unscrubbed_after_some_count expected (suc n) at r = unscrubbed_after_count expected (suc n) at r

pending_if_open : (expected : Option ℕ) (r : Row) → is_open expected r ≡ true → is_pending r ≡ true
pending_if_open expected r h = ground arith

over_if_scrubbable : (r : Row) → is_scrubbable r ≡ true → is_pending r ≡ false
over_if_scrubbable r h = ground arith

scrub-KeepsNothing : (at : ℕ) (r : Row) → is_scrubbable r ≡ true → KeepsNothing (scrub_change at r)
scrub-KeepsNothing at r m = record {
  url = refl;
  headers_json = refl;
  payload_json = refl;
  last_error = refl;
  over = over_if_scrubbable r m;
}

quarantine-KeepsNothing : (at : ℕ) (r : Row) → KeepsNothing (quarantine_change at r)
quarantine-KeepsNothing at r = record {
  url = refl;
  headers_json = refl;
  payload_json = refl;
  last_error = refl;
  over = refl;
}

new_row-KeepsNothing :
    (c : Coding) (d : WebhookDeliveryCreate) (now : ℕ) → KeepsNothing (new_row c d now)
unfolding new_row
new_row-KeepsNothing c d now = tt

KeepsNothing-IsStable : (c : Coding) → IsStable KeepsNothing c
KeepsNothing-IsStable c = record {
  quarantined = λ at r _. quarantine-KeepsNothing at r;
  scrubbed = λ at r _ m. scrub-KeepsNothing at r m;
  created = new_row-KeepsNothing c;
}

open_update-All :
    (k : String) (expected : Option ℕ) (change : Row → Row) (t : Table)
    → ((r : Row) → is_unscrubbed (change r) ≡ is_unscrubbed r)
    → AllKeepNothing t
    → AllKeepNothing (update_row k (is_open expected) change t).1
open_update-All k expected change t same all =
    AllEntries-update_row KeepsNothing k (is_open expected) change t
      (λ r old m. pending-KeepsNothing r (change r) old (pending_if_open expected r m) (same r)) all

apply-All : (c : Coding) (s : Step) (t : Table) → AllKeepNothing t → AllKeepNothing (apply c s t)
unfolding apply begin_attempt get_delivery reserve_attempt mark_delivered mark_retryable_failure
    mark_failed pending_update prune_tombstones
apply-All c (enqueue d now) t all = enqueue-All KeepsNothing c (KeepsNothing-IsStable c) d now t all
apply-All c (begin k n at) t all =
    begin_reserved-All KeepsNothing c (KeepsNothing-IsStable c) k at (reserve_attempt k n at t).0
      (reserve_attempt k n at t).1 (open_update-All k (some n) (begin_change at) t (λ r. refl) all)
apply-All c (read k now) t all =
    read_reserved-All KeepsNothing c (KeepsNothing-IsStable c) k now (get k t) t all
apply-All c (deliver k at expected more) t all =
    open_update-All k expected (delivered_change at expected more) t
      (λ r. unscrubbed_after_count expected more at _) all
apply-All c (retry k at next error expected more) t all =
    open_update-All k expected (retry_change at next error expected more) t
      (λ r. unscrubbed_after_count expected more at _) all
apply-All c (fail k at reason error expected more) t all =
    open_update-All k expected (failed_change at reason error expected more) t
      (λ r. unscrubbed_after_some_count expected more at _) all
apply-All c (quarantine k at) t all =
    quarantine-All KeepsNothing c (KeepsNothing-IsStable c) k at t all
apply-All c (scrub delivered_before failed_before at limit) t all =
    scrub-All KeepsNothing c (KeepsNothing-IsStable c) delivered_before failed_before at limit t all
apply-All c (delete_job job_id) t all = AllEntries-delete KeepsNothing job_id t all
apply-All c (prune_run job_id run_id before) t all =
    AllEntries-keep KeepsNothing (λ row. not (is_tombstone job_id run_id before row)) t all

-- In every table that grows by any sequence of steps from one where this holds, such as the empty
-- table, a row that is marked as scrubbed holds no URL, no headers, no payload and no error, and
-- is not pending.
pub apply_all-AllKeepNothing :
    (c : Coding) (steps : List Step) (t : Table)
    → AllKeepNothing t
    → AllKeepNothing (apply_all c steps t)
unfolding apply_all
apply_all-AllKeepNothing c [] t all = all
apply_all-AllKeepNothing c (s ∷ ss) t all =
    apply_all-AllKeepNothing c ss (apply c s t) (apply-All c s t all)
