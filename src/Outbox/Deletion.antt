-- ===== src/Outbox/Deletion.antt =====
-- The deletion of deliveries with their job, src/scrapeyard/storage/job_deletion.py, or with a run of
-- its history, src/scrapeyard/storage/job_retention.py.
use scrapeyard.Prelude.{
  ℕ, ◌≡◌, refl, String, Bool, true, false, leb, not, ◌&&◌, ◌||◌, ◌==◌, Option, none, some, [], ◌∷◌,
  text_keys, if◌then◌else◌, arith, inl, inr, Bool-cases, eq_of_some, ap, ◌∙◌,
}
use scrapeyard.Prelude.Dict.{get, keep, AllEntries}
use scrapeyard.Outbox.{Row, Table, is_pending}

-- `SELECT 1 ... WHERE job_id = ? AND status = 'pending'`.
unfoldable pub has_pending_delivery : String → Table → Bool
has_pending_delivery job_id [] = false
has_pending_delivery job_id ((_, row) ∷ t) =
    let rest = has_pending_delivery job_id t in ((row.job_id == job_id) && is_pending row) || rest

-- What `finalize_job_deletion` does to the table when it gets to its check of the deliveries and
-- nothing after that check stands against it.
unfoldable pub delete_deliveries : String → Table → Table
unfolding has_pending_delivery
delete_deliveries job_id t =
    if has_pending_delivery job_id t then t else keep (λ row. not (row.job_id == job_id)) t

-- `run_id = ?`, which NULL is not.
abbrev pub is_run_of : String → Option String → Bool
is_run_of run_id none = false
is_run_of run_id (some r) = r == run_id

-- `scrubbed_at <= ?`.
abbrev pub is_scrubbed_before : ℕ → Option ℕ → Bool
is_scrubbed_before before none = false
is_scrubbed_before before (some at) = leb at before

abbrev pub is_tombstone : String → String → ℕ → Row → Bool
is_tombstone job_id run_id before row =
    (row.job_id == job_id)
    && (is_run_of run_id row.run_id
        && (not (is_pending row) && is_scrubbed_before before row.scrubbed_at))

-- What `prune_scheduled_run_for_retention` does to the table when it deletes a run.
unfoldable pub prune_tombstones : String → String → ℕ → Table → Table
prune_tombstones job_id run_id before t =
    keep (λ row. not (is_tombstone job_id run_id before row)) t

pub get-keep_kept :
    (p : Row → Bool) (id : String) (row : Row) (t : Table)
    → get id t ≡ some row
    → p row ≡ true
    → get id (keep p t) ≡ some row
unfolding get keep
get-keep_kept p id row [] e h = absurd (cc)
get-keep_kept p id row ((k, r) ∷ t) e h = elim (Bool-cases (k == id)) [
  | inl same ↦
      let it : r ≡ row = eq_of_some (rw same at e) in rw (ap p it ∙ h, same) (ap (λ q. some q) it)
  | inr apart ↦ elim (Bool-cases (p r)) [
    | inl stays ↦ rw (stays, apart) (get-keep_kept p id row t (rw apart at e) h)
    | inr goes ↦ rw goes (get-keep_kept p id row t (rw apart at e) h)
  ]
]

pub AllEntries-keep :
    (P : Row → Type 0) (p : Row → Bool) (t : Table)
    → AllEntries (λ _ r. P r) t
    → AllEntries (λ _ r. P r) (keep p t)
unfolding keep
AllEntries-keep P p [] all = tt
AllEntries-keep P p ((k, r) ∷ t) all = elim (Bool-cases (p r)) [
  | inl stays ↦ rw stays (all.0, AllEntries-keep P p t all.1)
  | inr goes ↦ rw goes (AllEntries-keep P p t all.1)
]

pub AllEntries-delete :
    (P : Row → Type 0) (job_id : String) (t : Table)
    → AllEntries (λ _ r. P r) t
    → AllEntries (λ _ r. P r) (delete_deliveries job_id t)
unfolding delete_deliveries
AllEntries-delete P job_id t all = elim (Bool-cases (has_pending_delivery job_id t)) [
  | inl waits ↦ rw waits all
  | inr over ↦ rw over (AllEntries-keep P (λ row. not (row.job_id == job_id)) t all)
]

pub get-delete_deliveries :
    (job_id id : String) (row : Row) (t : Table)
    → get id t ≡ some row
    → (row.job_id == job_id) ≡ false
    → get id (delete_deliveries job_id t) ≡ some row
unfolding delete_deliveries
get-delete_deliveries job_id id row t e other = elim (Bool-cases (has_pending_delivery job_id t)) [
  | inl waits ↦ rw waits e
  | inr over ↦
      rw over (get-keep_kept (λ row. not (row.job_id == job_id)) id row t e (rw other refl))
]

pub get-prune_tombstones :
    (job_id run_id : String) (before : ℕ) (id : String) (row : Row) (t : Table)
    → get id t ≡ some row
    → ((row.job_id == job_id) && is_run_of run_id row.run_id) ≡ false
    → get id (prune_tombstones job_id run_id before t) ≡ some row
unfolding prune_tombstones
get-prune_tombstones job_id run_id before id row t e other =
    get-keep_kept (λ row. not (is_tombstone job_id run_id before row)) id row t e (ground arith)
