-- ===== src/Outbox/Scrub.antt =====
-- The retention pass and the counts of src/scrapeyard/storage/webhook_outbox.py.
use scrapeyard.Prelude.{
  ℕ, zero, suc, ◌+◌, String, Bool, true, false, ◌&&◌, ◌||◌, not, ltb, leb, text_ltb, Option, none,
  some, List, [], ◌∷◌, length, take, sort_by, text_keys, if◌then◌else◌,
}
use scrapeyard.Outbox.{pending, delivered, failed, Row, Table, is_pending, update_row}

-- `x <= ?`, where NULL matches nothing.
abbrev pub at_most : ℕ → Option ℕ → Bool
at_most limit none = false
at_most limit (some t) = leb t limit

abbrev pub is_unscrubbed : Row → Bool
is_unscrubbed row = elim row.scrubbed_at [ none ↦ true | some _ ↦ false ]

abbrev pub is_old : ℕ → ℕ → Row → Bool
is_old delivered_before failed_before row = elim row.status [
  | pending ↦ false
  | delivered ↦ at_most delivered_before row.delivered_at
  | failed ↦ at_most failed_before row.failed_at
]

abbrev pub is_eligible : ℕ → ℕ → Row → Bool
is_eligible delivered_before failed_before row =
    is_unscrubbed row && is_old delivered_before failed_before row

-- `COALESCE(delivered_at, failed_at)`; NULL sorts first.
abbrev pub end_key : Row → ℕ
end_key row = elim row.delivered_at [
  | some t ↦ suc t
  | none ↦ elim row.failed_at [ some t ↦ suc t | none ↦ 0 ]
]

abbrev pub Entry : Type 0
Entry = String × Row

abbrev pub is_before : Entry → Entry → Bool
is_before a b =
    ltb (end_key a.1) (end_key b.1) || not (ltb (end_key b.1) (end_key a.1)) && text_ltb a.0 b.0

unfoldable pub filter_rows : (Row → Bool) → Table → List Entry
filter_rows p [] = []
filter_rows p ((id, row) ∷ t) =
    let rest = filter_rows p t in if p row then (id, row) ∷ rest else rest

unfoldable pub select_old : ℕ → ℕ → ℕ → Table → List Entry
unfolding filter_rows sort_by
select_old delivered_before failed_before limit t =
    take limit (sort_by is_before (filter_rows (is_eligible delivered_before failed_before) t))

abbrev pub scrub_change : ℕ → Row → Row
scrub_change at row = record row {
  url = "";
  headers_json = "{}";
  timeout_ms = 0;
  payload_json = "{}";
  last_error = none;
  scrubbed_at = some at;
  updated_at = at;
}

abbrev pub is_scrubbable : Row → Bool
is_scrubbable row = not (is_pending row) && is_unscrubbed row

-- `UPDATE ... WHERE delivery_id IN (...)`.
unfoldable pub scrub_rows : ℕ → List Entry → Table → Table
unfolding update_row
scrub_rows at [] t = t
scrub_rows at ((id, _) ∷ rows) t =
    scrub_rows at rows (update_row id is_scrubbable (scrub_change at) t).1

unfoldable pub count_status : (Row → Bool) → List Entry → ℕ
count_status p [] = 0
count_status p ((_, row) ∷ rows) = (if p row then 1 else 0) + count_status p rows

abbrev pub is_delivered : Row → Bool
is_delivered row = elim row.status [ delivered ↦ true | _ ↦ false ]

abbrev pub is_failed : Row → Bool
is_failed row = elim row.status [ failed ↦ true | _ ↦ false ]

abbrev pub of_status : (Row → Bool) → List Entry → List Entry
of_status p [] = []
of_status p ((id, row) ∷ rows) =
    let rest = of_status p rows in if p row then (id, row) ∷ rest else rest

pub record WebhookRetentionSummary : Type 0 where
  pub delivered_scrubbed : ℕ
  pub failed_scrubbed : ℕ

-- Nothing for the `ValueError` of a limit below 1.
unfoldable pub scrub_terminal_deliveries :
    ℕ → ℕ → ℕ → ℕ → Table → Option WebhookRetentionSummary × Table
unfolding select_old scrub_rows
scrub_terminal_deliveries delivered_before failed_before at zero t = (none, t)
scrub_terminal_deliveries delivered_before failed_before at (suc n) t =
    let rows = select_old delivered_before failed_before (suc n) t in
    let delivered_rows = of_status is_delivered rows in
    let failed_rows = of_status is_failed rows in
    (
      some (record {
        delivered_scrubbed = length delivered_rows;
        failed_scrubbed = length failed_rows;
      }),
      scrub_rows at failed_rows (scrub_rows at delivered_rows t),
    )

-- The three sums of `summarize`.
pub record StatusCounts : Type 0 where
  pub pending_count : ℕ
  pub delivered_count : ℕ
  pub failed_count : ℕ

unfoldable pub summarize : Table → StatusCounts
unfolding count_status
summarize t = record {
  pending_count = count_status is_pending t;
  delivered_count = count_status is_delivered t;
  failed_count = count_status is_failed t;
}
