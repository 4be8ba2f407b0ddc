-- ===== src/Outbox/Entries.antt =====
-- Properties of every row under the writes of src/scrapeyard/storage/webhook_outbox.py.
use scrapeyard.Prelude.{
  ℕ, zero, suc, List, false, ◌≡◌, refl, String, Bool, true, inl, inr, Option, none, some, [], ◌∷◌,
  text_keys, Bool-cases, ◌==◌,
}
use scrapeyard.Prelude.Dict.{get, put, AllEntries, get-AllEntries}
use scrapeyard.Outbox.{
  Row, Table, is_pending, update_found, update_row, quarantine_change, quarantine_malformed_row,
}
use scrapeyard.Outbox.Codec.{
  Coding, WebhookDeliveryCreate, WebhookDelivery, new_row, insert_ignore, names_itself,
  enqueue_delivery, row_to_webhook_delivery, answer_decoded, read_reserved, begin_reserved,
}
use scrapeyard.Outbox.Scrub.{
  Entry, scrub_change, is_scrubbable, is_delivered, is_failed, of_status, scrub_rows, select_old,
  scrub_terminal_deliveries,
}

pub AllEntries-put :
    (P : Row → Type 0) (k : String) (r : Row) (t : Table)
    → P r
    → AllEntries (λ _ q. P q) t
    → AllEntries (λ _ q. P q) (put k r t)
unfolding put
AllEntries-put P k r [] p all = (p, tt)
AllEntries-put P k r ((j, q) ∷ t) p all = elim (Bool-cases (j == k)) [
  | inl same ↦ rw same (p, all.1)
  | inr other ↦ rw other (all.0, AllEntries-put P k r t p all.1)
]

pub AllEntries-update_row :
    (P : Row → Type 0) (k : String) (matches : Row → Bool) (change : Row → Row) (t : Table)
    → ((r : Row) → (P r → matches r ≡ true → P (change r)))
    → AllEntries (λ _ q. P q) t
    → AllEntries (λ _ q. P q) (update_row k matches change t).1
unfolding update_row
AllEntries-update_row P k matches change t h all = found (get k t) refl
  where
    found :
        (o : Option Row)
        → get k t ≡ o
        → AllEntries (λ _ q. P q) (update_found k matches change o t).1
    found none e = all
    found (some r) e = elim (Bool-cases (matches r)) [
      | inl m ↦
          rw m
            (AllEntries-put P k (change r) t (h r (get-AllEntries (λ _ q. P q) t k r all e) m) all)
      | inr m ↦ rw m all
    ]

-- The writes that create a row, quarantine it and scrub it keep the property of a row.
pub record IsStable (P : Row → Type 0) (c : Coding) : Type 0 where
  pub quarantined : (at : ℕ) (r : Row) → P r → P (quarantine_change at r)
  pub scrubbed : (at : ℕ) (r : Row) → P r → is_scrubbable r ≡ true → P (scrub_change at r)
  pub created : (d : WebhookDeliveryCreate) (now : ℕ) → P (new_row c d now)

module _ (P : Row → Type 0) (c : Coding) (stable : IsStable P c) where
  abbrev All : Table → Type 0
  All t = AllEntries (λ _ r. P r) t

  pub quarantine-All :
      (k : String) (at : ℕ) (t : Table) → All t → All (quarantine_malformed_row k at t).1
  unfolding quarantine_malformed_row
  quarantine-All k at t all =
      AllEntries-update_row P k is_pending (quarantine_change at) t
        (λ r p _. stable.quarantined at r p) all

  pub scrub_rows-All : (at : ℕ) (rows : List Entry) (t : Table) → All t → All (scrub_rows at rows t)
  unfolding scrub_rows
  scrub_rows-All at [] t all = all
  scrub_rows-All at ((k, _) ∷ rows) t all =
      scrub_rows-All at rows (update_row k is_scrubbable (scrub_change at) t).1 (
        AllEntries-update_row P k is_scrubbable (scrub_change at) t
          (λ r p m. stable.scrubbed at r p m) all)

  pub scrub-All :
      (delivered_before failed_before at limit : ℕ) (t : Table)
      → All t
      → All (scrub_terminal_deliveries delivered_before failed_before at limit t).1
  unfolding scrub_terminal_deliveries
  scrub-All delivered_before failed_before at zero t all = all
  scrub-All delivered_before failed_before at (suc n) t all =
      let rows = select_old delivered_before failed_before (suc n) t in
      scrub_rows-All at (of_status is_failed rows) (scrub_rows at (of_status is_delivered rows) t)
        (scrub_rows-All at (of_status is_delivered rows) t all)

  pub read_reserved-All :
      (k : String) (at : ℕ) (o : Option Row) (t : Table) → All t → All (read_reserved c k at o t).1
  read_reserved-All k at none t all = all
  read_reserved-All k at (some r) t all = answered (row_to_webhook_delivery c k r)
    where
      answered : (d : Option WebhookDelivery) → All (answer_decoded k at d t).1
      answered none = quarantine-All k at t all
      answered (some d) = all

  pub begin_reserved-All :
      (k : String) (at : ℕ) (b : Bool) (t : Table) → All t → All (begin_reserved c k at (b, t)).1
  begin_reserved-All k at false t all = all
  begin_reserved-All k at true t all = read_reserved-All k at (get k t) t all

  pub insert_ignore-All :
      (k : String) (r : Row) (o : Option Row) (t : Table)
      → P r
      → All t
      → All (insert_ignore k r o t)
  insert_ignore-All k r none t new all = AllEntries-put P k r t new all
  insert_ignore-All k r (some _) t new all = all

  pub enqueue-All :
      (d : WebhookDeliveryCreate) (now : ℕ) (t : Table) → All t → All (enqueue_delivery c d now t).1
  unfolding enqueue_delivery
  enqueue-All d now t all = elim (Bool-cases (names_itself d (get "delivery_id" d.payload))) [
    | inl m ↦ rw m (
        insert_ignore-All d.delivery_id (new_row c d now) (get d.delivery_id t) t
          (stable.created d now) all)
    | inr m ↦ rw m all
  ]
