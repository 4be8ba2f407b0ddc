-- ===== src/Outbox/Roundtrip.antt =====
-- What is read back of a delivery that src/scrapeyard/storage/webhook_outbox.py has written.
use scrapeyard.Prelude.{
  ℕ, ◌≡◌, refl, ◌∙◌, String, ◌==◌, Option, none, some, [], ◌∷◌, text_keys, Bool-cases, inl, inr,
}
use mathlib.Core.Option as option
use scrapeyard.Prelude.Dict.{Dict, get, IsUnique}
use scrapeyard.Prelude.SortedDict.{sort_keys, SameEntries, get-sort_keys}
use scrapeyard.Outbox.Codec.{
  Json, text, Purpose, Coding, WebhookDeliveryCreate, WebhookDelivery, as_json, as_texts, to_text,
  new_row, row_to_webhook_delivery,
}

-- What the coding promises for a delivery: what is protected is revealed, and the JSON text of its
-- headers and of its payload, written with sorted keys, is read back in that order. The payloads of
-- the program have texts, numbers and null as values.
pub record IsFaithful (c : Coding) (d : WebhookDeliveryCreate) : Type 0 where
  pub reveal-protect : (p : Purpose) (t : String) → c.reveal p (c.protect p t) ≡ some t
  pub headers_read : c.loads (c.dumps (as_json d.headers)) ≡ some (sort_keys (as_json d.headers))
  pub payload_read : c.loads (c.dumps d.payload) ≡ some (sort_keys d.payload)

get-as_json : (k : String) (d : Dict String String) → get k (as_json d) ≡ option.map text (get k d)
unfolding get as_json
get-as_json k [] = refl
get-as_json k ((j, v) ∷ d) = elim (Bool-cases (j == k)) [
  | inl same ↦ rw same refl
  | inr other ↦ rw other (get-as_json k d)
]

get-as_texts :
    (k : String) (d : Dict String Json) → get k (as_texts d) ≡ option.map to_text (get k d)
unfolding get as_texts
get-as_texts k [] = refl
get-as_texts k ((j, v) ∷ d) = elim (Bool-cases (j == k)) [
  | inl same ↦ rw same refl
  | inr other ↦ rw other (get-as_texts k d)
]

as_json-IsUnique : (d : Dict String String) → IsUnique d → IsUnique (as_json d)
unfolding as_json
as_json-IsUnique [] u = tt
as_json-IsUnique ((j, v) ∷ d) (absent, u) =
    (rw (get-as_json j d, absent) refl, as_json-IsUnique d u)

text_of_text : (o : Option String) → option.map to_text (option.map text o) ≡ o
text_of_text none = refl
text_of_text (some t) = refl

headers_back :
    (d : Dict String String) → IsUnique d → SameEntries (as_texts (sort_keys (as_json d))) d
headers_back d u k =
    get-as_texts k (sort_keys (as_json d))
    ∙ rw (get-sort_keys (as_json d) (as_json-IsUnique d u) k, get-as_json k d)
        (text_of_text (get k d))

-- A delivery as it comes back from the row that was written for another.
pub record ComesBack (d : WebhookDeliveryCreate) (w : WebhookDelivery) : Type 0 where
  pub url : w.url ≡ d.url
  pub headers : SameEntries w.headers d.headers
  pub payload : SameEntries w.payload d.payload
  pub no_error : w.last_error ≡ none

-- With a coding that is faithful to the delivery, a row that has just been written for a delivery can
-- be read back, with the row itself, the URL, no error, and the same value as the delivery's under
-- every key of the headers and of the payload, though their order may be another.
pub row_to_webhook_delivery-new_row :
    (c : Coding) (d : WebhookDeliveryCreate) (now : ℕ)
    → IsFaithful c d
    → IsUnique d.headers
    → IsUnique d.payload
    → (w : WebhookDelivery) × (row_to_webhook_delivery c d.delivery_id (new_row c d now) ≡ some w)
      × (w.row ≡ new_row c d now)
      × ComesBack d w
unfolding row_to_webhook_delivery new_row
row_to_webhook_delivery-new_row c d now f u v = (
  record {
    row = new_row c d now;
    url = d.url;
    headers = as_texts (sort_keys (as_json d.headers));
    payload = sort_keys d.payload;
    last_error = none;
  },
  simp (f.reveal-protect, f.headers_read, f.payload_read),
  refl,
  record {
    url = refl;
    headers = headers_back d.headers u;
    payload = get-sort_keys d.payload v;
    no_error = refl;
  },
)
