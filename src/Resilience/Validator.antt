-- ===== src/Resilience/Validator.antt =====
-- `ResultValidator` of src/scrapeyard/engine/resilience.py. The method `strip` of Python's texts is a
-- parameter, and so is what the checks of the budget's deadline raise.
use scrapeyard.Prelude.{
  ℕ, ◌+◌, ◌%◌, ◌≡◌, refl, String, Bool, true, false, ◌&&◌, ◌||◌, not, ltb, leb, nat_eq, inl, inr,
  arith, Option, none, some, List, [], ◌∷◌, length, ◌==◌, text_keys, Bool-cases, if◌then◌else◌,
}
use scrapeyard.Prelude.Dict.{Dict, get}

-- A field's value: null, a text, a list, or anything else.
pub data Item : Type 0 where
  null_item : Item
  text_item : String → Item
  other_item : Item

pub data Value : Type 0 where
  null : Value
  text : String → Value
  items : List Item → Value
  other : Value

abbrev pub Record : Type 0
Record = Dict String Value

pub data OnEmptyAction : Type 0 where
  retry warn fail skip : OnEmptyAction

pub record ResultValidator : Type 0 where
  pub required_fields : List String
  pub min_results : ℕ
  pub on_empty : OnEmptyAction

-- What the message says.
pub data Message : Type 0 where
  nothing_wrong : Message
  too_few : ℕ → ℕ → Message
  empty_field : String → ℕ → Message

pub record ValidationResult : Type 0 where
  pub passed : Bool
  pub action : OnEmptyAction
  pub message : Message

-- The checks of the deadline: at the start, before a field, and at every 64th record.
pub data Check : Type 0 where
  at_start : Check
  at_field : String → Check
  at_record : String → ℕ → Check

-- A result, or what a check raises.
pub data Validation (E : Type 0) : Type 0 where
  result : ValidationResult → Validation E
  stopped : E → Validation E

abbrev pub unless : {E : Type 0} → Option E → Validation E → Validation E
unless none x = x
unless (some e) x = stopped e

module _ (is_blank : String → Bool) where
  abbrev pub is_present : Item → Bool
  is_present null_item = false
  is_present (text_item t) = not (is_blank t)
  is_present other_item = true

  unfoldable pub any_present : List Item → Bool
  any_present [] = false
  any_present (x ∷ xs) = is_present x || any_present xs

  unfoldable pub has_value : Option Value → Bool
  unfolding any_present
  has_value none = false
  has_value (some null) = false
  has_value (some (text t)) = not (is_blank t)
  has_value (some (items xs)) = any_present xs
  has_value (some other) = true

  -- The program stores a text under this key, or nothing. The source would raise `TypeError` for a list
  -- or a dictionary there, which is left out.
  abbrev pub is_hidden : Option Value → Bool
  is_hidden (some (text t)) = t == "map" || t == "cart_only" || t == "call_for_price"
  is_hidden _ = false

  unfoldable pub has_required_field : String → Record → Bool
  unfolding has_value
  has_required_field field r =
      has_value (get field r) || field == "price" && is_hidden (get "pricing_visibility" r)

  module _ {E : Type 0} (v : ResultValidator) (late : Check → Option E) where
    abbrev pub failed_with : Message → Validation E
    failed_with m = result (record { passed = false; action = v.on_empty; message = m })

    abbrev pub record_check : String → ℕ → Option E
    record_check field i = if nat_eq (i % 64) 0 then late (at_record field i) else none

    unfoldable pub check_records : String → ℕ → List Record → Validation E → Validation E
    unfolding has_required_field
    check_records field i [] next = next
    check_records field i (r ∷ rs) next =
        let rest = check_records field (i + 1) rs next in
        unless (record_check field i)
          (if has_required_field field r then rest else failed_with (empty_field field i))

    abbrev pub all_passed : Validation E
    all_passed = result (record { passed = true; action = v.on_empty; message = nothing_wrong })

    unfoldable pub check_fields : List String → List Record → Validation E
    unfolding check_records
    check_fields [] rs = all_passed
    check_fields (field ∷ fields) rs =
        unless (late (at_field field)) (check_records field 0 rs (check_fields fields rs))

    unfoldable pub validate : List Record → Validation E
    unfolding check_fields
    validate rs = unless (late at_start) (
        if ltb (length rs) v.min_results
        then failed_with (too_few v.min_results (length rs))
        else check_fields v.required_fields rs)

-- What the validation is about: there are enough records, and each has every required field.
abbrev pub all_have : (String → Bool) → String → List Record → Bool
all_have is_blank field [] = true
all_have is_blank field (r ∷ rs) = has_required_field is_blank field r && all_have is_blank field rs

abbrev pub all_complete : (String → Bool) → List String → List Record → Bool
all_complete is_blank [] rs = true
all_complete is_blank (field ∷ fields) rs =
    all_have is_blank field rs && all_complete is_blank fields rs

abbrev pub has_passed : {E : Type 0} → Validation E → Bool
has_passed (result r) = r.passed
has_passed (stopped e) = false

module _ {E : Type 0} (is_blank : String → Bool) (v : ResultValidator)
    (late : Check → Option E) where
  module _ (calm : (c : Check) → late c ≡ none) where
    calm_record : (field : String) (i : ℕ) → record_check is_blank v late field i ≡ none
    calm_record field i = elim (Bool-cases (nat_eq (i % 64) 0)) [
      | inl now ↦ rw now (calm (at_record field i))
      | inr not_now ↦ rw not_now refl
    ]

    records_pass :
        (field : String) (i : ℕ) (rs : List Record) (next : Validation E)
        → has_passed (check_records is_blank v late field i rs next)
          ≡ (all_have is_blank field rs && has_passed next)
    unfolding check_records
    records_pass field i [] next = refl
    records_pass field i (r ∷ rs) next = elim (Bool-cases (has_required_field is_blank field r)) [
      | inl full ↦ rw (calm_record field i, full) (records_pass field (i + 1) rs next)
      | inr empty ↦ rw (calm_record field i, empty) refl
    ]

    fields_pass :
        (fields : List String) (rs : List Record)
        → has_passed (check_fields is_blank v late fields rs) ≡ all_complete is_blank fields rs
    unfolding check_fields
    fields_pass [] rs = refl
    fields_pass (field ∷ fields) rs =
        rw
          (
            calm (at_field field),
            records_pass field 0 rs (check_fields is_blank v late fields rs),
            fields_pass fields rs,
          )
          refl

-- When no check of the deadline raises, the validation passes exactly if there are at least the
-- minimal number of records and every record has every required field, where the price of a record
-- may be hidden; otherwise it fails.
pub validate-all_complete :
    {E : Type 0} (is_blank : String → Bool) (v : ResultValidator) (late : Check → Option E)
    (rs : List Record)
    → ((c : Check) → late c ≡ none)
    → has_passed (validate is_blank v late rs)
      ≡ (leb v.min_results (length rs) && all_complete is_blank v.required_fields rs)
unfolding validate
validate-all_complete is_blank v late rs calm = elim (Bool-cases (ltb (length rs) v.min_results)) [
  | inl few ↦
      let too_few_records : leb v.min_results (length rs) ≡ false = ground arith in
      rw (calm at_start, few, too_few_records) refl
  | inr enough ↦
      let enough_records : leb v.min_results (length rs) ≡ true = ground arith in
      rw (calm at_start, enough, enough_records)
        (fields_pass is_blank v late calm v.required_fields rs)
]
