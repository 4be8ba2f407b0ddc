-- ===== src/Target/Sound.antt =====
-- What an answer of `ResultValidator.validate`, src/scrapeyard/engine/resilience.py, says when a
-- deadline may stop it: what src/scrapeyard/queue/validation_policy.py relies on.
use scrapeyard.Prelude.{
  ℕ, ◌+◌, ◌≡◌, refl, String, Bool, true, ◌&&◌, not, ltb, Bool-cases, inl, inr, Option, none, some,
  List, [], ◌∷◌, length,
}
use scrapeyard.Resilience.Validator.{
  Record, OnEmptyAction, Check, ResultValidator, ValidationResult, Validation, result, stopped,
  unless, has_required_field, record_check, check_records, check_fields, validate, all_have,
  all_complete,
}

abbrev pub is_complete : (String → Bool) → ResultValidator → List Record → Bool
is_complete is_blank v rs =
    not (ltb (length rs) v.min_results) && all_complete is_blank v.required_fields rs

-- An answer has the validator's action, and passes only if `b` holds.
abbrev pub Answers : OnEmptyAction → Bool → ValidationResult → Type 0
Answers a b x = (x.action ≡ a) × (x.passed ≡ true → b ≡ true)

abbrev pub Says : {E : Type 0} → OnEmptyAction → Bool → Validation E → Type 0
Says a b (result x) = Answers a b x
Says a b (stopped e) = Unit {0}

Says-unless :
    {E : Type 0} (a : OnEmptyAction) (b : Bool) (o : Option E) (x : Validation E)
    → Says a b x
    → Says a b (unless o x)
Says-unless a b none x h = h
Says-unless a b (some e) x h = tt

module _ {E : Type 0} (is_blank : String → Bool) (v : ResultValidator)
    (late : Check → Option E) where
  records-Says :
      (field : String) (i : ℕ) (rs : List Record) (next : Validation E) (b : Bool)
      → Says v.on_empty b next
      → Says v.on_empty
          (all_have is_blank field rs && b)
          (check_records is_blank v late field i rs next)
  unfolding check_records
  records-Says field i [] next b h = h
  records-Says field i (r ∷ rs) next b h =
      Says-unless _ _ (record_check is_blank v late field i) _
        (elim (Bool-cases (has_required_field is_blank field r)) [
          | inl full ↦ rw full (records-Says field (i + 1) rs next b h)
          | inr empty ↦ rw empty (refl, λ e. e)
        ])

  fields-Says :
      (fields : List String) (rs : List Record)
      → Says v.on_empty (all_complete is_blank fields rs) (check_fields is_blank v late fields rs)
  unfolding check_fields
  fields-Says [] rs = (refl, λ e. refl)
  fields-Says (field ∷ fields) rs =
      Says-unless _ _ (late _) _ (records-Says field 0 rs _ _ (fields-Says fields rs))

  pub validate-Says :
      (rs : List Record) → Says v.on_empty (is_complete is_blank v rs) (validate is_blank v late rs)
  unfolding validate
  validate-Says rs = Says-unless _ _ (late _) _ (elim (Bool-cases (ltb (length rs) v.min_results)) [
    | inl few ↦ rw few (refl, λ e. e)
    | inr enough ↦ rw enough (fields-Says v.required_fields rs)
  ])
