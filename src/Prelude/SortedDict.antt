-- ===== src/Prelude/SortedDict.antt =====
-- Dictionaries in the order of their keys: what `json.dumps` writes with `sort_keys=True`.
use scrapeyard.Prelude.{
  ◌≡◌, refl, ◌∙◌, String, Bool, ◌==◌, none, some, [], ◌∷◌, text_ltb, sort_by, insert_by, text_keys,
  if◌then◌else◌, Bool-cases, inl, inr, arith,
}
use scrapeyard.Prelude.Dict.{Dict, get, IsUnique}

module _ {V : Type 0} where
  abbrev pub key_before : String × V → String × V → Bool
  key_before a b = text_ltb a.0 b.0

  unfoldable pub sort_keys : Dict String V → Dict String V
  unfolding sort_by
  sort_keys m = sort_by key_before m

  -- The same entries, in whatever order.
  abbrev pub SameEntries : Dict String V → Dict String V → Type 0
  SameEntries m n = (k : String) → get k m ≡ get k n

  get-insert_by :
      (j k : String) (v : V) (m : Dict String V)
      → get j m ≡ none
      → get k (insert_by key_before (j, v) m) ≡ (if j == k then some v else get k m)
  unfolding get insert_by
  get-insert_by j k v [] e = refl
  get-insert_by j k v ((i, w) ∷ m) e = elim (Bool-cases (text_ltb i j)) [
    | inl later ↦ rw later (
        ground (
          arith,
          get-insert_by j k v m,
          e,
          text_keys.decides i j,
          text_keys.decides i k,
          text_keys.decides j k,
        ))
    | inr here ↦ rw here refl
  ]

  pub get-sort_keys : (m : Dict String V) → IsUnique m → SameEntries (sort_keys m) m
  unfolding get sort_keys sort_by
  get-sort_keys [] u k = refl
  get-sort_keys ((j, v) ∷ m) (absent, u) k =
      get-insert_by j k v (sort_keys m) (get-sort_keys m u j ∙ absent)
      ∙ rw (get-sort_keys m u k) refl
