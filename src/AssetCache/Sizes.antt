-- ===== src/AssetCache/Sizes.antt =====
-- The sizes of the entries of src/scrapeyard/engine/asset_cache.py and their sum.
use scrapeyard.Prelude.{
  ℕ, ◌+◌, ◌-◌, ◌≤◌, ◌≡◌, refl, sym, ap, ◌∙◌, false, ltb, inl, inr, arith, Option, none, some, [],
  ◌∷◌, ◌==◌, ==-self, text_keys, pair_keys, option_keys, Bool-cases, eq_of_some,
}
use scrapeyard.Prelude.Dict.{get, put, remove, IsUnique, get-put}
use scrapeyard.AssetCache.{CachedAsset, Key, Assets, AssetCache, evict}

unfoldable pub sum_sizes : Assets → ℕ
sum_sizes [] = 0
sum_sizes ((_, asset) ∷ m) = asset.size + sum_sizes m

abbrev pub size_of : Option CachedAsset → ℕ
size_of none = 0
size_of (some asset) = asset.size

-- The bytes are counted right, they fit, and no key is there twice.
pub record IsSound (c : AssetCache) : Type 0 where
  pub unique : IsUnique c.entries
  pub counted : c.bytes ≡ sum_sizes c.entries
  pub fits : c.bytes ≤ c.max_bytes

pub sum_sizes-remove :
    (key : Key) (m : Assets)
    → IsUnique m
    → sum_sizes (remove key m) + size_of (get key m) ≡ sum_sizes m
unfolding sum_sizes get remove
sum_sizes-remove key [] u = omega arith
sum_sizes-remove key ((k, a) ∷ m) (fresh, u) = elim (Bool-cases (k == key)) [
  | inl same ↦
      let gone : get key m ≡ none =
        ap (λ j. get j m) (sym ((pair_keys.decides k key).0 same)) ∙ fresh in
      let rest : sum_sizes (remove key m) + size_of (get key m) ≡ sum_sizes m =
        sum_sizes-remove key m u in
      rw same (omega (arith, rw gone at rest))
  | inr other ↦ rw other (omega (arith, sum_sizes-remove key m u))
]

pub sum_sizes-put :
    (key : Key) (asset : CachedAsset) (m : Assets)
    → get key m ≡ none
    → sum_sizes (put key asset m) ≡ sum_sizes m + asset.size
unfolding sum_sizes get put
sum_sizes-put key asset [] h = omega arith
sum_sizes-put key asset ((k, a) ∷ m) h = elim (Bool-cases (k == key)) [
  | inl same ↦ absurd (let g : some a ≡ none = (rw same at h) in cc)
  | inr other ↦ rw other (omega (arith, sum_sizes-put key asset m (rw other at h)))
]

-- The loop ends: what is left is counted right and fits.
pub evict_lem :
    (max_bytes : ℕ) (m : Assets) (bytes : ℕ)
    → IsUnique m
    → bytes ≡ sum_sizes m
    → (m' : Assets) × (b : ℕ) × (evict max_bytes m bytes ≡ some (m', b))
      × IsUnique m'
      × (b ≡ sum_sizes m')
      × (b ≤ max_bytes)
unfolding evict sum_sizes
evict_lem max_bytes [] bytes u e =
    let within : ltb max_bytes bytes ≡ false = ground arith in
    ([], bytes, rw within refl, u, e, ground arith)
evict_lem max_bytes ((key, asset) ∷ m) bytes (fresh, u) e =
    elim (Bool-cases (ltb max_bytes bytes)) [
      | inl over ↦ rw over (evict_lem max_bytes m (bytes - asset.size) u (omega (arith, e)))
      | inr within ↦ rw within ((key, asset) ∷ m, bytes, refl, (fresh, u), e, ground arith)
    ]

entries_of :
    {m m' : Assets} {b b' : ℕ} → Path (Option (Assets × ℕ)) (some (m, b)) (some (m', b')) → m ≡ m'
entries_of f = ap (λ p. p.0) (eq_of_some f)

-- The newest entry outlasts the loop if it fits by itself.
pub evict-put :
    (max_bytes : ℕ) (key : Key) (asset : CachedAsset) (m : Assets) (bytes : ℕ) (m' : Assets) (b : ℕ)
    → get key m ≡ none
    → bytes ≡ sum_sizes m + asset.size
    → asset.size ≤ max_bytes
    → evict max_bytes (put key asset m) bytes ≡ some (m', b)
    → get key m' ≡ some asset
unfolding evict sum_sizes get put
evict-put max_bytes key asset [] bytes m' b h e l f =
    let within : ltb max_bytes bytes ≡ false = ground arith in
    let left : (key, asset) ∷ [] ≡ m' = entries_of (rw within at f) in rw (← left, ==-self key) refl
evict-put max_bytes key asset ((k, a) ∷ m) bytes m' b h e l f = elim (Bool-cases (k == key)) [
  | inl same ↦ absurd (let g : some a ≡ none = (rw same at h) in cc)
  | inr other ↦
      let later : get key m ≡ none = (rw other at h) in
      elim (Bool-cases (ltb max_bytes bytes)) [
        | inl over ↦
            evict-put max_bytes key asset m (bytes - a.size) m' b later (omega (arith, e)) l
              (rw (other, over) at f)
        | inr within ↦
            let left : (k, a) ∷ put key asset m ≡ m' = entries_of (rw (other, within) at f) in
            rw (← left, other) (get-put key key asset m ∙ rw (==-self key) refl)
      ]
]
