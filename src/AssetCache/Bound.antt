-- ===== src/AssetCache/Bound.antt =====
-- The bound on the bytes of src/scrapeyard/engine/asset_cache.py under every sequence of calls.
use scrapeyard.Prelude.{
  ℕ, ◌+◌, ◌≡◌, refl, ◌∙◌, String, Bool, true, false, ltb, leb, inl, inr, arith, Option, none, some,
  List, [], ◌∷◌, length, ==-self, text_keys, pair_keys, option_keys, Bool-cases, if◌then◌else◌,
}
use scrapeyard.Prelude.Dict.{Dict, get, put, remove, get-remove, put-IsUnique, remove-IsUnique}
use scrapeyard.AssetCache.{
  CachedAsset, Key, Assets, AssetCache, Request, is_cacheable, remove_found, remove_key,
  move_to_end, lookup_found, lookup, clear,
}
use scrapeyard.AssetCache.Freshness.{Texts, or_empty, freshness_seconds}
use scrapeyard.AssetCache.Store.{
  Response, insert, is_too_long, make_asset, store_body, store_fresh, store_headers, store,
}
use scrapeyard.AssetCache.Sizes.{
  sum_sizes, size_of, IsSound, sum_sizes-remove, sum_sizes-put, evict_lem,
}

get_removed : (key : Key) (m : Assets) → get key (remove key m) ≡ none
get_removed key m = get-remove key key m ∙ rw (==-self key) refl

-- Removal keeps the cache sound, and the limits as they are.
pub remove_key-IsSound : (key : Key) (c : AssetCache) → IsSound c → IsSound (remove_key key c)
unfolding remove_key
remove_key-IsSound key c s = found (get key c.entries) refl
  where
    found : (o : Option CachedAsset) → get key c.entries ≡ o → IsSound (remove_found key o c)
    found none e = s
    found (some a) e =
        let sums : sum_sizes (remove key c.entries) + size_of (get key c.entries)
            ≡ sum_sizes c.entries =
          sum_sizes-remove key c.entries s.unique in
        record {
          unique = remove-IsUnique key c.entries s.unique;
          counted = omega (arith, rw e at sums, s.counted);
          fits = omega (arith, s.fits);
        }

pub get-remove_key : (key : Key) (c : AssetCache) → get key (remove_key key c).entries ≡ none
unfolding remove_key
get-remove_key key c = found (get key c.entries) refl
  where
    found :
        (o : Option CachedAsset)
        → get key c.entries ≡ o
        → get key (remove_found key o c).entries ≡ none
    found none e = e
    found (some a) e = get_removed key c.entries

pub limits_kept :
    (key : Key) (c : AssetCache)
    → ((remove_key key c).max_bytes ≡ c.max_bytes)
      × ((remove_key key c).max_entry_bytes ≡ c.max_entry_bytes)
unfolding remove_key
limits_kept key c = found (get key c.entries)
  where
    found :
        (o : Option CachedAsset)
        → ((remove_found key o c).max_bytes ≡ c.max_bytes)
          × ((remove_found key o c).max_entry_bytes ≡ c.max_entry_bytes)
    found none = (refl, refl)
    found (some a) = (refl, refl)

-- The cache is sound and has these limits.
pub record SoundWithin (max_bytes max_entry_bytes : ℕ) (c : AssetCache) : Type 0 where
  pub sound : IsSound c
  pub its_max : c.max_bytes ≡ max_bytes
  pub its_entry_max : c.max_entry_bytes ≡ max_entry_bytes

-- The call returns a sound cache.
abbrev pub Returns : AssetCache → Option AssetCache → Type 0
Returns c o = (c' : AssetCache) × (o ≡ some c') × SoundWithin c.max_bytes c.max_entry_bytes c'

abbrev pub unchanged : (c : AssetCache) → IsSound c → Returns c (some c)
unchanged c s = (c, refl, record { sound = s; its_max = refl; its_entry_max = refl })

pub insert-Returns :
    (key : Key) (asset : CachedAsset) (c : AssetCache) → IsSound c → Returns c (insert key asset c)
unfolding insert
insert-Returns key asset c s =
    let c1 = remove_key key c in
    let s1 = remove_key-IsSound key c s in
    let kept = limits_kept key c in
    let (m, b, e, u, n, l) =
      evict_lem c1.max_bytes (put key asset c1.entries) (c1.bytes + asset.size)
        (put-IsUnique key asset c1.entries s1.unique)
        (omega (arith, s1.counted, sum_sizes-put key asset c1.entries (get-remove_key key c))) in
    (
      record c1 { entries = m; bytes = b },
      rw e refl,
      record {
        sound = record { unique = u; counted = n; fits = l };
        its_max = kept.0;
        its_entry_max = kept.1;
      },
    )

moved :
    (key : Key) (a : CachedAsset) (c : AssetCache)
    → IsSound c
    → get key c.entries ≡ some a
    → IsSound (record c { entries = move_to_end key a c.entries })
unfolding move_to_end
moved key a c s e =
    let sums : sum_sizes (remove key c.entries) + size_of (get key c.entries)
        ≡ sum_sizes c.entries =
      sum_sizes-remove key c.entries s.unique in
    let again : sum_sizes (put key a (remove key c.entries))
        ≡ sum_sizes (remove key c.entries) + a.size =
      sum_sizes-put key a (remove key c.entries) (get_removed key c.entries) in
    record {
      unique = put-IsUnique key a (remove key c.entries) (remove-IsUnique key c.entries s.unique);
      counted = omega (arith, again, rw e at sums, s.counted);
      fits = s.fits;
    }

pub lookup-Returns :
    (site : Option String) (r : Request) (now : ℕ) (c : AssetCache)
    → IsSound c
    → SoundWithin c.max_bytes c.max_entry_bytes (lookup site r now c).1
unfolding lookup
lookup-Returns site r now c s = elim (Bool-cases (is_cacheable r)) [
  | inl yes_it_is ↦ rw yes_it_is (found (get (site, r.url) c.entries) refl)
  | inr no_it_is ↦ rw no_it_is (record { sound = s; its_max = refl; its_entry_max = refl })
]
  where
    found :
        (o : Option CachedAsset)
        → get (site, r.url) c.entries ≡ o
        → SoundWithin c.max_bytes c.max_entry_bytes (lookup_found (site, r.url) now o c).1
    found none e = record { sound = s; its_max = refl; its_entry_max = refl }
    found (some a) e = elim (Bool-cases (leb a.expires_at now)) [
      | inl over ↦ rw over (record {
        sound = remove_key-IsSound (site, r.url) c s;
        its_max = (limits_kept (site, r.url) c).0;
        its_entry_max = (limits_kept (site, r.url) c).1;
      })
      | inr fresh ↦
          rw fresh
            (record { sound = moved (site, r.url) a c s e; its_max = refl; its_entry_max = refl })
    ]

module _ (x : Texts) (getsizeof : String → ℕ) (site : Option String) (r : Response)
    (wall now : ℕ) where
  Returns-if :
      (c : AssetCache) (b : Bool) (o o' : Option AssetCache)
      → Returns c o
      → Returns c o'
      → Returns c (if b then o else o')
  Returns-if c true o o' p q = p
  Returns-if c false o o' p q = q

  pub store-Returns : (c : AssetCache) → IsSound c → Returns c (store x getsizeof site r wall now c)
  unfolding store
  store-Returns c s = with_headers r.all_headers
    where
      with_body :
          (headers : Dict String String) (lifetime : ℕ) (body : Option (List ℕ))
          → Returns c (store_body x getsizeof site r wall now headers lifetime body c)
      with_body headers lifetime none = unchanged c s
      with_body headers lifetime (some body) =
          Returns-if c (ltb c.max_entry_bytes (length body)) (some c)
            (insert (site, r.url) (make_asset x getsizeof site r wall now headers lifetime body) c)
            (unchanged c s)
            (insert-Returns (site, r.url)
              (make_asset x getsizeof site r wall now headers lifetime body) c s)

      with_lifetime :
          (headers : Dict String String) (lifetime : Option ℕ)
          → Returns c (store_fresh x getsizeof site r wall now headers lifetime c)
      with_lifetime headers none = unchanged c s
      with_lifetime headers (some lifetime) =
          Returns-if c
            (is_too_long c.max_entry_bytes (x.digits (or_empty (get "content-length" headers))))
            (some c) (store_body x getsizeof site r wall now headers lifetime r.body c)
            (unchanged c s) (with_body headers lifetime r.body)

      with_headers :
          (h : Option (Dict String String))
          → Returns c (store_headers x getsizeof site r wall now h c)
      with_headers none = unchanged c s
      with_headers (some headers) = with_lifetime headers (freshness_seconds x wall headers)

clear-IsSound : (c : AssetCache) → IsSound (clear c)
unfolding clear sum_sizes
clear-IsSound c = record { unique = tt; counted = refl; fits = omega arith }

-- The calls that the routes of a run make.
pub data CacheCall : Type 0 where
  find : Option String → Request → ℕ → CacheCall
  keep_response : Option String → Response → ℕ → ℕ → CacheCall
  forget_all : CacheCall

module _ (x : Texts) (getsizeof : String → ℕ) where
  -- Nothing where a call raises.
  unfoldable pub perform : CacheCall → AssetCache → Option AssetCache
  perform (find site r now) c = some (lookup site r now c).1
  perform (keep_response site r wall now) c = store x getsizeof site r wall now c
  perform forget_all c = some (clear c)

  abbrev pub then_all : (AssetCache → Option AssetCache) → Option AssetCache → Option AssetCache
  then_all rest none = none
  then_all rest (some c) = rest c

  unfoldable pub perform_all : List CacheCall → AssetCache → Option AssetCache
  unfolding perform
  perform_all [] c = some c
  perform_all (k ∷ ks) c = then_all (perform_all ks) (perform k c)

  perform-Returns : (k : CacheCall) (c : AssetCache) → IsSound c → Returns c (perform k c)
  unfolding perform clear
  perform-Returns (find site r now) c s =
      ((lookup site r now c).1, refl, lookup-Returns site r now c s)
  perform-Returns (keep_response site r wall now) c s =
      store-Returns x getsizeof site r wall now c s
  perform-Returns forget_all c s =
      (clear c, refl, record { sound = clear-IsSound c; its_max = refl; its_entry_max = refl })

-- From a sound cache, in which no key is twice, the bytes are the sum of the sizes and are within the
-- limit, no sequence of lookups, stores and clearings raises, and it ends in a sound cache with the
-- same limits.
pub perform_all-Returns :
    (x : Texts) (getsizeof : String → ℕ) (calls : List CacheCall) (c : AssetCache)
    → IsSound c
    → Returns c (perform_all x getsizeof calls c)
unfolding perform_all
perform_all-Returns x getsizeof [] c s = unchanged c s
perform_all-Returns x getsizeof (k ∷ ks) c s =
    let (c1, e1, s1) = perform-Returns x getsizeof k c s in
    let (c2, e2, s2) = perform_all-Returns x getsizeof ks c1 s1.sound in
    (
      c2,
      rw e1 e2,
      record {
        sound = s2.sound;
        its_max = s2.its_max ∙ s1.its_max;
        its_entry_max = s2.its_entry_max ∙ s1.its_entry_max;
      },
    )
