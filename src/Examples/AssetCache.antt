-- ===== src/Examples/AssetCache.antt =====
-- Tests and examples for the asset cache, src/scrapeyard/engine/asset_cache.py.
use scrapeyard.Prelude.{
  ℕ, ◌<◌, ◌≡◌, refl, String, true, arith, none, some, List, [], ◌∷◌, ◌==◌, text_keys, pair_keys,
  option_keys, if◌then◌else◌,
}
use scrapeyard.Prelude.Dict.{Dict, get}
use scrapeyard.AssetCache.{CachedAsset, AssetCache, Request, is_cacheable, lookup}
use scrapeyard.AssetCache.Freshness.{Texts, freshness_seconds}
use scrapeyard.AssetCache.Store.{
  Response, make_asset, store, kept_headers, entry_size, headers_size,
}
use scrapeyard.AssetCache.Sizes.{IsSound, sum_sizes}
use scrapeyard.AssetCache.Bound.{
  Returns, CacheCall, find, keep_response, forget_all, perform_all, perform_all-Returns,
}
use scrapeyard.AssetCache.Recency.{lookup-store, lookup_fresh}

-- Enough of Python's texts for one header.
abbrev texts : Texts
texts = record {
  split_commas = λ s. s ∷ [];
  strip_lower = λ s. s;
  partition = λ s. if s == "max-age=60" then ("max-age", "60") else (s, "");
  strip_quotes = λ s. s;
  digits = λ s. if s == "60" then some 60 else none;
  time_to_expiry = λ _ _ _. none;
}

abbrev headers : Dict String String
headers = ("cache-control", "max-age=60") ∷ ("content-length", "3") ∷ []

abbrev script : Response
script = record {
  status = 200;
  url = "https://a.org/x.js";
  all_headers = some headers;
  body = some (1 ∷ 2 ∷ 3 ∷ []);
}

abbrev request : Request
request = record { method = "GET"; resource_type = "script"; url = "https://a.org/x.js" }

-- Room for one entry.
abbrev empty_cache : AssetCache
empty_cache = record { max_bytes = 700; max_entry_bytes = 10; entries = []; bytes = 0 }

abbrev getsizeof : String → ℕ
getsizeof s = 50

empty_cache-IsSound : IsSound empty_cache
unfolding sum_sizes
empty_cache-IsSound = record { unique = tt; counted = refl; fits = omega arith }

abbrev calls : List CacheCall
calls =
    keep_response none script 5 10
    ∷ keep_response (some "b.org") script 5 11
    ∷ find none request 12
    ∷ forget_all
    ∷ []

perform_all-Returns_example : Returns empty_cache (perform_all texts getsizeof calls empty_cache)
perform_all-Returns_example =
    perform_all-Returns texts getsizeof calls empty_cache empty_cache-IsSound

lookup-store_example :
    (c' : AssetCache) × (store texts getsizeof none script 5 10 empty_cache ≡ some c')
    × ((lookup none request 100 c').0
        ≡ some (make_asset texts getsizeof none script 5 10 headers 60000000 (1 ∷ 2 ∷ 3 ∷ [])))
unfolding freshness_seconds get kept_headers entry_size headers_size
lookup-store_example =
    lookup-store texts getsizeof none script 5 10 100 request headers 60000000 (1 ∷ 2 ∷ 3 ∷ [])
      empty_cache empty_cache-IsSound refl refl refl refl (omega arith) (omega arith) refl refl
      (omega arith)

abbrev stored : CachedAsset
stored = record { status = 200; headers = []; body = []; expires_at = 90; size = 600 }

abbrev full_cache : AssetCache
full_cache = record empty_cache {
  entries = ((none, "https://a.org/x.js"), stored) ∷ [];
  bytes = 600;
}

lookup_fresh_example :
    (12 < 90)
    × (is_cacheable request ≡ true)
    × (get (none, "https://a.org/x.js") full_cache.entries ≡ some stored)
unfolding lookup get
lookup_fresh_example = lookup_fresh none request 12 full_cache stored refl
