-- ===== src/AssetCache/Store.antt =====
-- `store` of src/scrapeyard/engine/asset_cache.py. The response and the sizes of Python's texts are
-- parameters.
use scrapeyard.Prelude.{
  ℕ, ◌+◌, String, Bool, false, ◌||◌, ltb, Option, none, some, List, [], ◌∷◌, length, ◌==◌,
  text_keys, pair_keys, option_keys, if◌then◌else◌,
}
use scrapeyard.Prelude.Dict.{Dict, get, put}
use Prim.Native.String.{count}
use scrapeyard.AssetCache.{CachedAsset, Key, Assets, AssetCache, remove_key, evict}
use scrapeyard.AssetCache.Freshness.{Texts, or_empty, freshness_seconds}

-- What a response gives: its headers, and its body, if both arrive.
pub record Response : Type 0 where
  pub status : ℕ
  pub url : String
  pub all_headers : Option (Dict String String)
  pub body : Option (List ℕ)

abbrev pub is_dropped : String → Bool
is_dropped name =
    name == "connection"
    || name == "content-encoding"
    || name == "content-length"
    || name == "keep-alive"
    || name == "set-cookie"
    || name == "transfer-encoding"

unfoldable pub kept_headers : Dict String String → Dict String String
kept_headers [] = []
kept_headers ((name, value) ∷ headers) =
    let rest = kept_headers headers in if is_dropped name then rest else (name, value) ∷ rest

-- `sys.getsizeof` of a text is a parameter.
unfoldable pub headers_size : (String → ℕ) → Dict String String → ℕ
headers_size getsizeof [] = 0
headers_size getsizeof ((name, value) ∷ headers) =
    32 + getsizeof name + getsizeof value + headers_size getsizeof headers

unfoldable pub entry_size : (String → ℕ) → Key → Dict String String → List ℕ → ℕ
unfolding headers_size
entry_size getsizeof key headers body =
    512 + count key.1 + length body + headers_size getsizeof headers

-- The cache after the loop, and nothing where the loop raises.
abbrev pub after_eviction : AssetCache → Option (Assets × ℕ) → Option AssetCache
after_eviction c none = none
after_eviction c (some (entries, bytes)) = some (record c { entries = entries; bytes = bytes })

unfoldable pub insert : Key → CachedAsset → AssetCache → Option AssetCache
unfolding remove_key evict
insert key asset c =
    let c' = remove_key key c in
    after_eviction c' (evict c'.max_bytes (put key asset c'.entries) (c'.bytes + asset.size))

abbrev pub is_too_long : ℕ → Option ℕ → Bool
is_too_long max_entry_bytes none = false
is_too_long max_entry_bytes (some declared) = ltb max_entry_bytes declared

-- `wall` is the time of day, `now` the monotonic clock.
module _ (x : Texts) (getsizeof : String → ℕ) (site : Option String) (r : Response)
    (wall now : ℕ) where
  abbrev pub make_asset : Dict String String → ℕ → List ℕ → CachedAsset
  make_asset headers lifetime body = record {
    status = r.status;
    headers = kept_headers headers;
    body = body;
    expires_at = now + lifetime;
    size = entry_size getsizeof (site, r.url) (kept_headers headers) body;
  }

  abbrev pub store_body : Dict String String → ℕ → Option (List ℕ) → AssetCache → Option AssetCache
  store_body headers lifetime none c = some c
  store_body headers lifetime (some body) c =
      if ltb c.max_entry_bytes (length body)
      then some c
      else insert (site, r.url) (make_asset headers lifetime body) c

  abbrev pub store_fresh : Dict String String → Option ℕ → AssetCache → Option AssetCache
  store_fresh headers none c = some c
  store_fresh headers (some lifetime) c =
      if is_too_long c.max_entry_bytes (x.digits (or_empty (get "content-length" headers)))
      then some c
      else store_body headers lifetime r.body c

  abbrev pub store_headers : Option (Dict String String) → AssetCache → Option AssetCache
  store_headers none c = some c
  store_headers (some headers) c = store_fresh headers (freshness_seconds x wall headers) c

  -- The cache that is left, and nothing where the method raises.
  unfoldable pub store : AssetCache → Option AssetCache
  unfolding kept_headers entry_size insert freshness_seconds
  store c = store_headers r.all_headers c
