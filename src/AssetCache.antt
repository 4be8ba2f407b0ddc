-- ===== src/AssetCache.antt =====
-- The cache of scripts and stylesheets, src/scrapeyard/engine/asset_cache.py. Entries are kept in the
-- order of their use, the oldest first. Times are whole microseconds.
pub mod Freshness
pub mod Store
pub mod Sizes
pub mod Bound
pub mod Recency
use scrapeyard.Prelude.{
  ℕ, zero, suc, ◌+◌, ◌-◌, String, Bool, true, false, ◌&&◌, ◌||◌, not, leb, ltb, nat_eq, Option,
  none, some, List, [], ◌∷◌, HasEq, ◌==◌, text_keys, pair_keys, option_keys, if◌then◌else◌,
}
use scrapeyard.Prelude.Dict.{Dict, get, put, remove}

pub record CachedAsset : Type 0 where
  pub status : ℕ
  pub headers : Dict String String
  pub body : List ℕ
  pub expires_at : ℕ
  pub size : ℕ

-- The site of the target, if any, and the URL.
abbrev pub Key : Type 0
Key = Option String × String

abbrev pub Assets : Type 0
Assets = Dict Key CachedAsset

pub record AssetCache : Type 0 where
  pub max_bytes : ℕ
  pub max_entry_bytes : ℕ
  pub entries : Assets
  pub bytes : ℕ

unfoldable pub new_cache : ℕ → ℕ → AssetCache
new_cache max_bytes max_entry_bytes = record {
  max_bytes = max_bytes;
  max_entry_bytes = max_entry_bytes;
  entries = [];
  bytes = 0;
}

pub record Request : Type 0 where
  pub method : String
  pub resource_type : String
  pub url : String

abbrev pub is_cacheable : Request → Bool
is_cacheable r =
    r.method == "GET" && (r.resource_type == "script" || r.resource_type == "stylesheet")

-- `_remove`.
abbrev pub remove_found : Key → Option CachedAsset → AssetCache → AssetCache
remove_found key none c = c
remove_found key (some asset) c = record c {
  entries = remove key c.entries;
  bytes = c.bytes - asset.size;
}

unfoldable pub remove_key : Key → AssetCache → AssetCache
remove_key key c = remove_found key (get key c.entries) c

-- `move_to_end`.
unfoldable pub move_to_end : Key → CachedAsset → Assets → Assets
move_to_end key asset m = put key asset (remove key m)

abbrev pub lookup_found :
    Key → ℕ → Option CachedAsset → AssetCache → Option CachedAsset × AssetCache
lookup_found key now none c = (none, c)
lookup_found key now (some asset) c =
    if leb asset.expires_at now
    then (none, remove_key key c)
    else (some asset, record c { entries = move_to_end key asset c.entries })

unfoldable pub lookup : Option String → Request → ℕ → AssetCache → Option CachedAsset × AssetCache
unfolding remove_key move_to_end
lookup site r now c =
    if is_cacheable r
    then lookup_found (site, r.url) now (get (site, r.url) c.entries) c
    else (none, c)

abbrev pub is_missing : Option CachedAsset → Bool
is_missing none = true
is_missing (some _) = false

unfoldable pub wants : Option String → ℕ → Request → AssetCache → Bool
wants site status r c =
    nat_eq status 200 && is_cacheable r && is_missing (get (site, r.url) c.entries)

-- `while self._bytes > self._max_bytes: self._remove(next(iter(self._entries)))`: nothing for the
-- `StopIteration` of an empty cache.
unfoldable pub evict : ℕ → Assets → ℕ → Option (Assets × ℕ)
evict max_bytes [] bytes = if ltb max_bytes bytes then none else some ([], bytes)
evict max_bytes ((key, asset) ∷ m) bytes =
    let rest = evict max_bytes m (bytes - asset.size) in
    if ltb max_bytes bytes then rest else some ((key, asset) ∷ m, bytes)

unfoldable pub clear : AssetCache → AssetCache
clear c = record c { entries = []; bytes = 0 }
