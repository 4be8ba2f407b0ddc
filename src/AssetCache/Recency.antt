-- ===== src/AssetCache/Recency.antt =====
-- What a lookup in src/scrapeyard/engine/asset_cache.py finds.
use scrapeyard.Prelude.{
  ℕ, ◌+◌, ◌≤◌, ◌<◌, ◌≡◌, refl, ap, ◌∙◌, String, true, false, ltb, leb, inl, inr, arith, Option,
  none, some, List, length, text_keys, pair_keys, option_keys, Bool-cases, eq_of_some,
}
use scrapeyard.Prelude.Dict.{Dict, get, put}
use scrapeyard.AssetCache.{
  CachedAsset, Key, AssetCache, Request, is_cacheable, remove_key, lookup_found, lookup,
}
use scrapeyard.AssetCache.Freshness.{Texts, or_empty, freshness_seconds}
use scrapeyard.AssetCache.Store.{Response, insert, is_too_long, make_asset, store}
use scrapeyard.AssetCache.Sizes.{IsSound, sum_sizes-put, evict_lem, evict-put}
use scrapeyard.AssetCache.Bound.{remove_key-IsSound, get-remove_key, limits_kept}
use scrapeyard.Prelude.Dict.{put-IsUnique}

get-insert :
    (key : Key) (asset : CachedAsset) (c : AssetCache)
    → IsSound c
    → asset.size ≤ c.max_bytes
    → (c' : AssetCache) × (insert key asset c ≡ some c') × (get key c'.entries ≡ some asset)
unfolding insert
get-insert key asset c s l =
    let c1 = remove_key key c in
    let s1 = remove_key-IsSound key c s in
    let bytes_then = sum_sizes-put key asset c1.entries (get-remove_key key c) in
    let (m, b, e, u, n, k) =
      evict_lem c1.max_bytes (put key asset c1.entries) (c1.bytes + asset.size)
        (put-IsUnique key asset c1.entries s1.unique) (omega (arith, s1.counted, bytes_then)) in
    (
      record c1 { entries = m; bytes = b },
      rw e refl,
      evict-put c1.max_bytes key asset c1.entries (c1.bytes + asset.size) m b (get-remove_key key c)
          (omega (arith, s1.counted)) (omega (arith, (limits_kept key c).0)) e,
    )

lookup_stored :
    (site : Option String) (r : Request) (now : ℕ) (c : AssetCache) (asset : CachedAsset)
    → is_cacheable r ≡ true
    → get (site, r.url) c.entries ≡ some asset
    → now < asset.expires_at
    → (lookup site r now c).0 ≡ some asset
unfolding lookup
lookup_stored site r now c asset h e l =
    let fresh : leb asset.expires_at now ≡ false = ground arith in rw (h, e, fresh) refl

-- From a sound cache, a response whose headers and body arrive, which may be reused for a time, is
-- within the limit of an entry, and whose entry is within the limit of the cache, is stored: a
-- lookup of the same site and URL by a request that may use the cache finds it with its body and
-- status, until its time is over.
pub lookup-store :
    (x : Texts) (getsizeof : String → ℕ) (site : Option String) (p : Response) (wall now later : ℕ)
    (r : Request) (headers : Dict String String) (lifetime : ℕ) (body : List ℕ) (c : AssetCache)
    → IsSound c
    → p.all_headers ≡ some headers
    → p.body ≡ some body
    → freshness_seconds x wall headers ≡ some lifetime
    → is_too_long c.max_entry_bytes (x.digits (or_empty (get "content-length" headers))) ≡ false
    → length body ≤ c.max_entry_bytes
    → (make_asset x getsizeof site p wall now headers lifetime body).size ≤ c.max_bytes
    → is_cacheable r ≡ true
    → r.url ≡ p.url
    → later < now + lifetime
    → (c' : AssetCache) × (store x getsizeof site p wall now c ≡ some c')
      × ((lookup site r later c').0
          ≡ some (make_asset x getsizeof site p wall now headers lifetime body))
unfolding store
lookup-store x getsizeof site p wall now later r headers lifetime body c s h b f d l fits ok same
      t =
    let asset = make_asset x getsizeof site p wall now headers lifetime body in
    let short : ltb c.max_entry_bytes (length body) ≡ false = ground arith in
    let (c', e, g) = get-insert (site, p.url) asset c s fits in
    (
      c',
      rw (h, f, d, b, short) e,
      lookup_stored site r later c' asset ok (ap (λ u. get (site, u) c'.entries) same ∙ g) t,
    )

-- What a lookup returns has not expired and is what is stored for the site and the URL, and the
-- request was one that may use the cache.
pub lookup_fresh :
    (site : Option String) (r : Request) (now : ℕ) (c : AssetCache) (asset : CachedAsset)
    → (lookup site r now c).0 ≡ some asset
    → (now < asset.expires_at)
      × (is_cacheable r ≡ true)
      × (get (site, r.url) c.entries ≡ some asset)
unfolding lookup
lookup_fresh site r now c asset h = elim (Bool-cases (is_cacheable r)) [
  | inr no_it_is ↦ absurd (let g : none ≡ some asset = (rw no_it_is at h) in cc)
  | inl yes_it_is ↦ found (get (site, r.url) c.entries) refl yes_it_is (rw yes_it_is at h)
]
  where
    found :
        (o : Option CachedAsset)
        → get (site, r.url) c.entries ≡ o
        → is_cacheable r ≡ true
        → (lookup_found (site, r.url) now o c).0 ≡ some asset
        → (now < asset.expires_at)
          × (is_cacheable r ≡ true)
          × (get (site, r.url) c.entries ≡ some asset)
    found none e k g = absurd (cc)
    found (some a) e k g = elim (Bool-cases (leb a.expires_at now)) [
      | inl over ↦ absurd (let g' : none ≡ some asset = (rw over at g) in cc)
      | inr fresh ↦
          let same : a ≡ asset = eq_of_some (rw fresh at g) in
          let times : a.expires_at ≡ asset.expires_at = ap (λ q. q.expires_at) same in
          (ground arith, k, e ∙ ap some same)
    ]
