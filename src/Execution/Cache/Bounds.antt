-- ===== src/Execution/Cache/Bounds.antt =====
-- How large a cache grows, and what it returns.
use fast_rules.Base.{
  ℕ, suc, ◌+◌, ◌≤◌, ◌<◌, ◌≡◌, refl, [], ◌∷◌, false, none, some, if◌then◌else◌, ltb, eq_iff, eq_refl,
  length, length-keep-le, arith,
}
use fast_rules.Base.Int.{ℤ_eq}
use fast_rules.Base.Dict.{Dict, lookup, insert, erase, lookup-insert_self, length-insert-le}
use fast_rules.Base.Text.{Text, Text_eq}
use fast_rules.Result.{RuleResult, is_none}
use fast_rules.Execution.Cache.{
  CacheEntry, Cache, max_cache_entries, drop_expired, oldest, evict_oldest, make_room,
  store_in_cache, find_cached, invalidate_cache,
}

pub length-erase-le : (k : Text) (d : Dict Text CacheEntry) → length (erase k d) ≤ length d
unfolding erase
length-erase-le k [] = omega arith
length-erase-le k (e ∷ d) = ground (arith, length-erase-le k d)

-- Erasing a key that is there makes the map smaller.
length-erase-lt :
    (k : Text) (d : Dict Text CacheEntry)
    → is_none (lookup k d) ≡ false
    → length (erase k d) < length d
unfolding erase lookup
length-erase-lt k [] h = cc
length-erase-lt k (e ∷ d) h = ground (arith, length-erase-lt k d, length-erase-le k d)

lookup-oldest :
    (e : Text × CacheEntry) (d : Dict Text CacheEntry)
    → is_none (lookup (oldest e d) (e ∷ d)) ≡ false
unfolding lookup
lookup-oldest e [] = ground (arith, eq_refl e.0)
lookup-oldest e (f ∷ d) =
    ground (
      arith,
      lookup-oldest e d,
      lookup-oldest f d,
      eq_iff e.0 (oldest f d),
      eq_iff e.0 (oldest e d),
    )

evict_oldest-lt :
    (n : ℕ) (d : Dict Text CacheEntry) → length d ≤ suc n → length (evict_oldest d) ≤ n
unfolding evict_oldest
evict_oldest-lt n [] h = omega arith
evict_oldest-lt n (e ∷ d) h =
    omega (arith, length-erase-lt (oldest e d) (e ∷ d) (lookup-oldest e d))

length-insert_known :
    (k : Text) (v : CacheEntry) (d : Dict Text CacheEntry)
    → is_none (lookup k d) ≡ false
    → length (insert k v d) ≡ length d
unfolding lookup insert
length-insert_known k v [] h = cc
length-insert_known k v (e ∷ d) h = ground (arith, length-insert_known k v d)

make_room-le :
    (now : ℕ) (key : Text) (v : CacheEntry) (d : Dict Text CacheEntry)
    → length d ≤ max_cache_entries
    → length (insert key v (make_room now key d)) ≤ max_cache_entries
unfolding make_room drop_expired
make_room-le now key v d h = ground (
  arith,
  length-insert-le key v (make_room now key d),
  length-insert_known key v d,
  evict_oldest-lt 1023 (drop_expired now d),
  length-keep-le (λ e. ltb now e.1.expires_at) d,
)

-- Storing a result in a cache of at most 1024 entries leaves at most 1024.
pub length-store_in_cache-le :
    (now period : ℕ) (key : Text) (r : RuleResult) (c : Cache)
    → length c.entries ≤ max_cache_entries
    → length (store_in_cache now period key r c).entries ≤ max_cache_entries
unfolding store_in_cache
length-store_in_cache-le now period key r c h = make_room-le now key _ c.entries h

-- A result that was stored is found under its key until it expires, and not from then on; after
-- the cache has been invalidated it is not found at all.
pub find_cached-store_in_cache :
    (now period later : ℕ) (key : Text) (r : RuleResult) (c : Cache)
    → ((find_cached later key (store_in_cache now period key r c)).0
        ≡ (if ltb later (now + period) then some r else none))
      × ((find_cached later key (invalidate_cache (store_in_cache now period key r c)).1).0 ≡ none)
unfolding store_in_cache find_cached invalidate_cache
find_cached-store_in_cache now period later key r c = (
  ground (
    arith,
    lookup-insert_self key
        (record { result = r; expires_at = now + period; generation = c.generation })
        (make_room now key c.entries),
    eq_refl c.generation,
  ),
  refl,
)
