-- ===== src/Execution/Cache.antt =====
-- The result cache of one rule: `cache_`, `cacheGeneration_`, storeInCache, invalidateCache and the
-- lookup at the head of Rule::execute, of src/rule.cpp. Times are nanoseconds.
pub mod Bounds
use fast_rules.Base.{
  ℕ, ◌+◌, ◌*◌, List, [], ◌∷◌, Bool, true, false, ◌&&◌, Option, none, some, if◌then◌else◌, ltb, leb,
  ◌==◌, length, keep,
}
use fast_rules.Base.Int.{ℤ, pos, negsuc, inc, ℤ_eq, ltb_ℤ}
use fast_rules.Base.Dict.{Dict, lookup, insert, erase}
use fast_rules.Base.Text.{Text, Text_eq}
use fast_rules.Result.{RuleResult, is_none}

pub record CacheEntry : Type 0 where
  pub result : RuleResult
  pub expires_at : ℕ
  pub generation : ℤ

pub record Cache : Type 0 where
  pub entries : Dict Text CacheEntry
  pub generation : ℤ

abbrev pub new_cache : Cache
new_cache = record { entries = []; generation = pos 0 }

abbrev pub max_cache_entries : ℕ
max_cache_entries = 1024

-- `cacheDuration.has_value() && cacheDuration->count() > 0`, in nanoseconds.
unfoldable pub cache_period : Option ℤ → Option ℕ
cache_period none = none
cache_period (some (negsuc n)) = none
cache_period (some (pos n)) = if ltb 0 n then some (n * 1_000_000) else none

unfoldable pub drop_expired : ℕ → Dict Text CacheEntry → Dict Text CacheEntry
drop_expired now d = keep (λ e. ltb now e.1.expires_at) d

-- The key of the entry that expires first. Of several, the one that comes first goes; the order is
-- that of the map's iteration.
abbrev pub oldest : Text × CacheEntry → Dict Text CacheEntry → Text
oldest best [] = best.0
oldest best (e ∷ d) =
    let keep_best = oldest best d in
    let take_it = oldest e d in if ltb e.1.expires_at best.1.expires_at then take_it else keep_best

unfoldable pub evict_oldest : Dict Text CacheEntry → Dict Text CacheEntry
unfolding erase
evict_oldest [] = []
evict_oldest (e ∷ d) = erase (oldest e d) (e ∷ d)

unfoldable pub make_room : ℕ → Text → Dict Text CacheEntry → Dict Text CacheEntry
unfolding drop_expired evict_oldest lookup
make_room now key d =
    let live = drop_expired now d in
    if leb max_cache_entries (length d) && is_none (lookup key d)
    then if leb max_cache_entries (length live) then evict_oldest live else live
    else d

unfoldable pub store_in_cache : (now period : ℕ) → Text → RuleResult → Cache → Cache
unfolding make_room insert
store_in_cache now period key r c = record c {
  entries =
      insert key (record { result = r; expires_at = now + period; generation = c.generation })
        (make_room now key c.entries);
}

-- The cached result, if it is still valid; an entry that is not is removed.
unfoldable pub find_cached : ℕ → Text → Cache → Option RuleResult × Cache
unfolding lookup erase
find_cached now key c = elim (lookup key c.entries) [
  | none ↦ (none, c)
  | some e ↦
      if ltb now e.expires_at && (e.generation == c.generation)
      then (some e.result, c)
      else (none, record c { entries = erase key c.entries })
]

unfoldable pub invalidate_cache : Cache → ℤ × Cache
invalidate_cache c = (inc c.generation, record { entries = []; generation = inc c.generation })
