-- ===== src/Execution/Run/Caches.antt =====
-- The operations on caches keep them good.
use fast_rules.Base.{
  ℕ, ◌≡◌, refl, Bool, true, false, All, length, Option, none, some, [], ◌∷◌, if◌then◌else◌, ◌==◌,
  ℕ_eq, arith, Bool-cases, inl, inr, ltb, leb, keep, ◌&&◌, Eq,
}
use fast_rules.Base.Dict.{Dict, lookup, insert, erase}
use fast_rules.Base.Int.{ℤ_eq}
use fast_rules.Base.Text.{Text, Text_eq}
use fast_rules.Result.{RuleResult, is_none}
use fast_rules.Execution.Cache.{
  Cache, CacheEntry, max_cache_entries, new_cache, store_in_cache, find_cached, make_room,
  drop_expired, evict_oldest, oldest,
}
use fast_rules.Execution.Cache.Bounds.{length-store_in_cache-le, length-erase-le}
use fast_rules.Execution.World.{World, cache_of, get_or}
use fast_rules.Execution.Run.Ensures.{IsSound, IsGoodCache, IsWellFormed}

module _ {K : Type 0} {V : Type 0} ⦃c : Eq K⦄ (P : V → Type 0) where
  pub All-insert :
      (k : K) (v : V) (d : Dict K V) → P v → All (λ e. P e.1) d → All (λ e. P e.1) (insert k v d)
  unfolding insert
  All-insert k v [] p h = (p, tt)
  All-insert k v (e ∷ d) p h = elim (Bool-cases (e.0 == k)) [
    | inl t ↦ rw t (p, h.1)
    | inr f ↦ rw f (h.0, All-insert k v d p h.1)
  ]

  pub All-erase : (k : K) (d : Dict K V) → All (λ e. P e.1) d → All (λ e. P e.1) (erase k d)
  unfolding erase
  All-erase k [] h = tt
  All-erase k (e ∷ d) h = elim (Bool-cases (e.0 == k)) [
    | inl t ↦ rw t (All-erase k d h.1)
    | inr f ↦ rw f (h.0, All-erase k d h.1)
  ]

  pub All-keep :
      (p : K × V → Bool) (d : Dict K V) → All (λ e. P e.1) d → All (λ e. P e.1) (keep p d)
  All-keep p [] h = tt
  All-keep p (e ∷ d) h = elim (Bool-cases (p e)) [
    | inl t ↦ rw t (h.0, All-keep p d h.1)
    | inr f ↦ rw f (All-keep p d h.1)
  ]

  pub All-lookup : (k : K) (v : V) (d : Dict K V) → lookup k d ≡ some v → All (λ e. P e.1) d → P v
  unfolding lookup
  All-lookup k v [] e h = cc
  All-lookup k v (x ∷ d) e h = elim (Bool-cases (x.0 == k)) [
    | inl t ↦ let q : some x.1 ≡ some v = rw t at e in ground (arith, q, h.0)
    | inr f ↦ All-lookup k v d (rw f at e) h.1
  ]

get_or-IsGoodCache :
    (o : Option Cache)
    → ((c : Cache) → o ≡ some c → IsGoodCache c)
    → IsGoodCache (get_or new_cache o)
get_or-IsGoodCache none h = (omega arith, tt)
get_or-IsGoodCache (some c) h = h c refl

pub cache_of-IsGoodCache :
    {E F : Type 0} (self : ℕ) (w : World E F) → IsWellFormed w → IsGoodCache (cache_of self w)
cache_of-IsGoodCache self w h =
    get_or-IsGoodCache (lookup self w.caches) (λ c e. All-lookup IsGoodCache self c w.caches e h.1)

abbrev AllSoundEntries : Dict Text CacheEntry → Type 0
AllSoundEntries d = All (λ e. IsSound e.1.result) d

evict_oldest_sound :
    (d : Dict Text CacheEntry) → AllSoundEntries d → AllSoundEntries (evict_oldest d)
unfolding evict_oldest
evict_oldest_sound [] h = tt
evict_oldest_sound (e ∷ d) h = All-erase (λ x. IsSound x.result) (oldest e d) (e ∷ d) h

if_sound :
    (b : Bool) (d d' : Dict Text CacheEntry)
    → AllSoundEntries d
    → AllSoundEntries d'
    → AllSoundEntries (if b then d else d')
if_sound true d d' h h' = h
if_sound false d d' h h' = h'

make_room_sound :
    (now : ℕ) (key : Text) (d : Dict Text CacheEntry)
    → AllSoundEntries d
    → AllSoundEntries (make_room now key d)
unfolding make_room drop_expired
make_room_sound now key d h =
    let live = drop_expired now d in
    let kept = All-keep (λ e. IsSound e.result) (λ e. ltb now e.1.expires_at) d h in
    if_sound (leb max_cache_entries (length d) && is_none (lookup key d))
      (if leb max_cache_entries (length live) then evict_oldest live else live) d
      (if_sound (leb max_cache_entries (length live)) (evict_oldest live) live
        (evict_oldest_sound live kept) kept)
      h

pub store_in_cache-IsGoodCache :
    (now period : ℕ) (key : Text) (r : RuleResult) (c : Cache)
    → IsSound r
    → IsGoodCache c
    → IsGoodCache (store_in_cache now period key r c)
unfolding store_in_cache
store_in_cache-IsGoodCache now period key r c s h = (
  length-store_in_cache-le now period key r c h.0,
  All-insert (λ e. IsSound e.result) key _ (make_room now key c.entries) s
      (make_room_sound now key c.entries h.1),
)

-- What a lookup returns.
abbrev pub IsSoundOption : Option RuleResult → Type 0
IsSoundOption none = Unit {0}
IsSoundOption (some r) = IsSound r

pub find_cached-IsGoodCache :
    (now : ℕ) (key : Text) (c : Cache)
    → IsGoodCache c
    → IsSoundOption (find_cached now key c).0 × IsGoodCache (find_cached now key c).1
unfolding find_cached
find_cached-IsGoodCache now key c h = go (lookup key c.entries) refl
  where
    good : Option RuleResult × Cache → Type 0
    good found = IsSoundOption found.0 × IsGoodCache found.1

    choose :
        (x : CacheEntry) (b : Bool)
        → IsSound x.result
        → good
            (if b then (some x.result, c) else (none, record c { entries = erase key c.entries }))
    choose x true s = (s, h)
    choose x false s = (
      tt,
      (
        omega (arith, length-erase-le key c.entries, h.0),
        All-erase (λ y. IsSound y.result) key c.entries h.1,
      ),
    )

    go :
        (o : Option CacheEntry)
        → lookup key c.entries ≡ o
        → good (elim o [
          | none ↦ (none, c)
          | some e ↦
              if ltb now e.expires_at && (e.generation == c.generation)
              then (some e.result, c)
              else (none, record c { entries = erase key c.entries })
        ])
    go none e = (tt, h)
    go (some x) e =
        choose x (ltb now x.expires_at && (x.generation == c.generation))
          (All-lookup (λ y. IsSound y.result) key x c.entries e h.1)
