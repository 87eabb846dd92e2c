-- ===== src/Limiter.antt =====
-- src/rate_limiter.cpp and include/fastrules/rate_limiter.hpp: the sliding-window rate limiter.
-- Times are nanoseconds of the steady clock. A call that reads the clock takes each reading as an
-- argument, in the order of the reads. The locks make each call one step. A window has fewer than
-- 2 ^ 31 entries, so that the casts of its size to `int` keep the value.
pub mod Window
pub mod Calls
pub mod Bounds
use fast_rules.Base.{
  ℕ, ◌+◌, List, [], ◌∷◌, ◌++◌, Bool, true, false, not, ◌&&◌, ◌||◌, Option, none, some, ltb,
  if◌then◌else◌, length,
}
use fast_rules.Base.Int.{ℤ, pos, ltb_ℤ}
use fast_rules.Base.Dict.{Dict, lookup, insert, erase}
use fast_rules.Base.Text.{Text, Text_eq}

abbrev pub second : ℕ
second = 1_000_000_000

abbrev pub minute : ℕ
minute = 60_000_000_000

pub record Config : Type 0 where
  pub rule_name : Text
  pub max_executions_per_second : ℤ
  pub max_executions_per_minute : ℤ
  pub burst_size : ℤ

-- Zero means unlimited.
abbrev pub is_enabled : Config → Bool
is_enabled c =
    ltb_ℤ (pos 0) c.max_executions_per_second || ltb_ℤ (pos 0) c.max_executions_per_minute

-- A window has the oldest entry, the front of the queue, first.
pub record RuleState : Type 0 where
  pub config : Config
  pub second_window : List ℕ
  pub minute_window : List ℕ

abbrev pub RateLimiter : Type 0
RateLimiter = Dict Text RuleState

-- `while (!window.empty() && window.front() < now - period) window.pop();`
unfoldable pub drop_old : ℕ → ℕ → List ℕ → List ℕ
drop_old period now [] = []
drop_old period now (t ∷ ts) = if ltb (t + period) now then drop_old period now ts else t ∷ ts

unfoldable pub cleanup_old_entries : ℕ → RuleState → RuleState
cleanup_old_entries now s = record s {
  second_window = drop_old second now s.second_window;
  minute_window = drop_old minute now s.minute_window;
}

-- The limit that is compared with the entries of the last second.
abbrev pub burst : Config → ℤ
burst c = if ltb_ℤ (pos 0) c.burst_size then c.burst_size else c.max_executions_per_second

unfoldable pub within_second : Config → List ℕ → Bool
within_second c w =
    if ltb_ℤ (pos 0) c.max_executions_per_second then ltb_ℤ (pos (length w)) (burst c) else true

unfoldable pub within_minute : Config → List ℕ → Bool
within_minute c w =
    if ltb_ℤ (pos 0) c.max_executions_per_minute
    then ltb_ℤ (pos (length w)) c.max_executions_per_minute
    else true

abbrev pub record_at : ℕ → RuleState → RuleState
record_at now s = record s {
  second_window = s.second_window ++ now ∷ [];
  minute_window = s.minute_window ++ now ∷ [];
}

-- The part of `isAllowed` behind the lookup, on a state that is cleaned up already.
unfoldable pub check_windows : ℕ → RuleState → Bool × RuleState
unfolding within_second within_minute
check_windows now s =
    if not (is_enabled s.config)
    then (true, s)
    else if not (within_second s.config s.second_window)
    then (false, s)
    else if not (within_minute s.config s.minute_window)
    then (false, s)
    else (true, record_at now s)

-- `cleaned` is the clock in `cleanupOldEntries`, `now` the later reading.
unfoldable pub allow : ℕ → ℕ → RuleState → Bool × RuleState
unfolding cleanup_old_entries check_windows
allow cleaned now s = check_windows now (cleanup_old_entries cleaned s)

unfoldable pub is_allowed : ℕ → ℕ → Text → RateLimiter → Bool × RateLimiter
unfolding allow
is_allowed cleaned now name l = elim (lookup name l) [
  | none ↦ (true, l)
  | some s ↦ let (ok, s') = allow cleaned now s in (ok, insert name s' l)
]

abbrev blank : RuleState
blank = record {
  config = record {
    rule_name = [];
    max_executions_per_second = pos 0;
    max_executions_per_minute = pos 0;
    burst_size = pos 0;
  };
  second_window = [];
  minute_window = [];
}

-- `states_[name].config = config`: the windows of a rule that is known stay.
unfoldable pub configure : Config → RateLimiter → RateLimiter
configure c l = elim (lookup c.rule_name l) [
  | none ↦ insert c.rule_name (record blank { config = c }) l
  | some s ↦ insert c.rule_name (record s { config = c }) l
]

unfoldable pub remove : Text → RateLimiter → RateLimiter
remove name l = erase name l

unfoldable pub reset : RateLimiter → RateLimiter
reset l = []

-- The metrics clean up too, through a `const_cast`.
unfoldable pub get_current_executions_per_second : ℕ → Text → RateLimiter → ℕ × RateLimiter
unfolding cleanup_old_entries
get_current_executions_per_second now name l = elim (lookup name l) [
  | none ↦ (0, l)
  | some s ↦ let s' = cleanup_old_entries now s in (length s'.second_window, insert name s' l)
]

unfoldable pub get_current_executions_per_minute : ℕ → Text → RateLimiter → ℕ × RateLimiter
unfolding cleanup_old_entries
get_current_executions_per_minute now name l = elim (lookup name l) [
  | none ↦ (0, l)
  | some s ↦ let s' = cleanup_old_entries now s in (length s'.minute_window, insert name s' l)
]
