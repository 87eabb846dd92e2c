-- ===== src/Limiter/Calls.antt =====
-- Histories of calls of a rate limiter, and what one decision does.
use fast_rules.Base.{
  ℕ, ◌≤◌, ◌<◌, ◌≡◌, refl, ◌⊎◌, inl, inr, List, [], ◌∷◌, ◌++◌, Bool, true, false, some, arith,
  if◌then◌else◌, length, ◌==◌, Option-cases,
}
use fast_rules.Base.Int.{pos, ltb_ℤ}
use fast_rules.Base.Dict.{lookup}
use fast_rules.Base.Text.{Text, Text_eq}
use fast_rules.Limiter.{
  second, minute, Config, RuleState, RateLimiter, drop_old, cleanup_old_entries, burst, allow,
  is_allowed, get_current_executions_per_second, get_current_executions_per_minute,
}
use fast_rules.Limiter.Window.{Tracks}

-- The two windows, and for each its length, its entries and its limit.
pub data Span : Type 0 where
  per_second per_minute : Span

abbrev pub period : Span → ℕ
period per_second = second
period per_minute = minute

abbrev pub window : Span → RuleState → List ℕ
window per_second s = s.second_window
window per_minute s = s.minute_window

-- The span is limited, by `n`: a minute by the executions per minute, and a second by the burst size
-- if one is set, and else by the executions per second.
abbrev pub IsLimited : Span → Config → ℕ → Type 0
IsLimited per_second c n = (ltb_ℤ (pos 0) c.max_executions_per_second ≡ true) × (burst c ≡ pos n)
IsLimited per_minute c n =
    (ltb_ℤ (pos 0) c.max_executions_per_minute ≡ true) × (c.max_executions_per_minute ≡ pos n)

-- A decision keeps the configuration, and a granted one had room in each limited window.
pub record Decides (sp : Span) (n cleaned now : ℕ) (s : RuleState) (r : Bool × RuleState)
    : Type 0 where
  pub config : r.1.config ≡ s.config
  pub outcome :
      (r.0 ≡ true)
        × (length (drop_old (period sp) cleaned (window sp s)) < n)
        × (window sp r.1 ≡ drop_old (period sp) cleaned (window sp s) ++ now ∷ [])
      ⊎ (r.0 ≡ false) × (window sp r.1 ≡ drop_old (period sp) cleaned (window sp s))

pub allow-Decides :
    (sp : Span) (n cleaned now : ℕ) (s : RuleState)
    → IsLimited sp s.config n
    → Decides sp n cleaned now s (allow cleaned now s)
unfolding allow
allow-Decides per_second n cleaned now s h = ground arith
allow-Decides per_minute n cleaned now s h = ground arith

-- What a program may do with a limiter once it is configured.
pub data Call : Type 0 where
  asks : (name : Text) (cleaned now : ℕ) → Call
  reads_second reads_minute : (name : Text) (now : ℕ) → Call

pub cleanup-window :
    (sp : Span) (now : ℕ) (s : RuleState)
    → window sp (cleanup_old_entries now s) ≡ drop_old (period sp) now (window sp s)
unfolding cleanup_old_entries
cleanup-window per_second now s = refl
cleanup-window per_minute now s = refl

pub cleanup-IsLimited :
    (sp : Span) (n now : ℕ) (s : RuleState)
    → IsLimited sp s.config n
    → IsLimited sp (cleanup_old_entries now s).config n
unfolding cleanup_old_entries
cleanup-IsLimited sp n now s h = h

-- The limiter after a call, and the times at which it let `k` run.
unfoldable pub step : Text → RateLimiter → Call → List ℕ × RateLimiter
step k l (asks name cleaned now) =
    let (ok, l') = is_allowed cleaned now name l in
    (if ok then (if name == k then now ∷ [] else []) else [], l')
step k l (reads_second name now) = ([], (get_current_executions_per_second now name l).1)
step k l (reads_minute name now) = ([], (get_current_executions_per_minute now name l).1)

unfoldable pub run : Text → RateLimiter → List Call → List ℕ × RateLimiter
run k l [] = ([], l)
run k l (c ∷ cs) =
    let (now, l') = step k l c in let (later, l'') = run k l' cs in (now ++ later, l'')

-- The first and the last clock reading of a call.
abbrev pub starts : Call → ℕ
starts (asks name cleaned now) = cleaned
starts (reads_second name now) = now
starts (reads_minute name now) = now

abbrev pub ends : Call → ℕ
ends (asks name cleaned now) = now
ends (reads_second name now) = now
ends (reads_minute name now) = now

-- The clock readings of the calls do not go back.
abbrev pub InOrder : ℕ → List Call → Type 0
InOrder lo [] = Unit {0}
InOrder lo (c ∷ cs) = (lo ≤ starts c) × (starts c ≤ ends c) × InOrder (ends c) cs

-- The two metrics leave the limiter in the same state.
pub reads_minute-eq :
    (now : ℕ) (name : Text) (l : RateLimiter)
    → (get_current_executions_per_minute now name l).1
      ≡ (get_current_executions_per_second now name l).1
unfolding get_current_executions_per_second get_current_executions_per_minute
reads_minute-eq now name l = elim (Option-cases (lookup name l)) [
  | inl e ↦ rw (e, get_current_executions_per_second, get_current_executions_per_minute)
  | inr (s, e) ↦ rw (e, get_current_executions_per_second, get_current_executions_per_minute)
]

-- The limiter holds a limited rule `k`, whose window tracks the times `past` at which it ran.
pub record Holds (k : Text) (sp : Span) (n clock : ℕ) (past : List ℕ) (l : RateLimiter)
    : Type 0 where
  pub state : RuleState
  pub found : lookup k l ≡ some state
  pub limited : IsLimited sp state.config n
  pub tracks : Tracks (period sp) n clock past (window sp state)

pub if_same {ℓ} : {A : Type ℓ} (b : Bool) (x : A) → (if b then x else x) ≡ x
if_same true x = refl
if_same false x = refl
