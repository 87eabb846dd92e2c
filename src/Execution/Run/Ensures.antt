-- ===== src/Execution/Run/Ensures.antt =====
-- Invariants of actions, step by step, and the invariant of a running program.
use fast_rules.Base.{◌≤◌, ◌≡◌, Bool, true, false, All, length, if◌then◌else◌}
use fast_rules.Counters.Balance.{IsBalanced}
use fast_rules.Result.{Results, nil, cons, RuleResult, is_success, all_fully_successful}
use fast_rules.Execution.Cache.{Cache, max_cache_entries}
use fast_rules.Execution.World.{World, Action, ◌>>=◌, next, Outcome, done, raise}

-- From a world with `P`, the action leads to a world with `P` and to a result with `Q`.
abbrev pub Ensures : {E F A : Type 0} → (World E F → Type 0) → (A → Type 0) → Action E F A → Type 0
Ensures {E} {F} P Q m = (w : World E F) → P w → Q (m w).0 × P (m w).1

abbrev pub Anything : {A : Type 0} → A → Type 0
Anything a = Unit {0}

module _ {E F : Type 0} {P : World E F → Type 0} where
  pub bind-Ensures :
      {A B : Type 0} (Q : A → Type 0) (R : B → Type 0) (m : Action E F A) (f : A → Action E F B)
      → Ensures P Q m
      → ((a : A) → Q a → Ensures P R (f a))
      → Ensures P R (m >>= f)
  bind-Ensures Q R m f first rest w h = rest (m w).0 (first w h).0 (m w).1 (first w h).1

  pub if-Ensures :
      {A : Type 0} (Q : A → Type 0) (b : Bool) (m k : Action E F A)
      → Ensures P Q m
      → Ensures P Q k
      → Ensures P Q (if b then m else k)
  if-Ensures Q true m k hm hk = hm
  if-Ensures Q false m k hm hk = hk

  pub next-Ensures :
      {A B : Type 0} (f : A → Action E F (Outcome B)) (o : Outcome A)
      → ((a : A) → Ensures P Anything (f a))
      → Ensures P Anything (next f o)
  next-Ensures f (done a) h w p = h a w p
  next-Ensures f (raise e) h w p = (tt, p)

-- A result that counts as a success counts as one with everything below it.
abbrev pub IsSound : RuleResult → Type 0
IsSound r = is_success r.head ≡ true → all_fully_successful r.child_results ≡ true

abbrev pub AllSound : Results → Type 0
AllSound nil = Unit {0}
AllSound (cons h below rest) =
    (is_success h ≡ true → all_fully_successful below ≡ true) × AllSound rest

-- A cache is within its bound and holds sound results.
abbrev pub IsGoodCache : Cache → Type 0
IsGoodCache c = (length c.entries ≤ max_cache_entries) × All (λ e. IsSound e.1.result) c.entries

abbrev pub IsWellFormed : {E F : Type 0} → World E F → Type 0
IsWellFormed w = IsBalanced w.counters × All (λ e. IsGoodCache e.1) w.caches
