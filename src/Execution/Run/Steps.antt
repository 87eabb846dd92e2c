-- ===== src/Execution/Run/Steps.antt =====
-- The steps of the `try` block keep the program well-formed, and the results sound.
use fast_rules.Base.{
  ℕ, ℕ_eq, ◌≡◌, refl, Bool, true, false, Option, none, some, List, if◌then◌else◌, is_empty, arith,
  ◌++◌, Bool-cases, inl, inr,
}
use fast_rules.Base.Text.{Text, codes, Text_eq}
use fast_rules.Counters.{record_execution}
use fast_rules.Counters.Balance.{record_execution-IsBalanced}
use fast_rules.Parameters.{Platform, RuleParameter}
use fast_rules.Result.{Head, Results, nil, cons, RuleResult, is_success, all_fully_successful}
use fast_rules.Rule.{Info, Rules}
use fast_rules.Execution.Cache.{cache_period, store_in_cache}
use fast_rules.Execution.Key.{build_cache_key}
use fast_rules.Execution.World.{World, pure, Outcome, done, raise, LuaEngine, cache_of}
use fast_rules.Execution.Run.{
  Flow, returned, fell, caught, new_result, failed_result, skipped_result, first_failed, store_for,
  store, set_failure, fail_early, after_action, after_expression, evaluate_own, after_children,
  with_metrics, evaluate_expression, execute_action,
}
use fast_rules.Execution.Run.Ensures.{
  Ensures, Anything, bind-Ensures, if-Ensures, IsSound, AllSound, IsGoodCache, IsWellFormed,
}
use fast_rules.Execution.Run.Caches.{All-insert, cache_of-IsGoodCache, store_in_cache-IsGoodCache}
use fast_rules.Execution.Run.Quiet.{IsQuiet, evaluate_expression-IsQuiet, execute_action-IsQuiet}

-- The result that the `try` block leaves behind; an exception makes it a failure later on.
abbrev pub IsSoundFlow : Flow → Type 0
IsSoundFlow (returned res) = IsSound res
IsSoundFlow (fell res) = IsSound res
IsSoundFlow (caught e res) = Unit {0}

pub failed-IsSound : (message : Text) (res : RuleResult) → IsSound (failed_result message res)
unfolding is_success
failed-IsSound message res = cc

pub skipped-IsSound : (r : Info) (n : ℕ) → IsSound (skipped_result (new_result r n))
unfolding is_success
skipped-IsSound r n = cc

pub with_metrics-IsSound :
    (start end : ℕ) (res : RuleResult) → IsSound res → IsSound (with_metrics start end res)
unfolding is_success
with_metrics-IsSound start end res s = s

pub first_failed-none :
    (rs : Results) → AllSound rs → first_failed rs ≡ none → all_fully_successful rs ≡ true
unfolding first_failed all_fully_successful
first_failed-none nil s e = refl
first_failed-none (cons h below rs) s e = ground (arith, s.0, first_failed-none rs s.1)

module _ {E F : Type 0} (platform : Platform F) (lua : LuaEngine E F) where
  pub counted :
      (a b c d e : Bool) (w : World E F)
      → IsWellFormed w
      → IsWellFormed (record w { counters = record_execution a b c d e w.counters })
  counted a b c d e w h = (record_execution-IsBalanced a b c d e w.counters h.0, h.1)

  store_for-IsQuiet :
      (period : Option ℕ) (r : Info) (ps : List (RuleParameter F)) (res : RuleResult)
      → IsSound res
      → IsQuiet (store_for platform lua period r ps res)
  unfolding store_for
  store_for-IsQuiet none r ps res s w h = (tt, h)
  store_for-IsQuiet (some period) r ps res s w h =
      let now = platform.clock w.readings in
      (
        tt,
        (
          h.0,
          All-insert IsGoodCache r.self
              (store_in_cache now period (build_cache_key platform r ps) res (cache_of r.self w))
              w.caches
              (store_in_cache-IsGoodCache now period (build_cache_key platform r ps) res
                (cache_of r.self w) s (cache_of-IsGoodCache r.self w h))
              h.1,
        ),
      )

  pub store-IsQuiet :
      (r : Info) (ps : List (RuleParameter F)) (res : RuleResult)
      → IsSound res
      → IsQuiet (store platform lua r ps res)
  unfolding store
  store-IsQuiet r ps res s = store_for-IsQuiet (cache_period r.cache_duration) r ps res s

  pub set_failure-IsSound :
      (res : RuleResult) (message : Text) (b : Bool)
      → Ensures IsWellFormed IsSound (set_failure platform lua res message b)
  unfolding set_failure
  set_failure-IsSound res message b w h = elim (Bool-cases res.skipped) [
    | inl t ↦ (failed-IsSound message res, rw t (counted false true false false false w h))
    | inr f ↦ (failed-IsSound message res, rw f (counted false false b false false w h))
  ]

  fail_early_sound :
      (r : Info) (ps : List (RuleParameter F)) (res : RuleResult) (message : Text)
      → Ensures IsWellFormed IsSoundFlow (fail_early platform lua r ps res message)
  unfolding fail_early
  fail_early_sound r ps res message w h =
      let m = set_failure platform lua res message false w in
      let failed = set_failure-IsSound res message false w h in
      (failed.0, (store-IsQuiet r ps m.0 failed.0 m.1 failed.1).1)

  -- The children are all right, so the rule's own success makes the whole result one.
  abbrev pub IsReady : RuleResult → Type 0
  IsReady res = all_fully_successful res.child_results ≡ true

  after_action_sound :
      (res : RuleResult) (o : Outcome (Unit {0}))
      → IsReady res
      → Ensures IsWellFormed IsSoundFlow (after_action platform lua res o)
  unfolding after_action
  after_action_sound res (raise e) ready w h = (tt, h)
  after_action_sound res (done _) ready w h = (λ _. ready, counted true false false false false w h)

  after_expression_sound :
      (r : Info) (kids : Rules) (ps : List (RuleParameter F)) (res : RuleResult) (o : Outcome Bool)
      → IsReady res
      → Ensures IsWellFormed IsSoundFlow (after_expression platform lua r kids ps res o)
  unfolding after_expression
  after_expression_sound r kids ps res (raise e) ready w h = (tt, h)
  after_expression_sound r kids ps res (done false) ready w h =
      fail_early_sound r ps res (codes "Expression evaluated to false") w h
  after_expression_sound r kids ps res (done true) ready w h =
      bind-Ensures Anything IsSoundFlow
        (if is_empty r.action then pure (done tt) else execute_action platform lua r kids ps)
        (after_action platform lua res)
        (if-Ensures Anything (is_empty r.action) (pure (done tt))
          (execute_action platform lua r kids ps) (λ v q. (tt, q))
          (execute_action-IsQuiet platform lua r kids ps))
        (λ o _. after_action_sound res o ready) w h

  evaluate_own_sound :
      (r : Info) (kids : Rules) (ps : List (RuleParameter F)) (res : RuleResult)
      → IsReady res
      → Ensures IsWellFormed IsSoundFlow (evaluate_own platform lua r kids ps res)
  unfolding evaluate_own
  evaluate_own_sound r kids ps res ready =
      bind-Ensures Anything IsSoundFlow
        (if is_empty r.expression
          then pure (done true)
          else evaluate_expression platform lua r kids ps)
        (after_expression platform lua r kids ps res)
        (if-Ensures Anything (is_empty r.expression) (pure (done true))
          (evaluate_expression platform lua r kids ps) (λ v q. (tt, q))
          (evaluate_expression-IsQuiet platform lua r kids ps))
        (λ o _. after_expression_sound r kids ps res o ready)

  pub after_children_sound :
      (r : Info) (kids : Rules) (ps : List (RuleParameter F)) (res : RuleResult) (o : Option Head)
      → (o ≡ none → IsReady res)
      → Ensures IsWellFormed IsSoundFlow (after_children platform lua r kids ps res o)
  unfolding after_children
  after_children_sound r kids ps res none ready = evaluate_own_sound r kids ps res (ready refl)
  after_children_sound r kids ps res (some g) ready =
      fail_early_sound r ps res (codes "Child rule " ++ g.rule_name ++ codes " failed")
