-- ===== src/Execution/Run/Posted.antt =====
-- A rule that runs leaves its result in the context.
use fast_rules.Base.{
  ℕ, ◌≡◌, refl, Bool, true, false, Option, none, some, List, if◌then◌else◌, is_empty,
}
use fast_rules.Base.Dict.{lookup, lookup-insert_self}
use fast_rules.Base.Text.{Text, Text_eq}
use fast_rules.Context.{set_result}
use fast_rules.Parameters.{Platform, RuleParameter}
use fast_rules.Result.{Head, Results, RuleResult}
use fast_rules.Rule.{Info, Rules, Rule, result_key}
use fast_rules.Execution.Cache.{cache_period}
use fast_rules.Execution.World.{World, Action, pure, Outcome, done, raise, LuaEngine, read_clock}
use fast_rules.Execution.Run.{
  Flow, returned, fell, caught, new_result, first_failed, store_for, store, check_limits,
  check_types, fail_early, after_action, after_expression, evaluate_own, after_children,
  execute_family, after_limits, try_block, handle, with_metrics, skipped_result, finish, after_try,
  execute_active, execute_new, execute_cached, execute_with, execute_child_rules, execute,
  evaluate_expression, execute_action,
}

-- The context of the world holds the result under the rule's key.
abbrev pub IsPosted : {E F : Type 0} → Info → RuleResult → World E F → Type 0
IsPosted r res w = lookup (result_key r) w.context.results ≡ some res

module _ {E F : Type 0} (platform : Platform F) (lua : LuaEngine E F) (r : Info)
    (ps : List (RuleParameter F)) where
  -- A flow that returned left its result behind.
  abbrev HasPosted : Flow → World E F → Type 0
  HasPosted (returned res) w = IsPosted r res w
  HasPosted (fell res) w = Unit {0}
  HasPosted (caught e res) w = Unit {0}

  store_for-context :
      (period : Option ℕ) (res : RuleResult) (w : World E F)
      → (store_for platform lua period r ps res w).1.context ≡ w.context
  unfolding store_for
  store_for-context none res w = refl
  store_for-context (some period) res w = refl

  fail_early-posted :
      (res : RuleResult) (message : Text) (w : World E F)
      → HasPosted
          (fail_early platform lua r ps res message w).0
          (fail_early platform lua r ps res message w).1
  unfolding fail_early set_result
  fail_early-posted res message w = lookup-insert_self (result_key r) _ _

  after_action-posted :
      (res : RuleResult) (o : Outcome (Unit {0})) (w : World E F)
      → HasPosted (after_action platform lua res o w).0 (after_action platform lua res o w).1
  unfolding after_action
  after_action-posted res (raise e) w = tt
  after_action-posted res (done _) w = tt

  after_expression-posted :
      (kids : Rules) (res : RuleResult) (o : Outcome Bool) (w : World E F)
      → HasPosted
          (after_expression platform lua r kids ps res o w).0
          (after_expression platform lua r kids ps res o w).1
  unfolding after_expression
  after_expression-posted kids res (raise e) w = tt
  after_expression-posted kids res (done false) w = fail_early-posted res _ w
  after_expression-posted kids res (done true) w =
      let acted =
        (if is_empty r.action then pure (done tt) else execute_action platform lua r kids ps) w in
      after_action-posted res acted.0 acted.1

  after_children-posted :
      (kids : Rules) (res : RuleResult) (o : Option Head) (w : World E F)
      → HasPosted
          (after_children platform lua r kids ps res o w).0
          (after_children platform lua r kids ps res o w).1
  unfolding after_children evaluate_own
  after_children-posted kids res none w =
      let passed =
        (if is_empty r.expression
            then pure (done true)
            else evaluate_expression platform lua r kids ps)
          w in
      after_expression-posted kids res passed.0 passed.1
  after_children-posted kids res (some g) w = fail_early-posted res _ w

  after_limits-posted :
      (kids : Rules) (run : Action E F Results) (res : RuleResult)
      (limits types : Outcome (Unit {0})) (w : World E F)
      → HasPosted
          (after_limits platform lua r kids run ps res limits types w).0
          (after_limits platform lua r kids run ps res limits types w).1
  unfolding after_limits execute_family
  after_limits-posted kids run res (raise e) types w = tt
  after_limits-posted kids run res (done _) (raise e) w = tt
  after_limits-posted kids run res (done _) (done _) w =
      after_children-posted kids _ (first_failed (run w).0) _

  finish-IsPosted :
      (start : ℕ) (res : RuleResult) (w : World E F)
      → IsPosted r (finish platform lua r ps start res w).0 (finish platform lua r ps start res w).1
  unfolding finish store set_result
  finish-IsPosted start res w =
      rw
        (store_for-context (cache_period r.cache_duration)
          (with_metrics start (platform.clock w.readings) res) _)
        (lookup-insert_self (result_key r) _ _)

  after_try-IsPosted :
      (start : ℕ) (flow : Flow) (w : World E F)
      → HasPosted flow w
      → IsPosted r
          (after_try platform lua r ps start flow w).0
          (after_try platform lua r ps start flow w).1
  unfolding after_try
  after_try-IsPosted start (returned res) w h = h
  after_try-IsPosted start (fell res) w h = finish-IsPosted start res w
  after_try-IsPosted start (caught e res) w h =
      let handled = handle platform lua r e res w in finish-IsPosted start handled.0 handled.1

  execute_active-IsPosted :
      (kids : Rules) (run : Action E F Results) (res : RuleResult) (w : World E F)
      → IsPosted r
          (execute_active platform lua r kids run ps res w).0
          (execute_active platform lua r kids run ps res w).1
  unfolding execute_active try_block
  execute_active-IsPosted kids run res w =
      let limits = check_limits platform lua r (read_clock platform w).1 in
      let flow =
        after_limits platform lua r kids run ps res limits.0 (check_types platform lua ps)
          limits.1 in
      after_try-IsPosted (platform.clock w.readings) flow.0 flow.1
        (after_limits-posted kids run res limits.0 (check_types platform lua ps) limits.1)

if_true :
    {A : Type 0} (Q : A → Type 0) (b : Bool) (x y : A) → b ≡ true → Q x → Q (if b then x else y)
if_true Q true x y e h = h
if_true Q false x y e h = cc

module _ {E F : Type 0} (platform : Platform F) (lua : LuaEngine E F) where
  execute_cached-IsPosted :
      (period : Option ℕ) (q : Rule) (ps : List (RuleParameter F)) (run : Action E F Results)
      (w : World E F)
      → q.is_active ≡ true
      → period ≡ none
      → IsPosted q.info
          (execute_cached platform lua period q.info q.child_rules run ps w).0
          (execute_cached platform lua period q.info q.child_rules run ps w).1
  unfolding execute_cached execute_new
  execute_cached-IsPosted none q ps run w active e =
      let res = new_result q.info (platform.clock w.readings) in
      if_true (λ m. IsPosted q.info (m (read_clock platform w).1).0 (m (read_clock platform w).1).1)
        q.is_active (execute_active platform lua q.info q.child_rules run ps res)
        (pure (skipped_result res)) active
        (execute_active-IsPosted platform lua q.info ps q.child_rules run res
          (read_clock platform w).1)
  execute_cached-IsPosted (some period) q ps run w active e = cc

  -- An active rule whose results are not cached leaves its result in the context, under its key, on
  -- every path: success, failure, a failed child, or any exception.
  pub execute-IsPosted :
      (q : Rule) (ps : List (RuleParameter F)) (w : World E F)
      → q.is_active ≡ true
      → cache_period q.cache_duration ≡ none
      → IsPosted q.info (execute platform lua q ps w).0 (execute platform lua q ps w).1
  unfolding execute execute_with
  execute-IsPosted q ps w active uncached =
      execute_cached-IsPosted (cache_period q.cache_duration) q ps
        (execute_child_rules platform lua q.child_rules ps) w active uncached
