-- ===== src/Execution/Run/Quiet.antt =====
-- Compiling and asking the engine leave the caches and the counters alone.
use fast_rules.Base.{
  ℕ, Bool, true, false, Option, none, some, List, if◌then◌else◌, ◌==◌, is_empty, not,
}
use fast_rules.Base.Int.{ℤ, negsuc, ℤ_eq}
use fast_rules.Base.Text.{Text}
use fast_rules.Expression.{validate}
use fast_rules.Parameters.{Platform, RuleParameter}
use fast_rules.Rule.{Info, Rules, nil, cons}
use fast_rules.Execution.Compile.{
  compile_expression_part, compile_action_part, compile_new, compile_unless, found_expression,
  found_action, after_children, after_action, after_expression, compile_with, compile_rules,
  compile, get_expression_ref, get_action_ref, lookup_compilation, store_compilation,
}
use fast_rules.Execution.World.{
  World, Action, next, Outcome, done, raise, LuaEngine, ask_engine, ask_limiter, EngineCompilation,
}
use fast_rules.Execution.Run.{evaluate_expression, execute_action, evaluate_chunk, execute_chunk}
use fast_rules.Execution.Run.Ensures.{
  Ensures, Anything, bind-Ensures, if-Ensures, next-Ensures, IsWellFormed,
}

-- The action keeps every well-formed world so.
abbrev pub IsQuiet : {E F A : Type 0} → Action E F A → Type 0
IsQuiet {E} {F} m = Ensures IsWellFormed Anything m

module _ {E F : Type 0} (platform : Platform F) (lua : LuaEngine E F) where
  compile_expression_part-IsQuiet : (r : Info) → IsQuiet (compile_expression_part platform lua r)
  unfolding compile_expression_part
  compile_expression_part-IsQuiet r =
      let v = validate r.expression in
      if-Ensures Anything (is_empty r.expression) _ _ (λ w h. (tt, h))
        (if-Ensures Anything (not v.valid) _ _ (λ w h. (tt, h)) (λ w h. (tt, h)))

  compile_action_part-IsQuiet : (r : Info) → IsQuiet (compile_action_part platform lua r)
  unfolding compile_action_part
  compile_action_part-IsQuiet r =
      let v = validate r.action in
      if-Ensures Anything (is_empty r.action) _ _ (λ w h. (tt, h))
        (if-Ensures Anything (not v.valid) _ _ (λ w h. (tt, h)) (λ w h. (tt, h)))

  store_compilation-IsQuiet :
      (r : Info) (c : EngineCompilation) → IsQuiet (store_compilation platform lua r c)
  unfolding store_compilation
  store_compilation-IsQuiet r c w h = (tt, h)

  after_children-IsQuiet :
      (r : Info) (g : ℤ) (e a : Option ℤ) (o : Outcome (Unit {0}))
      → IsQuiet (after_children platform lua r g e a o)
  unfolding after_children store_compilation
  after_children-IsQuiet r g e a (raise x) w h = (tt, h)
  after_children-IsQuiet r g e a (done _) w h = (tt, h)

  after_action-IsQuiet :
      (r : Info) (children : Action E F (Outcome (Unit {0}))) (g : ℤ) (e : Option ℤ)
      (o : Outcome (Option ℤ))
      → IsQuiet children
      → IsQuiet (after_action platform lua r children g e o)
  unfolding after_action
  after_action-IsQuiet r children g e (raise x) quiet w h = (tt, h)
  after_action-IsQuiet r children g e (done a) quiet w h =
      bind-Ensures Anything Anything children (after_children platform lua r g e a) quiet
        (λ o _. after_children-IsQuiet r g e a o) w h

  after_expression-IsQuiet :
      (r : Info) (children : Action E F (Outcome (Unit {0}))) (g : ℤ) (o : Outcome (Option ℤ))
      → IsQuiet children
      → IsQuiet (after_expression platform lua r children g o)
  unfolding after_expression
  after_expression-IsQuiet r children g (raise x) quiet w h = (tt, h)
  after_expression-IsQuiet r children g (done e) quiet w h =
      bind-Ensures Anything Anything (compile_action_part platform lua r)
        (after_action platform lua r children g e) (compile_action_part-IsQuiet r)
        (λ o _. after_action-IsQuiet r children g e o quiet) w h

  compile_new-IsQuiet :
      (r : Info) (children : Action E F (Outcome (Unit {0})))
      → IsQuiet children
      → IsQuiet (compile_new platform lua r children)
  unfolding compile_new
  compile_new-IsQuiet r children quiet w h =
      bind-Ensures Anything Anything (compile_expression_part platform lua r)
        (after_expression platform lua r children (lua.generation w.engine))
        (compile_expression_part-IsQuiet r)
        (λ o _. after_expression-IsQuiet r children (lua.generation w.engine) o quiet) w h

  compile_unless-IsQuiet :
      (o : Option EngineCompilation) (r : Info) (children : Action E F (Outcome (Unit {0})))
      → IsQuiet children
      → IsQuiet (compile_unless platform lua o r children)
  unfolding compile_unless
  compile_unless-IsQuiet none r children quiet w h = compile_new-IsQuiet r children quiet w h
  compile_unless-IsQuiet (some c) r children quiet w h = (tt, h)

  compile_with-IsQuiet :
      (r : Info) (children : Action E F (Outcome (Unit {0})))
      → IsQuiet children
      → IsQuiet (compile_with platform lua r children)
  unfolding compile_with
  compile_with-IsQuiet r children quiet w h =
      compile_unless-IsQuiet (lookup_compilation platform lua r w) r children quiet w h

  compile_rules-IsQuiet : (rs : Rules) → IsQuiet (compile_rules platform lua rs)
  unfolding compile_rules
  compile_rules-IsQuiet nil w p = (tt, p)
  compile_rules-IsQuiet (cons r kids rest) w p =
      bind-Ensures Anything Anything (compile_with platform lua r (compile_rules platform lua kids))
        (next (λ _. compile_rules platform lua rest))
        (compile_with-IsQuiet r (compile_rules platform lua kids) (compile_rules-IsQuiet kids))
        (λ o _.
          next-Ensures (λ _. compile_rules platform lua rest) o (λ _. compile_rules-IsQuiet rest))
        w p

  compile-IsQuiet : (r : Info) (kids : Rules) → IsQuiet (compile platform lua r kids)
  unfolding compile
  compile-IsQuiet r kids =
      compile_with-IsQuiet r (compile_rules platform lua kids) (compile_rules-IsQuiet kids)

  get_expression_ref-IsQuiet :
      (r : Info) (kids : Rules) → IsQuiet (get_expression_ref platform lua r kids)
  unfolding get_expression_ref found_expression
  get_expression_ref-IsQuiet r kids =
      bind-Ensures Anything Anything (compile platform lua r kids)
        (next (found_expression platform lua r)) (compile-IsQuiet r kids)
        (λ o _. next-Ensures (found_expression platform lua r) o (λ _ w h. (tt, h)))

  get_action_ref-IsQuiet : (r : Info) (kids : Rules) → IsQuiet (get_action_ref platform lua r kids)
  unfolding get_action_ref found_action
  get_action_ref-IsQuiet r kids =
      bind-Ensures Anything Anything (compile platform lua r kids)
        (next (found_action platform lua r)) (compile-IsQuiet r kids)
        (λ o _. next-Ensures (found_action platform lua r) o (λ _ w h. (tt, h)))

  if-quiet :
      {A : Type 0} (b : Bool) (x y : A × World E F)
      → IsWellFormed x.1
      → IsWellFormed y.1
      → IsWellFormed (if b then x else y).1
  if-quiet true x y h h' = h
  if-quiet false x y h h' = h'

  pub evaluate_expression-IsQuiet :
      (r : Info) (kids : Rules) (ps : List (RuleParameter F))
      → IsQuiet (evaluate_expression platform lua r kids ps)
  unfolding evaluate_expression
  evaluate_expression-IsQuiet r kids ps =
      bind-Ensures Anything Anything (get_expression_ref platform lua r kids)
        (next (evaluate_chunk platform lua r ps)) (get_expression_ref-IsQuiet r kids)
        (λ o _. next-Ensures (evaluate_chunk platform lua r ps) o (λ ref w h. (
          tt,
          if-quiet (ref == negsuc 0) (done true, w)
              (ask_engine (lua.evaluate_expression ref ps w.context r.timeout) w) h h,
        )))

  pub execute_action-IsQuiet :
      (r : Info) (kids : Rules) (ps : List (RuleParameter F))
      → IsQuiet (execute_action platform lua r kids ps)
  unfolding execute_action
  execute_action-IsQuiet r kids ps =
      bind-Ensures Anything Anything (get_action_ref platform lua r kids)
        (next (execute_chunk platform lua r ps)) (get_action_ref-IsQuiet r kids)
        (λ o _. next-Ensures (execute_chunk platform lua r ps) o (λ ref w h. (
          tt,
          if-quiet (ref == negsuc 0) (done tt, w)
              (ask_engine (lua.execute_action ref ps w.context r.timeout) w) h h,
        )))

  pub ask_limiter-IsQuiet :
      (which : Option ℕ) (name : Text) → IsQuiet {E = E} {F = F} (ask_limiter platform which name)
  unfolding ask_limiter
  ask_limiter-IsQuiet none name w h = (tt, h)
  ask_limiter-IsQuiet (some a) name w h = (tt, h)
