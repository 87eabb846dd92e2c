-- ===== src/Workflow/Traces/Accounts.antt =====
-- What a trace says of the rules of the workflow.
use fast_rules.Base.{
  ℕ, ◌≡◌, refl, ap, ◌∙◌, List, [], ◌∷◌, ◌++◌, Bool, true, false, not, ◌&&◌, Option, none, some,
  if◌then◌else◌, ◌==◌, map, append_assoc, append-nil, Bool-cases, inl, inr,
}
use fast_rules.Base.Text.{Text, Text_eq, codes}
use fast_rules.Context.{get_result}
use fast_rules.Parameters.{RuleParameter, Platform}
use fast_rules.Result.{RuleResult}
use fast_rules.Rule.{Rule}
use fast_rules.Tracer.{ExecutionTraceStep, ExecutionTracer, add_step, record_step}
use fast_rules.Execution.World.{World, LuaEngine}
use fast_rules.Workflow.Runs.{has_succeeded}
use fast_rules.Workflow.Traces.{
  trace_execution, trace_dependency, trace_rule, trace_rules, dependency_step,
}

-- The step that says how a rule ended: any step but a dependency check that was satisfied.
abbrev pub is_closing : ExecutionTraceStep → Bool
is_closing s = not (s.stage == codes "dependency_check" && s.success)

-- The rules whose end the steps report, in the order of the steps.
abbrev pub accounts : List ExecutionTraceStep → List Text
accounts [] = []
accounts (s ∷ ss) = if is_closing s then s.rule_name ∷ accounts ss else accounts ss

accounts-append :
    (ss ss' : List ExecutionTraceStep) → accounts (ss ++ ss') ≡ accounts ss ++ accounts ss'
accounts-append [] ss' = refl
accounts-append (s ∷ ss) ss' = elim (Bool-cases (is_closing s)) [
  | inl t ↦ rw t (ap (◌∷◌ s.rule_name) (accounts-append ss ss'))
  | inr f ↦ rw f (accounts-append ss ss')
]

-- The tracer is active, and accounts for these rules.
abbrev pub AccountsFor : List Text → ExecutionTracer → Type 0
AccountsFor names t = (t.active ≡ true) × (accounts t.trace.steps ≡ names)

add_step-AccountsFor :
    (s : ExecutionTraceStep) (names : List Text) (t : ExecutionTracer)
    → AccountsFor names t
    → AccountsFor (names ++ accounts (s ∷ [])) (add_step s t)
unfolding add_step
add_step-AccountsFor s names t h =
    rw (h.0) (refl, accounts-append t.trace.steps (s ∷ []) ∙ ap (λ l. l ++ accounts (s ∷ [])) h.1)

module _ {E F : Type 0} (platform : Platform F) (lua : LuaEngine E F)
    (ps : List (RuleParameter F)) where
  trace_execution-AccountsFor :
      (q : Rule) (names : List Text) (t : ExecutionTracer) (w : World E F)
      → AccountsFor names t
      → AccountsFor (names ++ q.name ∷ []) (trace_execution platform lua q ps t w).1
  unfolding trace_execution
  trace_execution-AccountsFor q names t w h = add_step-AccountsFor _ names t h

  after_check :
      (b : Bool) (q : Rule) (n : Text) (started ended : ℕ) (names : List Text) (t : ExecutionTracer)
      (w : World E F)
      → AccountsFor names t
      → AccountsFor
          (names ++ q.name ∷ [])
          (if not b
            then (none, add_step (dependency_step q n b started ended) t, w)
            else trace_execution platform lua q ps
                (add_step (dependency_step q n b started ended) t)
                w).1
  after_check false q n started ended names t w h =
      add_step-AccountsFor (dependency_step q n false started ended) names t h
  after_check true q n started ended names t w h =
      let checked : AccountsFor names (add_step (dependency_step q n true started ended) t) =
        rw append-nil at
          (add_step-AccountsFor (dependency_step q n true started ended) names t h) in
      trace_execution-AccountsFor q names (add_step (dependency_step q n true started ended) t) w
        checked

  trace_dependency-AccountsFor :
      (dependency : Option Text) (q : Rule) (names : List Text) (t : ExecutionTracer)
      (w : World E F)
      → AccountsFor names t
      → AccountsFor (names ++ q.name ∷ []) (trace_dependency platform lua dependency q ps t w).1
  unfolding trace_dependency
  trace_dependency-AccountsFor none q names t w h = trace_execution-AccountsFor q names t w h
  trace_dependency-AccountsFor (some n) q names t w h =
      after_check (has_succeeded (get_result n w.context)) q n _ _ names t _ h

  choose-AccountsFor :
      (b : Bool) (names : List Text) (x y : Option RuleResult × ExecutionTracer × World E F)
      → AccountsFor names x.1
      → AccountsFor names y.1
      → AccountsFor names (if b then x else y).1
  choose-AccountsFor true names x y h h' = h
  choose-AccountsFor false names x y h h' = h'

  trace_rule-AccountsFor :
      (q : Rule) (names : List Text) (t : ExecutionTracer) (w : World E F)
      → AccountsFor names t
      → AccountsFor (names ++ q.name ∷ []) (trace_rule platform lua q ps t w).1
  unfolding trace_rule record_step
  trace_rule-AccountsFor q names t w h =
      choose-AccountsFor (not q.is_active) (names ++ q.name ∷ []) _
        (trace_dependency platform lua q.depends_on_rule_name q ps t w)
        (add_step-AccountsFor _ names t h)
        (trace_dependency-AccountsFor q.depends_on_rule_name q names t w h)

  -- While the tracer is active, the trace of a run accounts for every rule of the order exactly
  -- once and in that order: by a skip, by a dependency check that failed, or by an execution.
  pub trace_rules-AccountsFor :
      (qs : List Rule) (names : List Text) (t : ExecutionTracer) (w : World E F)
      → AccountsFor names t
      → AccountsFor (names ++ map (λ q. q.name) qs) (trace_rules platform lua qs ps t w).1
  unfolding trace_rules
  trace_rules-AccountsFor [] names t w h = rw append-nil h
  trace_rules-AccountsFor (q ∷ qs) names t w h =
      let first = trace_rule platform lua q ps t w in
      rw append_assoc at (
        trace_rules-AccountsFor qs (names ++ q.name ∷ []) first.1 first.2
          (trace_rule-AccountsFor q names t w h))
