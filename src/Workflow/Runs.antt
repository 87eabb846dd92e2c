-- ===== src/Workflow/Runs.antt =====
-- Workflow::execute and Workflow::executeStreaming of src/workflow.cpp, for a workflow that is
-- compiled. The results so far are a list, in the order in which they are produced.
pub mod Streams
use fast_rules.Base.{
  ℕ, suc, zero, List, [], ◌∷◌, Bool, true, false, not, Option, none, some, if◌then◌else◌, length,
}
use fast_rules.Base.Text.{Text}
use fast_rules.Context.{RuleContext, empty_context, get_result, set_result}
use fast_rules.Parameters.{Value, RuleParameter, Platform}
use fast_rules.Result.{RuleResult, is_success}
use fast_rules.Rule.{Rule, result_key}
use fast_rules.Execution.World.{World, Action, ◌>>=◌, ◌>>◌, pure, LuaEngine, on_context}
use fast_rules.Execution.Run.{execute}
use fast_rules.Workflow.Levels.{Result, ok, throw, resolve_execution_order}

-- The rule it depends on has a result, and the result is a success.
abbrev pub has_succeeded : Option RuleResult → Bool
has_succeeded none = false
has_succeeded (some res) = is_success res.head

abbrev pub is_satisfied_by : {F : Type 0} → Option Text → RuleContext (Value F) → Bool
is_satisfied_by none c = true
is_satisfied_by (some n) c = has_succeeded (get_result n c)

-- The result that is handed out, if any.
abbrev pub handed : RuleResult → Option RuleResult
handed res = if not res.skipped then some res else none

abbrev pub add_result : Option RuleResult → List RuleResult → List RuleResult
add_result none rs = rs
add_result (some res) rs = res ∷ rs

module _ {E F : Type 0} (platform : Platform F) (lua : LuaEngine E F) where
  -- One round of the loop of `execute`: an inactive rule, and one whose dependency did not succeed,
  -- is passed over.
  unfoldable pub run_rule : Rule → List (RuleParameter F) → Action E F (Option RuleResult)
  unfolding execute get_result is_success
  run_rule q ps w =
      let run = execute platform lua q ps w in
      if not q.is_active
      then (none, w)
      else if not (is_satisfied_by q.depends_on_rule_name w.context)
      then (none, w)
      else (handed run.0, run.1)

  unfoldable pub run_rules : List Rule → List (RuleParameter F) → Action E F (List RuleResult)
  unfolding run_rule
  run_rules [] ps = pure []
  run_rules (q ∷ qs) ps = do
    first ← run_rule q ps
    others ← run_rules qs ps
    pure (add_result first others)

  -- `Workflow::execute`, with a context of its own.
  unfoldable pub execute_workflow :
      List Rule → List (RuleParameter F) → Action E F (Result (List RuleResult))
  unfolding run_rules resolve_execution_order
  execute_workflow rules ps w = elim (resolve_execution_order rules) [
    | throw e ↦ (throw e, w)
    | ok order ↦ (on_context (λ _. empty_context) >> run_rules order ps >>= λ rs. pure (ok rs)) w
  ]

  -- One round of the generator of `executeStreaming`, which stores the result itself.
  unfoldable pub stream_rule : Rule → List (RuleParameter F) → Action E F (Option RuleResult)
  unfolding execute get_result is_success set_result result_key
  stream_rule q ps w =
      let run = execute platform lua q ps w in
      if not q.is_active
      then (none, w)
      else if not (is_satisfied_by q.depends_on_rule_name w.context)
      then (none, w)
      else (handed run.0, (on_context (set_result (result_key q.info) run.0) run.1).1)

  -- One call of the generator: the next result, and the rules that are left.
  unfoldable pub generate :
      List Rule → List (RuleParameter F) → Action E F (Option (RuleResult × List Rule))
  unfolding stream_rule
  generate [] ps w = (none, w)
  generate (q ∷ qs) ps w =
      let first = stream_rule q ps w in
      elim first.0 [ some res ↦ (some (res, qs), first.1) | none ↦ generate qs ps first.1 ]

  -- Calls the generator until it has no more results; with fuel above the number of the rules it
  -- is not cut short.
  unfoldable pub drain : ℕ → List Rule → List (RuleParameter F) → Action E F (List RuleResult)
  unfolding generate
  drain zero qs ps w = ([], w)
  drain (suc fuel) qs ps w =
      let pulled = generate qs ps w in
      elim pulled.0 [
        | none ↦ ([], pulled.1)
        | some (res, rest) ↦ let others = drain fuel rest ps pulled.1 in (res ∷ others.0, others.1)
      ]
