-- ===== src/Workflow/Runs/Streams.antt =====
-- The stream of results is the list of results.
use fast_rules.Base.{
  ℕ, suc, zero, ◌≤◌, ◌≡◌, refl, ap, ◌∙◌, List, [], ◌∷◌, Bool, true, false, not, Option, none, some,
  if◌then◌else◌, length, All, arith, eq_iff,
}
use fast_rules.Base.Dict.{Dict, lookup, insert}
use fast_rules.Base.Text.{Text, Text_eq}
use fast_rules.Context.{set_result}
use fast_rules.Parameters.{RuleParameter, Platform}
use fast_rules.Result.{RuleResult}
use fast_rules.Rule.{Rule, Info, result_key}
use fast_rules.Execution.Cache.{cache_period}
use fast_rules.Execution.World.{World, LuaEngine, on_context}
use fast_rules.Execution.Run.{execute}
use fast_rules.Execution.Run.Posted.{IsPosted, execute-IsPosted}
use fast_rules.Workflow.Runs.{
  run_rule, run_rules, stream_rule, generate, drain, is_satisfied_by, handed, add_result,
}

insert_same :
    (k : Text) (v : RuleResult) (d : Dict Text RuleResult) → lookup k d ≡ some v → insert k v d ≡ d
unfolding lookup insert
insert_same k v [] h = cc
insert_same k v (e ∷ d) h = ground (arith, insert_same k v d, eq_iff e.0 k)

-- Storing again what is there changes nothing.
posted_again :
    {E F : Type 0} (r : Info) (res : RuleResult) (w : World E F)
    → IsPosted r res w
    → (on_context (set_result (result_key r) res) w).1 ≡ w
unfolding set_result
posted_again r res w h =
    ap (λ d. record w { context = record w.context { results = d } })
      (insert_same (result_key r) res w.context.results h)

-- The rule does not cache its results.
abbrev pub IsUncached : Rule → Type 0
IsUncached q = cache_period q.cache_duration ≡ none

same_choice :
    {A : Type 0} (b c : Bool) (x y z : A)
    → (b ≡ true → y ≡ z)
    → (if not b then x else if not c then x else y) ≡ (if not b then x else if not c then x else z)
same_choice false c x y z h = refl
same_choice true false x y z h = refl
same_choice true true x y z h = h refl

module _ {E F : Type 0} (platform : Platform F) (lua : LuaEngine E F)
    (ps : List (RuleParameter F)) where
  stream_rule-eq :
      (q : Rule) (w : World E F)
      → IsUncached q
      → stream_rule platform lua q ps w ≡ run_rule platform lua q ps w
  unfolding stream_rule run_rule
  stream_rule-eq q w uncached =
      let run = execute platform lua q ps w in
      same_choice q.is_active (is_satisfied_by q.depends_on_rule_name w.context) (none, w)
        (handed run.0, (on_context (set_result (result_key q.info) run.0) run.1).1)
        (handed run.0, run.1)
        (λ active.
          ap (λ v. (handed run.0, v))
            (posted_again q.info run.0 run.1
              (execute-IsPosted platform lua q ps w active uncached)))

  -- What the consumer has once the first of the remaining rules is done.
  abbrev pulled_from :
      List Rule → Option RuleResult × World E F → Option (RuleResult × List Rule) × World E F
  pulled_from qs first = elim first.0 [
    | some res ↦ (some (res, qs), first.1)
    | none ↦ generate platform lua qs ps first.1
  ]

  abbrev drained_from : ℕ → List Rule → Option RuleResult × World E F → List RuleResult × World E F
  drained_from fuel qs first =
      let pulled = pulled_from qs first in
      elim pulled.0 [
        | none ↦ ([], pulled.1)
        | some (res, rest) ↦
            let others = drain platform lua fuel rest ps pulled.1 in (res ∷ others.0, others.1)
      ]

  drained_from-eq :
      (fuel : ℕ) (qs : List Rule) (first : Option RuleResult × World E F)
      → drain platform lua fuel qs ps first.1 ≡ run_rules platform lua qs ps first.1
      → drain platform lua (suc fuel) qs ps first.1 ≡ run_rules platform lua qs ps first.1
      → drained_from fuel qs first ≡ (
        add_result first.0 (run_rules platform lua qs ps first.1).0,
        (run_rules platform lua qs ps first.1).1,
      )
  unfolding drain
  drained_from-eq fuel qs (none, v) now later = later
  drained_from-eq fuel qs (some res, v) now later = ap (λ o. (res ∷ o.0, o.1)) now

  -- A consumer that pulls results from the generator of a stream until it is empty gets what the
  -- loop over the rules collects, in the same order and with the same effects, if no rule caches its
  -- results; as many pulls as there are rules, and one more, are enough.
  pub drain-run_rules :
      (fuel : ℕ) (qs : List Rule) (w : World E F)
      → All IsUncached qs
      → suc (length qs) ≤ fuel
      → drain platform lua fuel qs ps w ≡ run_rules platform lua qs ps w
  unfolding drain generate run_rules
  drain-run_rules zero qs w u h = absurd (omega arith)
  drain-run_rules (suc fuel) [] w u h = refl
  drain-run_rules (suc fuel) (q ∷ qs) w u h =
      let first = run_rule platform lua q ps w in
      ap (drained_from fuel qs) (stream_rule-eq q w u.0)
      ∙ drained_from-eq fuel qs first (drain-run_rules fuel qs first.1 u.1 (omega arith))
          (drain-run_rules (suc fuel) qs first.1 u.1 (omega arith))
