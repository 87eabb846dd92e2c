-- ===== src/Json/Save.antt =====
-- JsonLoader::serializeRule, JsonLoader::saveRule and JsonLoader::saveWorkflow.
use fast_rules.Base.{ℕ, zero, suc, List, [], ◌∷◌, Option, none, some}
use fast_rules.Base.Int.{ℤ}
use fast_rules.Base.Text.{Text, codes}
use fast_rules.Rule.{Info, Rules, nil, cons, Rule}
use fast_rules.Workflow.Shape.{Workflow}
use fast_rules.Json.{JsonLibrary}
use fast_rules.Json.Load.{rule, Result, ok, raise}

infixl 5 ◌>>=◌
abbrev pub ◌>>=◌ {ℓ κ} : {A : Type ℓ} {B : Type κ} → Result A → (A → Result B) → Result B
ok a >>= f = f a
raise e >>= f = raise e

abbrev pub from_rules : List Rule → Rules
from_rules [] = nil
from_rules (r ∷ rs) = cons r.info r.child_rules (from_rules rs)

module _ (library : JsonLibrary) where
  open library use {Value, null, from_int, from_text, from_bool, from_list, object, dump}

  abbrev pub text_or_null : Option Text → Value
  text_or_null none = null
  text_or_null (some s) = from_text s

  abbrev pub int_or_null : Option ℤ → Value
  int_or_null none = null
  int_or_null (some n) = from_int n

  -- The object of a rule, with the values of its children.
  abbrev pub rule_value : Info → List Value → Value
  rule_value r children = object (
      (codes "id", from_int r.id)
      ∷ (codes "description", from_text r.description)
      ∷ (codes "isActive", from_bool r.is_active)
      ∷ (codes "priority", from_int r.priority)
      ∷ (codes "expression", from_text r.expression)
      ∷ (codes "action", from_text r.action)
      ∷ (codes "dependsOnRuleName", text_or_null r.depends_on_rule_name)
      ∷ (codes "timeout", int_or_null r.timeout)
      ∷ (codes "cacheDuration", int_or_null r.cache_duration)
      ∷ (codes "childRules", from_list children)
      ∷ [])

  -- The loop over the rules of a list; `levels` is how deep they may be nested, themselves included.
  unfoldable pub serialize_rules : (levels : ℕ) → Rules → Result (List Value)
  serialize_rules levels nil = ok []
  serialize_rules zero (cons info kids rest) =
      raise (rule (codes "Rule nesting exceeds the maximum supported depth of 64"))
  serialize_rules (suc levels) (cons info kids rest) = do
    children ← serialize_rules levels kids
    values ← serialize_rules (suc levels) rest
    ok (rule_value info children ∷ values)

  unfoldable pub serialize_rule : Rule → Result Value
  unfolding serialize_rules
  serialize_rule r = do children ← serialize_rules 64 r.child_rules; ok (rule_value r.info children)

  abbrev pub workflow_value : Workflow → List Value → Value
  workflow_value w rules = object (
      (codes "id", from_int w.id)
      ∷ (codes "name", from_text w.name)
      ∷ (codes "description", from_text w.description)
      ∷ (codes "isActive", from_bool w.is_active)
      ∷ (codes "rules", from_list rules)
      ∷ [])

  unfoldable pub serialize_workflow : Workflow → Result Value
  unfolding serialize_rules
  serialize_workflow w = do
    rules ← serialize_rules 65 (from_rules w.rules)
    ok (workflow_value w rules)

  unfoldable pub save_rule : Rule → Result Text
  unfolding serialize_rule
  save_rule r = do value ← serialize_rule r; ok (dump value)

  unfoldable pub save_workflow : Workflow → Result Text
  unfolding serialize_workflow
  save_workflow w = do value ← serialize_workflow w; ok (dump value)
