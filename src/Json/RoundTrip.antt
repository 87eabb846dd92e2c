-- ===== src/Json/RoundTrip.antt =====
-- Workflows written to JSON and read back.
use fast_rules.Base.{◌≤◌, ◌≡◌, refl, sym, ap, subst, ◌∙◌, List, []}
use fast_rules.Base.Int.{ℤ}
use fast_rules.Base.Text.{codes}
use fast_rules.Base.Parse.{IsInt}
use fast_rules.Rule.{Rules, nil, cons, Rule}
use fast_rules.Workflow.Shape.{Workflow}
use fast_rules.Json.{JsonLibrary}
use fast_rules.Json.Load.{
  ok, Store, ◌>>=◌, pure, or_else, and_read, workflow_of, read_id, next_workflow_id, parse_rules,
  parse_rule_at, to_list, parse_workflow,
}
use fast_rules.Json.Save.{from_rules, workflow_value, serialize_workflow}
use fast_rules.Json.Saved.{id_back}
use fast_rules.Json.Trees.{height, AllFit, IsCopy, parse_rules-serialize_rules, >>=-ok}

from_rules-to_list : (rs : Rules) → from_rules (to_list rs) ≡ rs
from_rules-to_list nil = refl
from_rules-to_list (cons info kids rest) = ap (cons info kids) (from_rules-to_list rest)

module _ (library : JsonLibrary) where
  open library use {Value, find, as_list, find_object, text_back, bool_back, list_back}

  -- The value of a workflow, where its rules are read as copies.
  read_back :
      (w : Workflow) (vs : List Value) (copy : Rules) (s s' : Store)
      → IsInt w.id
      → parse_rules library (parse_rule_at library 65) vs s ≡ (ok copy, s')
      → parse_workflow library (workflow_value library w vs) s
        ≡ (ok (record w { rules = to_list copy }), s')
  unfolding parse_workflow
  read_back w vs copy s s' h e =
      let v = workflow_value library w vs in
      let listed : or_else (and_read (find (codes "rules") v) as_list) [] ≡ vs =
        simp (find_object, list_back) in
      let rules_of =
        parse_rules library (parse_rule_at library 65)
          (or_else (and_read (find (codes "rules") v) as_list) []) in
      let assemble = λ (id : ℤ) (rules : Rules). pure (workflow_of library v id rules) in
      let assembled : workflow_of library v w.id copy ≡ record w { rules = to_list copy } =
        simp (find_object, text_back, bool_back) in
      >>=-ok (read_id library (codes "Workflow") next_workflow_id (find (codes "id") v))
        (λ id. rules_of >>= assemble id) s s w.id
        (id_back library (codes "Workflow") next_workflow_id w.id (find (codes "id") v) s h
          (find_object (codes "id") _))
      ∙ >>=-ok rules_of (assemble w.id) s s' copy
          (ap (λ us. parse_rules library (parse_rule_at library 65) us s) listed ∙ e)
      ∙ ap (λ x. (ok x, s')) assembled

-- A workflow whose rules are nested at most 64 levels below the top is written, and what is read back
-- from its JSON value is a workflow with the same id, name, description and state. Its rules are the
-- same in the same order, with the same children, but without their names and rate limiters. The ids
-- and priorities are 32-bit numbers, and the durations 64-bit numbers.
pub parse_workflow-serialize_workflow :
    (library : JsonLibrary) (w : Workflow) (s : Store)
    → IsInt w.id
    → AllFit (from_rules w.rules)
    → height (from_rules w.rules) ≤ 65
    → (v : library.Value) × (rules : List Rule) × (s' : Store) × (serialize_workflow library w
        ≡ ok v)
      × (parse_workflow library v s ≡ (ok (record w { rules = rules }), s'))
      × IsCopy (from_rules w.rules) (from_rules rules)
unfolding serialize_workflow
parse_workflow-serialize_workflow library w s id fits h =
    let (vs, copy, s', e, e', c) =
      parse_rules-serialize_rules library 65 (from_rules w.rules) s h fits in
    (
      workflow_value library w vs,
      to_list copy,
      s',
      simp e,
      read_back library w vs copy s s' id e',
      subst (IsCopy (from_rules w.rules)) (sym (from_rules-to_list copy)) c,
    )
