-- ===== src/Workflow/Shape.antt =====
-- Workflow::getAllActions, Workflow::toGraph and Workflow::Builder of src/workflow.cpp.
pub mod Actions
use fast_rules.Base.{
  ℕ, List, [], ◌∷◌, ◌++◌, Bool, true, false, not, Option, none, some, if◌then◌else◌, ◌==◌, ltb,
  length, take, is_empty,
}
use fast_rules.Base.Int.{ℤ, negsuc, ℤ_eq}
use fast_rules.Base.Text.{Text, Text_eq, codes, to_string}
use fast_rules.Rule.{Info, Rules, nil, cons, Rule}

pub record Workflow : Type 0 where
  pub id : ℤ
  pub name : Text
  pub description : Text
  pub is_active : Bool
  pub rules : List Rule

-- The builder changes the workflow that it will return.
unfoldable pub new_workflow : ℤ → Workflow
new_workflow id = record { id = id; name = []; description = []; is_active = true; rules = [] }

unfoldable pub with_description : Text → Workflow → Workflow
with_description description w = record w { description = description }

unfoldable pub add_rule : Rule → Workflow → Workflow
add_rule r w = record w { rules = w.rules ++ r ∷ [] }

unfoldable pub active : Bool → Workflow → Workflow
active b w = record w { is_active = b }

abbrev pub own_action : Text → List Text
own_action action = if action == [] then [] else action ∷ []

unfoldable pub collect_actions : Rules → List Text
collect_actions nil = []
collect_actions (cons i kids rest) =
    own_action i.action ++ (collect_actions kids ++ collect_actions rest)

unfoldable pub get_all_actions : List Rule → List Text
unfolding collect_actions
get_all_actions [] = []
get_all_actions (r ∷ rs) =
    own_action r.info.action ++ (collect_actions r.child_rules ++ get_all_actions rs)

-- A line feed, as `"\n"` in the source; `"\\n"` is a backslash and an n.
abbrev line_end : Text
line_end = 10 ∷ []

abbrev escaped_line : Text
escaped_line = 92 ∷ b'n' ∷ []

abbrev quote : Text
quote = 34 ∷ []

abbrev pub expression_label : Text → Text
expression_label e =
    let shown = if ltb 30 (length e) then take 27 e ++ codes "..." else e in
    if e == []
    then []
    else escaped_line ++ codes "[" ++ quote ++ shown ++ codes " " ++ quote ++ codes "]"

abbrev pub node_name : ℤ → Text
unfolding to_string
node_name id = quote ++ codes "rule_" ++ to_string id ++ quote

-- The node of a rule.
unfoldable pub node_line : Info → Text
unfolding to_string
node_line r =
    codes "  "
    ++ node_name r.id
    ++ codes " [label="
    ++ quote
    ++ codes "Rule "
    ++ to_string r.id
    ++ (if r.description == [] then [] else escaped_line ++ r.description)
    ++ expression_label r.expression
    ++ (if r.is_active then [] else quote ++ codes ", fillcolor=gray, fontcolor=white")
    ++ quote
    ++ codes "];"
    ++ line_end

-- The id of the first listed rule with a name, or -1.
abbrev pub id_of_name : Text → List Rule → ℤ
id_of_name n [] = negsuc 0
id_of_name n (r ∷ rs) = if r.info.name == n then r.info.id else id_of_name n rs

unfoldable pub dependency_edge : List Rule → Info → Text
dependency_edge all_rules r = elim r.depends_on_rule_name [
  | none ↦ []
  | some n ↦
      if id_of_name n all_rules == negsuc 0
      then []
      else codes "  "
        ++ node_name (id_of_name n all_rules)
        ++ codes " -> "
        ++ node_name r.id
        ++ codes " [color=red, penwidth=2.0, label="
        ++ quote
        ++ codes "depends on"
        ++ quote
        ++ codes "];"
        ++ line_end
]

abbrev pub child_lines : Rules → Text
child_lines nil = []
child_lines (cons i kids rest) = codes "    " ++ node_name i.id ++ line_end ++ child_lines rest

abbrev pub has_children : Rules → Bool
has_children nil = false
has_children (cons i kids rest) = true

unfoldable pub family_lines : Info → Rules → Text
family_lines r kids =
    if has_children kids
    then codes "  "
      ++ node_name r.id
      ++ codes " -> {"
      ++ line_end
      ++ child_lines kids
      ++ codes "  } [style=dashed, label="
      ++ quote
      ++ codes "parent/child"
      ++ quote
      ++ codes "];"
      ++ line_end
    else []

abbrev pub rule_lines : List Rule → Info → Rules → Text
unfolding node_line dependency_edge family_lines
rule_lines all_rules r kids = node_line r ++ dependency_edge all_rules r ++ family_lines r kids

unfoldable pub collect_kids : List Rule → Rules → Text
unfolding node_line dependency_edge family_lines
collect_kids all_rules nil = []
collect_kids all_rules (cons i kids rest) =
    rule_lines all_rules i kids ++ (collect_kids all_rules kids ++ collect_kids all_rules rest)

unfoldable pub collect_rules : List Rule → List Rule → Text
unfolding collect_kids
collect_rules all_rules [] = []
collect_rules all_rules (r ∷ rs) =
    rule_lines all_rules r.info r.child_rules
    ++ (collect_kids all_rules r.child_rules ++ collect_rules all_rules rs)

unfoldable pub to_graph : Workflow → Text
unfolding collect_rules to_string
to_graph w =
    codes "digraph Workflow {"
    ++ line_end
    ++ codes "  rankdir=TB;"
    ++ line_end
    ++ codes "  node [shape=box, style=filled, fillcolor=lightblue];"
    ++ line_end
    ++ codes "  edge [arrowhead=vee];"
    ++ line_end
    ++ line_end
    ++ codes "  label="
    ++ quote
    ++ codes "Workflow "
    ++ to_string w.id
    ++ (if w.description == [] then [] else escaped_line ++ w.description)
    ++ quote
    ++ codes ";"
    ++ line_end
    ++ codes "  labelloc=t;"
    ++ line_end
    ++ line_end
    ++ collect_rules w.rules w.rules
    ++ codes "}"
    ++ line_end
