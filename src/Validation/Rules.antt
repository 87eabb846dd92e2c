-- ===== src/Validation/Rules.antt =====
-- Rule::validate of src/rule.cpp. The flag `isValidated` of each rule object is kept by the address of
-- the object.
use fast_rules.Base.{
  ℕ, List, [], ◌∷◌, ◌++◌, Bool, true, Option, none, some, if◌then◌else◌, ◌==◌, any, ℕ_eq,
}
use fast_rules.Base.Int.{ℤ, pos, ℤ_eq}
use fast_rules.Base.Dict.{Dict, lookup, insert}
use fast_rules.Base.Text.{Text, Text_eq, codes, to_string}
use fast_rules.Rule.{Rules, nil, cons, Rule}
use fast_rules.Validation.{white, Colors, Outcome, cycle, finished, out_of_fuel, search}

-- What a validation comes to; `raise` is a RuleValidationException with its message.
pub data Check : Type 0 where
  passes : Check
  raise : Text → Check
  no_fuel : Check

abbrev pub and_also : Check → Check → Check
and_also passes c = c
and_also (raise t) c = raise t
and_also no_fuel c = no_fuel

-- `adjacency`, `ruleByName`, and the keys of `ruleById`, which are all white in `color`.
pub record Links : Type 0 where
  pub adjacency : Dict ℤ (List ℤ)
  pub rule_by_name : Dict Text ℤ
  pub color : Colors

abbrev pub no_links : Links
no_links = record { adjacency = []; rule_by_name = []; color = [] }

abbrev pub at_key : Option (List ℤ) → List ℤ
at_key none = []
at_key (some ids) = ids

-- `adjacency[id]`.
unfoldable pub neighbors : Dict ℤ (List ℤ) → ℤ → List ℤ
unfolding lookup
neighbors adjacency id = at_key (lookup id adjacency)

abbrev pub append_edge : ℤ → ℤ → Dict ℤ (List ℤ) → Dict ℤ (List ℤ)
append_edge id other adjacency = insert id (neighbors adjacency id ++ other ∷ []) adjacency

-- The rule itself, known by its id and its name.
abbrev pub register : Rule → Links → Links
register r l = record l {
  color = insert r.id white l.color;
  rule_by_name = if r.name == [] then l.rule_by_name else insert r.name r.id l.rule_by_name;
}

abbrev pub link_to : ℤ → Option ℤ → Links → Links
link_to id none l = l
link_to id (some other) l = record l { adjacency = append_edge id other l.adjacency }

-- The edge to the rule that it depends on, if that stands earlier in the list.
abbrev pub link_dependency : ℤ → Option Text → Links → Links
link_dependency id none l = l
link_dependency id (some name) l = link_to id (lookup name l.rule_by_name) l

-- The edges to its children.
unfoldable pub link_children : ℤ → Rules → Links → Links
unfolding insert neighbors
link_children id nil l = l
link_children id (cons child kids rest) l = link_children id rest (
    if child.id == pos 0 then l else record l {
      adjacency = append_edge id child.id l.adjacency;
      color = insert child.id white l.color;
    })

unfoldable pub link_rules : List Rule → Links → Links
unfolding lookup insert neighbors link_children
link_rules [] l = l
link_rules (r ∷ rs) l =
    link_rules rs (
      link_children r.id r.child_rules (link_dependency r.id r.depends_on_rule_name (register r l)))

-- The part of the stack from the rule on.
abbrev from_node : ℤ → List ℤ → List ℤ
from_node n [] = []
from_node n (m ∷ stack) = if m == n then m ∷ stack else from_node n stack

abbrev arrows : List ℤ → Text
arrows [] = []
arrows (n ∷ path) = codes " -> " ++ (to_string n ++ arrows path)

abbrev shown_path : List ℤ → Text
shown_path [] = []
shown_path (n ∷ path) = to_string n ++ arrows path

abbrev pub cycle_message : List ℤ → ℤ → Text
cycle_message stack n =
    codes "Circular dependency detected: " ++ (shown_path (from_node n stack) ++ arrows (n ∷ []))

unfoldable pub report : Outcome → Check
unfolding to_string
report (cycle stack n) = raise (cycle_message stack n)
report (finished colors) = passes
report out_of_fuel = no_fuel

unfoldable pub check_cycles : List Rule → Check
unfolding search link_rules neighbors report
check_cycles rules =
    let l = link_rules rules no_links in report (search (neighbors l.adjacency) l.color)

unfoldable pub check_zero_ids : List Rule → Check
check_zero_ids rules =
    if any (λ r. r.id == pos 0) rules then raise (codes "Rule has zero ID") else passes

unfoldable pub check_duplicates : List ℤ → List Rule → Check
unfolding to_string
check_duplicates seen [] = passes
check_duplicates seen (r ∷ rs) =
    if any (λ id. id == r.id) seen
    then raise (codes "Duplicate rule ID: " ++ to_string r.id)
    else check_duplicates (r.id ∷ seen) rs

unfoldable pub check_dependency : Option Text → List Rule → Check
check_dependency none rules = passes
check_dependency (some name) rules =
    if any (λ r. r.name == name) rules
    then passes
    else raise (codes "Rule depends on non-existent rule: " ++ name)

-- Whether a rule object is validated, by its address.
abbrev pub Flags : Type 0
Flags = ℕ → Bool

abbrev pub set_flag : ℕ → Flags → Flags
set_flag self flags other = if self == other then true else flags other

unfoldable pub checks : Rule → List Rule → Check
unfolding check_cycles check_zero_ids check_duplicates check_dependency
checks r rules = and_also (check_cycles rules) (
    and_also (check_zero_ids rules)
      (and_also (check_duplicates [] rules) (check_dependency r.depends_on_rule_name rules)))

abbrev pub set_if_passed : ℕ → Flags → Check → Check × Flags
set_if_passed self flags passes = (passes, set_flag self flags)
set_if_passed self flags (raise t) = (raise t, flags)
set_if_passed self flags no_fuel = (no_fuel, flags)

unfoldable pub validate_rule : Rule → List Rule → Flags → Check × Flags
unfolding checks
validate_rule r rules flags =
    if flags r.self then (passes, flags) else set_if_passed r.self flags (checks r rules)
