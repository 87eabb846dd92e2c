-- ===== src/Rule/Builder.antt =====
-- Rule::Builder of include/fastrules/rule.hpp, and the factories and setTimeout of src/rule.cpp. The
-- builder is the rule that it changes. Following the dependencies runs on fuel, two more than there
-- are rules.
use fast_rules.Base.{
  ℕ, zero, suc, List, [], ◌∷◌, ◌++◌, Bool, true, false, Option, none, some, if◌then◌else◌, ◌==◌,
  length,
}
use fast_rules.Base.Int.{ℤ, pos, ltb_ℤ, ℤ_eq}
use fast_rules.Base.Dict.{lookup}
use fast_rules.Base.Text.{Text, Text_eq, codes, to_string}
use fast_rules.Rule.{Info, Rules, nil, cons, Rule}
use fast_rules.Versioning.{new_info, with_info}
use fast_rules.Dependency.{rule_map, name_to_id, next_id, is_visited}

-- `new_builder self id` makes the rule at the address `self`.
unfoldable pub new_builder : ℕ → ℤ → Rule
new_builder self id = with_info (record (new_info self) { id = id })

unfoldable pub set_name : Text → Rule → Rule
set_name name r = record r { info = record r.info { name = name } }

unfoldable pub set_description : Text → Rule → Rule
set_description text r = record r { info = record r.info { description = text } }

unfoldable pub with_expression : Text → Rule → Rule
with_expression text r = record r { info = record r.info { expression = text } }

unfoldable pub with_action : Text → Rule → Rule
with_action text r = record r { info = record r.info { action = text } }

unfoldable pub set_priority : ℤ → Rule → Rule
set_priority n r = record r { info = record r.info { priority = n } }

unfoldable pub set_active : Bool → Rule → Rule
set_active b r = record r { info = record r.info { is_active = b } }

unfoldable pub with_cache : ℤ → Rule → Rule
with_cache duration r = record r { info = record r.info { cache_duration = some duration } }

unfoldable pub with_timeout : ℤ → Rule → Rule
with_timeout duration r = record r { info = record r.info { timeout = some duration } }

unfoldable pub with_rate_limiter : ℕ → Rule → Rule
with_rate_limiter limiter r = record r { info = record r.info { rate_limiter = some limiter } }

abbrev append_child : Rule → Rules → Rules
append_child child nil = cons child.info child.child_rules nil
append_child child (cons info kids rest) = cons info kids (append_child child rest)

unfoldable pub with_child : Rule → Rule → Rule
with_child child r = record r { child_rules = append_child child r.child_rules }

unfoldable pub set_dependency : Text → Rule → Rule
set_dependency name r = record r { info = record r.info { depends_on_rule_name = some name } }

unfoldable pub create : ℕ → ℤ → Text → Bool → Rule
unfolding new_builder with_expression set_active
create self id expression is_active =
    set_active is_active (with_expression expression (new_builder self id))

-- The loop of `dependsOn`: whether the dependencies lead back to the rule with the id `id`.
unfoldable pub leads_back : (ℤ → Option ℤ) → ℤ → ℕ → List ℤ → ℤ → Option Bool
leads_back next id zero visited current = none
leads_back next id (suc fuel) visited current = elim (current == pos 0) [
  | true ↦ some false
  | false ↦ elim (next current) [
    | none ↦ some false
    | some other ↦ elim (other == id) [
      | true ↦ some true
      | false ↦ elim (is_visited other visited) [
        | true ↦ some false
        | false ↦ leads_back next id fuel (other ∷ visited) other
      ]
    ]
  ]
]

-- What the call throws, if anything; the dependency is set either way.
pub data DependencyCheck : Type 0 where
  passes : DependencyCheck
  raise : Text → DependencyCheck
  no_fuel : DependencyCheck

abbrev pub check_of : Option Bool → DependencyCheck
check_of none = no_fuel
check_of (some true) = raise (codes "Circular dependency detected")
check_of (some false) = passes

unfoldable pub check_dependency_on : Text → ℤ → List Info → DependencyCheck
unfolding rule_map name_to_id next_id lookup leads_back to_string
check_dependency_on name id rules =
    let ids = name_to_id rules [] in
    elim (lookup name ids) [
      | none ↦ passes
      | some first ↦ elim (first == id) [
        | true ↦ raise (
            codes "Circular dependency detected: rule "
            ++ (to_string id ++ codes " depends on itself"))
        | false ↦
            check_of
              (leads_back (next_id (rule_map rules []) ids) id (suc (suc (length rules))) [] first)
      ]
    ]

unfoldable pub set_dependency_checked : Text → List Info → Rule → Rule × DependencyCheck
unfolding set_dependency check_dependency_on
set_dependency_checked name rules r = (set_dependency name r, check_dependency_on name r.id rules)

-- `none` is an exception, which leaves the rule as it is.
unfoldable pub set_timeout : ℤ → Info → Option Info
set_timeout duration r =
    if ltb_ℤ duration (pos 1) then none else some (record r { timeout = some duration })

-- The factories of predicates. `std::to_string` of a floating-point number is an argument.
abbrev predicate : ℕ → Text → Text → Text → Rule
predicate self description default expression = with_info (record (new_info self) {
  description = if description == [] then default else description;
  expression = expression;
})

unfoldable pub is_not_null : ℕ → Text → Text → Rule
is_not_null self name description =
    predicate self description (name ++ codes " is not null")
      (codes "isNotNull(" ++ (name ++ codes ")"))

module _ {F : Type 0} (print : F → Text) where
  unfoldable pub greater_than : ℕ → Text → F → Text → Rule
  greater_than self name value description =
      predicate self description (name ++ (codes " > " ++ print value))
        (name ++ (codes " > " ++ print value))

  unfoldable pub less_than : ℕ → Text → F → Text → Rule
  less_than self name value description =
      predicate self description (name ++ (codes " < " ++ print value))
        (name ++ (codes " < " ++ print value))

unfoldable pub equals : ℕ → Text → Text → Text → Rule
equals self name value description =
    predicate self description (name ++ (codes " == " ++ value))
      (name ++ (codes " == \"" ++ (value ++ codes "\"")))

unfoldable pub matches_regex : ℕ → Text → Text → Text → Rule
matches_regex self name regex description =
    predicate self description (name ++ (codes " matches " ++ regex))
      (codes "matchesRegex(" ++ (name ++ (codes ", \"" ++ (regex ++ codes "\")"))))

unfoldable pub contains_text : ℕ → Text → Text → Text → Rule
contains_text self name part description =
    predicate self description (name ++ (codes " contains " ++ part))
      (codes "string.find(" ++ (name ++ (codes ", \"" ++ (part ++ codes "\") ~= nil"))))
