-- ===== src/Dependency.antt =====
-- src/rule.cpp: Rule::hasCircularDependency and Rule::getDependencyChain, which follow the names of
-- the rules that rules depend on. The loops run on fuel, one more than there are rules; without fuel
-- left they return nothing.
pub mod Path
pub mod Ends
pub mod Verdict
pub mod Chain
use fast_rules.Base.{
  ℕ, zero, suc, ◌+◌, List, [], ◌∷◌, ◌++◌, Bool, true, false, Option, none, some, if◌then◌else◌,
  ◌==◌, length, any,
}
use fast_rules.Base.Int.{ℤ, pos, ℤ_eq}
use fast_rules.Base.Dict.{Dict, lookup, insert}
use fast_rules.Base.Text.{Text, Text_eq}
use fast_rules.Rule.{Info}

-- `ruleMap` and `nameToId`: of rules with one id or one name, the last counts.
unfoldable pub rule_map : List Info → Dict ℤ Info → Dict ℤ Info
unfolding insert
rule_map [] d = d
rule_map (r ∷ rs) d = rule_map rs (insert r.id r d)

unfoldable pub name_to_id : List Info → Dict Text ℤ → Dict Text ℤ
unfolding insert
name_to_id [] d = d
name_to_id (r ∷ rs) d = name_to_id rs (if r.name == [] then d else insert r.name r.id d)

-- The id behind the name that a rule depends on.
abbrev pub dependency_id : Dict Text ℤ → Option Info → Option ℤ
dependency_id ids none = none
dependency_id ids (some r) = elim r.depends_on_rule_name [
  | none ↦ none
  | some name ↦ lookup name ids
]

-- The step from a rule to the rule that it depends on.
unfoldable pub next_id : Dict ℤ Info → Dict Text ℤ → ℤ → Option ℤ
unfolding lookup
next_id rules ids current = dependency_id ids (lookup current rules)

abbrev pub is_visited : ℤ → List ℤ → Bool
is_visited current visited = any (λ v. v == current) visited

-- The loop of `hasCircularDependency`; `next` is the step.
unfoldable pub circular_loop : (ℤ → Option ℤ) → ℤ → ℕ → List ℤ → ℤ → Option Bool
circular_loop next id zero visited current = none
circular_loop next id (suc fuel) visited current = elim (current == pos 0) [
  | true ↦ some false
  | false ↦ elim (current == id) [
    | true ↦ some true
    | false ↦ elim (is_visited current visited) [
      | true ↦ some true
      | false ↦ elim (next current) [
        | none ↦ some false
        | some other ↦ circular_loop next id fuel (current ∷ visited) other
      ]
    ]
  ]
]

-- The loop of `getDependencyChain`, with what it appends to the chain.
unfoldable pub chain_loop : (ℤ → Option ℤ) → ℕ → List ℤ → ℤ → Option (List ℤ)
chain_loop next zero visited current = none
chain_loop next (suc fuel) visited current = elim (current == pos 0) [
  | true ↦ some []
  | false ↦ elim (is_visited current visited) [
    | true ↦ some (current ∷ [])
    | false ↦ elim (next current) [
      | none ↦ some (current ∷ [])
      | some other ↦ elim (chain_loop next fuel (current ∷ visited) other) [
        | none ↦ none
        | some chain ↦ some (current ∷ chain)
      ]
    ]
  ]
]

abbrev pub fuel_for : List Info → ℕ
fuel_for rules = suc (length rules)

unfoldable pub has_circular_dependency : Info → List Info → Option Bool
unfolding rule_map name_to_id next_id circular_loop
has_circular_dependency r rules =
    let ids = name_to_id rules [] in
    elim (dependency_id ids (some r)) [
      | none ↦ some false
      | some current ↦
          circular_loop (next_id (rule_map rules []) ids) r.id (fuel_for rules) [] current
    ]

unfoldable pub get_dependency_chain : Info → List Info → Option (List ℤ)
unfolding rule_map name_to_id next_id chain_loop
get_dependency_chain r rules =
    let ids = name_to_id rules [] in
    elim (dependency_id ids (some r)) [
      | none ↦ some (r.id ∷ [])
      | some current ↦
          elim (chain_loop (next_id (rule_map rules []) ids) (fuel_for rules) [] current) [
            | none ↦ none
            | some chain ↦ some (r.id ∷ chain)
          ]
    ]
