-- ===== src/Validation.antt =====
-- The validation of rules and workflows: the search for a cycle that Rule::validate of src/rule.cpp
-- and Workflow::checkCircularDependencies of src/workflow.cpp share but for their graphs. It calls
-- itself on fuel, one more than the rules it knows; each call colours another rule. The unordered
-- maps are iterated in the order of their insertions here.
pub mod Graph
pub mod Painting
pub mod Search
pub mod Verdict
pub mod Rules
pub mod Workflows
pub mod Ids
pub mod Ordered
pub mod Accepted
pub mod Layers
pub mod Unseen
use fast_rules.Base.{ℕ, zero, suc, List, [], ◌∷◌, ◌++◌, none, some, length}
use fast_rules.Base.Int.{ℤ, ℤ_eq}
use fast_rules.Base.Dict.{Dict, lookup, insert}

pub data Color : Type 0 where
  white : Color
  gray : Color
  black : Color

abbrev pub Colors : Type 0
Colors = Dict ℤ Color

-- How a search ends: at a rule that is still being visited, with the rules on the way to it, or with
-- the colours of all rules.
pub data Outcome : Type 0 where
  cycle : (stack : List ℤ) (node : ℤ) → Outcome
  finished : Colors → Outcome
  out_of_fuel : Outcome

abbrev pub colored : Color → ℤ → Outcome → Outcome
colored color node (cycle stack n) = cycle stack n
colored color node (finished colors) = finished (insert node color colors)
colored color node out_of_fuel = out_of_fuel

abbrev pub and_then : Outcome → (Colors → Outcome) → Outcome
and_then (cycle stack n) k = cycle stack n
and_then (finished colors) k = k colors
and_then out_of_fuel k = out_of_fuel

-- The loop over the neighbours of a rule; `visit` is the recursive call.
unfoldable pub scan : (Colors → ℤ → Outcome) → List ℤ → List ℤ → Colors → Outcome
unfolding lookup
scan visit stack [] colors = finished colors
scan visit stack (n ∷ ns) colors = elim (lookup n colors) [
  | none ↦ scan visit stack ns colors
  | some color ↦ elim color [
    | gray ↦ cycle stack n
    | white ↦ and_then (visit colors n) (scan visit stack ns)
    | black ↦ scan visit stack ns colors
  ]
]

unfoldable pub dfs : (ℤ → List ℤ) → ℕ → List ℤ → Colors → ℤ → Outcome
unfolding scan insert
dfs next zero stack colors node = out_of_fuel
dfs next (suc fuel) stack colors node =
    let path = stack ++ node ∷ [] in
    colored black node (scan (dfs next fuel path) path (next node) (insert node gray colors))

-- The loop that starts a search at each rule that none has visited.
unfoldable pub search_all : (ℤ → List ℤ) → ℕ → List ℤ → Colors → Outcome
unfolding dfs lookup
search_all next fuel [] colors = finished colors
search_all next fuel (n ∷ ns) colors = elim (lookup n colors) [
  | none ↦ search_all next fuel ns colors
  | some color ↦ elim color [
    | gray ↦ search_all next fuel ns colors
    | white ↦ and_then (dfs next fuel [] colors n) (search_all next fuel ns)
    | black ↦ search_all next fuel ns colors
  ]
]

abbrev pub keys : Colors → List ℤ
keys [] = []
keys (entry ∷ d) = entry.0 ∷ keys d

unfoldable pub search : (ℤ → List ℤ) → Colors → Outcome
unfolding search_all
search next colors = search_all next (suc (length colors)) (keys colors) colors
