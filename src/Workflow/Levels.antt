-- ===== src/Workflow/Levels.antt =====
-- Workflow::buildDependencyLevels and Workflow::resolveExecutionOrder of src/workflow.cpp: Kahn's
-- algorithm by levels. `ruleMap` maps an id to the rule with that id, so it is the list of its
-- values. Nothing depends on its order. `inDegree` is a function, 0 where nothing is stored.
pub mod Lists
pub mod Step
pub mod Sort
pub mod Invariant
pub mod Loop
pub mod Order
pub mod Names
pub mod Cycles
pub mod Refuse
use fast_rules.Base.{
  ℕ, zero, suc, List, [], ◌∷◌, ◌++◌, Bool, true, false, ◌&&◌, Option, none, some, if◌then◌else◌,
  ◌==◌, any, keep, length, is_empty, ℕ_eq,
}
use fast_rules.Base.Int.{ℤ, pos, inc, dec, ltb_ℤ, ℤ_eq}
use fast_rules.Base.Text.{Text, Text_eq}
use fast_rules.Rule.{Rule}

pub data Error : Type 0 where
  circular : Error
  out_of_fuel : Error

pub data Result {ℓ} (A : Type ℓ) : Type ℓ where
  ok : A → Result A
  throw : Error → Result A

abbrev pub Counts : Type 0
Counts = ℤ → ℤ

abbrev pub update : Counts → ℤ → ℤ → Counts
update d k v j = if k == j then v else d j

-- `ruleMap[rule->id] = rule`.
unfoldable pub put : Rule → List Rule → List Rule
put r [] = r ∷ []
put r (q ∷ m) = if q.id == r.id then r ∷ m else q ∷ put r m

unfoldable pub to_map : List Rule → List Rule → List Rule
unfolding put
to_map m [] = m
to_map m (r ∷ rs) = to_map (put r m) rs

abbrev pub in_map : ℤ → List Rule → Bool
in_map k m = any (λ q. q.id == k) m

abbrev pub erase_id : ℤ → List Rule → List Rule
erase_id k m = keep (λ q. if q.id == k then false else true) m

-- A `const char*` ends at the first zero byte.
abbrev pub c_str : Text → Text
c_str [] = []
c_str (c ∷ s) = if c == 0 then [] else c ∷ c_str s

abbrev pub is_named : Text → Rule → Bool
is_named n q = q.name == n

-- The name search that counts a dependency goes through `c_str`.
abbrev pub has_dependency : List Rule → Rule → Bool
has_dependency m r = elim r.depends_on_rule_name [
  | none ↦ false
  | some n ↦ any (is_named (c_str n)) m
]

abbrev pub count_rule : List Rule → Counts → Rule → Counts
count_rule m d r = if has_dependency m r then update d r.id (inc (d r.id)) else d

unfoldable pub count_dependencies : List Rule → Counts → List Rule → Counts
count_dependencies m d [] = d
count_dependencies m d (r ∷ rs) = count_dependencies m (count_rule m d r) rs

-- `std::stable_sort` by priority: of equal priorities the first stays first.
abbrev pub insert_by_priority : Rule → List Rule → List Rule
insert_by_priority r [] = r ∷ []
insert_by_priority r (q ∷ l) =
    if ltb_ℤ q.priority r.priority then q ∷ insert_by_priority r l else r ∷ q ∷ l

unfoldable pub stable_sort : List Rule → List Rule
stable_sort [] = []
stable_sort (r ∷ l) = insert_by_priority r (stable_sort l)

unfoldable pub ready : List Rule → List Rule → Counts → List Rule
ready rules m d = keep (λ r. in_map r.id m && (d r.id == pos 0)) rules

abbrev pub depends_on : Text → Rule → Bool
depends_on n r = elim r.depends_on_rule_name [ none ↦ false | some k ↦ k == n ]

-- Every remaining rule that depends on the name loses one.
unfoldable pub decrement : Text → List Rule → Counts → Counts
decrement n [] d = d
decrement n (q ∷ m) d = decrement n m (if depends_on n q then update d q.id (dec (d q.id)) else d)

unfoldable pub retire : List Rule → Counts → List Rule → List Rule × Counts
unfolding decrement
retire m d [] = (m, d)
retire m d (r ∷ rs) = let m' = erase_id r.id m in retire m' (decrement r.name m' d) rs

abbrev pub add_level : List Rule → Result (List (List Rule)) → Result (List (List Rule))
add_level l (ok ls) = ok (l ∷ ls)
add_level l (throw e) = throw e

-- The `while` loop. Each round takes a rule out of the map, so fuel above its size is enough.
unfoldable pub levels_loop : ℕ → List Rule → List Rule → Counts → Result (List (List Rule))
unfolding ready stable_sort retire
levels_loop zero rules m d = throw out_of_fuel
levels_loop (suc fuel) rules m d = elim (is_empty m) [
  | true ↦ ok []
  | false ↦
      let level = stable_sort (ready rules m d) in
      elim (is_empty level) [
        | true ↦ throw circular
        | false ↦
            let next = retire m d level in add_level level (levels_loop fuel rules next.0 next.1)
      ]
]

unfoldable pub build_dependency_levels : List Rule → Result (List (List Rule))
unfolding to_map count_dependencies levels_loop
build_dependency_levels rules =
    let m = to_map [] rules in
    levels_loop (suc (length m)) rules m (count_dependencies m (λ _. pos 0) rules)

abbrev pub concat : List (List Rule) → List Rule
concat [] = []
concat (l ∷ ls) = l ++ concat ls

unfoldable pub resolve_execution_order : List Rule → Result (List Rule)
unfolding build_dependency_levels
resolve_execution_order rules = elim (build_dependency_levels rules) [
  | ok ls ↦ ok (concat ls)
  | throw e ↦ throw e
]
