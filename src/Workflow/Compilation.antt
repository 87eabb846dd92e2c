-- ===== src/Workflow/Compilation.antt =====
-- Workflow::buildCompilationLevels of src/workflow.cpp. Pointers to rules are their addresses, and
-- a set of pointers is a list. `inDegree` is a function, 0 where nothing is stored.
pub mod Round
pub mod Cover
pub mod Degrees
pub mod Barrier
pub mod After
pub mod Exact
pub mod Gathered
pub mod Acyclic
use fast_rules.Base.{
  ℕ, zero, suc, List, [], ◌∷◌, ◌++◌, Bool, Option, none, some, if◌then◌else◌, ◌==◌, ℕ_eq, any, keep,
  length, is_empty, not,
}
use fast_rules.Base.Int.{ℤ, pos, inc, dec, ℤ_eq}
use fast_rules.Rule.{Rules, nil, cons, Rule}
use fast_rules.Workflow.Levels.{Counts, update}

abbrev pub has_address : ℕ → List ℕ → Bool
has_address a s = any (λ b. b == a) s

abbrev pub addresses : List Rule → List ℕ
addresses [] = []
addresses (r ∷ rs) = r.self ∷ addresses rs

abbrev pub child_addresses : Rules → List ℕ
child_addresses nil = []
child_addresses (cons info kids rest) = info.self ∷ child_addresses rest

-- How often a rule counts its children that are listed too.
abbrev pub count_listed : List ℕ → ℤ → List ℕ → Counts → Counts
count_listed top id [] d = d
count_listed top id (c ∷ cs) d =
    count_listed top id cs (if has_address c top then update d id (inc (d id)) else d)

unfoldable pub count_children : List ℕ → List Rule → Counts → Counts
count_children top [] d = d
count_children top (r ∷ rs) d =
    count_children top rs (count_listed top r.id (child_addresses r.child_rules) d)

-- `inDegree` and `currentLevel`.
pub record Progress : Type 0 where
  pub in_degree : Counts
  pub current : List Rule

-- `if (--inDegree[...] == 0)`.
abbrev pub lower : Rule → Progress → Progress
lower parent p =
    let less = dec (p.in_degree parent.id) in
    record {
      in_degree = update p.in_degree parent.id less;
      current = if less == pos 0 then p.current ++ parent ∷ [] else p.current;
    }

-- The loop over the children of `parent`, up to the `break`.
abbrev pub visit_children : ℕ → Rule → List ℕ → Progress → Progress
visit_children a parent [] p = p
visit_children a parent (c ∷ cs) p = if c == a then lower parent p else visit_children a parent cs p

abbrev pub visit_parent : List ℕ → ℕ → Rule → Progress → Progress
visit_parent remaining a parent p =
    if has_address parent.self remaining
    then visit_children a parent (child_addresses parent.child_rules) p
    else p

abbrev pub visit_parents : List ℕ → ℕ → List Rule → Progress → Progress
visit_parents remaining a [] p = p
visit_parents remaining a (parent ∷ rules) p =
    visit_parents remaining a rules (visit_parent remaining a parent p)

-- The loop over the rules of the last level, by their addresses.
unfoldable pub visit_level : List ℕ → List Rule → List ℕ → Progress → Progress
visit_level remaining rules [] p = p
visit_level remaining rules (a ∷ level) p =
    visit_level remaining rules level (visit_parents remaining a rules p)

abbrev pub erase_address : ℕ → List ℕ → List ℕ
erase_address a s = keep (λ b. not (b == a)) s

abbrev pub erase_level : List ℕ → List ℕ → List ℕ
erase_level [] s = s
erase_level (a ∷ level) s = erase_level level (erase_address a s)

-- The `while` loop: the levels and what remains. Each round takes an address out of `remaining`.
unfoldable pub compilation_rounds :
    ℕ → List Rule → List ℕ → Progress → Option (List (List Rule) × List ℕ)
unfolding visit_level
compilation_rounds zero rules remaining p = none
compilation_rounds (suc fuel) rules remaining p = elim p.current [
  | [] ↦ some ([], remaining)
  | r ∷ rs ↦
      let left = erase_level (addresses (r ∷ rs)) remaining in
      let next = visit_level left rules (addresses (r ∷ rs)) (record p { current = [] }) in
      elim (compilation_rounds fuel rules left next) [
        | none ↦ none
        | some (levels, last) ↦ some ((r ∷ rs) ∷ levels, last)
      ]
]

unfoldable pub first_progress : List Rule → Progress
unfolding count_children
first_progress rules =
    let degrees = count_children (addresses rules) rules (λ k. pos 0) in
    record { in_degree = degrees; current = keep (λ r. degrees r.id == pos 0) rules }

-- The rules that the loop leaves are the last level.
abbrev pub leftovers : List Rule → List ℕ → List (List Rule)
leftovers rules remaining =
    if is_empty remaining then [] else keep (λ r. has_address r.self remaining) rules ∷ []

unfoldable pub build_rounds : List Rule → Option (List (List Rule) × List ℕ)
unfolding compilation_rounds first_progress
build_rounds rules =
    compilation_rounds (suc (length (addresses rules))) rules (addresses rules)
      (first_progress rules)

unfoldable pub build_compilation_levels : List Rule → Option (List (List Rule))
unfolding build_rounds
build_compilation_levels rules = elim (build_rounds rules) [
  | none ↦ none
  | some (levels, remaining) ↦ some (levels ++ leftovers rules remaining)
]
