-- ===== src/Examples/Levels.antt =====
-- Small workflows: a chain of two rules, and two rules that wait for each other.
use mathlib.Core.List.{Perm}
use fast_rules.Base.{
  ℕ, ◌≡◌, ◌≢◌, refl, List, [], ◌∷◌, true, false, arith, some, none, Option, Has, here, there, ◌==◌,
  ℕ_eq, sym, ◌∙◌,
}
use fast_rules.Base.Int.{pos, negsuc}
use fast_rules.Base.Text.{Text}
use fast_rules.Rule.{Rule, nil}
use fast_rules.Workflow.Levels.{
  build_dependency_levels, resolve_execution_order, ok, throw, circular, out_of_fuel, concat,
  depends_on,
}
use fast_rules.Workflow.Levels.Lists.{Distinct}
use fast_rules.Workflow.Levels.Loop.{Built}
use fast_rules.Workflow.Levels.Names.{IsPlain, IsUnambiguous}
use fast_rules.Workflow.Levels.Order.{
  build-ne-out_of_fuel, build-Built, IsOrdered, resolve-IsOrdered,
}
use fast_rules.Workflow.Levels.Cycles.{IsRanked, build_acyclic}
use fast_rules.Workflow.Levels.Refuse.{IsCycle, build_cyclic}

abbrev rule : ℕ → Text → Option Text → Rule
rule n name dependency = record {
  info = record {
    self = n;
    id = pos n;
    name = name;
    description = [];
    expression = [];
    action = [];
    priority = pos 0;
    is_active = true;
    timeout = none;
    cache_duration = none;
    depends_on_rule_name = dependency;
    rate_limiter = none;
  };
  child_rules = nil;
}

abbrev first : Rule
first = rule 1 (b'a' ∷ []) none

abbrev second : Rule
second = rule 2 (b'b' ∷ []) (some (b'a' ∷ []))

abbrev pub chain : List Rule
chain = second ∷ first ∷ []

abbrev left : Rule
left = rule 1 (b'a' ∷ []) (some (b'b' ∷ []))

abbrev right : Rule
right = rule 2 (b'b' ∷ []) (some (b'a' ∷ []))

abbrev pub ring : List Rule
ring = left ∷ right ∷ []

chain-Distinct : Distinct chain
chain-Distinct = ((λ e. cc, tt), (tt, tt))

pub ring-Distinct : Distinct ring
ring-Distinct = ((λ e. cc, tt), (tt, tt))

chain-levels : build_dependency_levels chain ≡ ok ((first ∷ []) ∷ (second ∷ []) ∷ [])
unfolding build_dependency_levels
chain-levels = refl

chain-order : resolve_execution_order chain ≡ ok (first ∷ second ∷ [])
unfolding resolve_execution_order
chain-order = refl

build-ne-out_of_fuel_example : build_dependency_levels ring ≢ throw out_of_fuel
build-ne-out_of_fuel_example = build-ne-out_of_fuel ring ring-Distinct

build-Built_example :
    Perm (concat ((first ∷ []) ∷ (second ∷ []) ∷ [])) chain
    × Built chain [] ((first ∷ []) ∷ (second ∷ []) ∷ [])
build-Built_example =
    build-Built chain ((first ∷ []) ∷ (second ∷ []) ∷ []) chain-Distinct chain-levels

resolve-IsOrdered_example :
    Perm (first ∷ second ∷ []) chain × IsOrdered chain [] (first ∷ second ∷ [])
resolve-IsOrdered_example = resolve-IsOrdered chain (first ∷ second ∷ []) chain-Distinct chain-order

pub chain-IsPlain : IsPlain chain
chain-IsPlain r n here e = ground arith
chain-IsPlain r n (there here) e = cc
chain-IsPlain r n (there (there m)) e = elim m [ ]

-- Only the first rule of the chain is depended upon.
chain-first : (r q : Rule) → Has r chain → Has q chain → depends_on q.name r ≡ true → q ≡ first
chain-first r q h (there here) e = refl
chain-first r q here here e = cc
chain-first r q (there here) here e = cc
chain-first r q (there (there m)) here e = elim m [ ]
chain-first r q h (there (there m)) e = elim m [ ]

pub chain-IsUnambiguous : IsUnambiguous chain
chain-IsUnambiguous r q q' h m m' e e' = chain-first r q h m e ∙ sym (chain-first r q' h m' e')

abbrev by_id : Rule → ℕ
by_id r = elim r.id [ pos n ↦ n | negsuc n ↦ 0 ]

chain-IsRanked : IsRanked by_id chain
chain-IsRanked r q here here e = cc
chain-IsRanked r q here (there here) e = omega arith
chain-IsRanked r q (there here) here e = cc
chain-IsRanked r q (there here) (there here) e = cc
chain-IsRanked r q (there (there m)) k e = elim m [ ]
chain-IsRanked r q h (there (there m)) e = elim m [ ]

build_acyclic_example : (ls : List (List Rule)) × (build_dependency_levels chain ≡ ok ls)
build_acyclic_example =
    build_acyclic by_id chain chain-Distinct chain-IsPlain chain-IsUnambiguous chain-IsRanked

ring-IsPlain : IsPlain ring
ring-IsPlain r n here e = ground arith
ring-IsPlain r n (there here) e = ground arith
ring-IsPlain r n (there (there m)) e = elim m [ ]

abbrev other : Rule → Rule
other r = elim (by_id r == 1) [ true ↦ right | false ↦ left ]

ring-other : (r q : Rule) → Has r ring → Has q ring → depends_on q.name r ≡ true → q ≡ other r
ring-other r q here here e = cc
ring-other r q here (there here) e = refl
ring-other r q (there here) here e = refl
ring-other r q (there here) (there here) e = cc
ring-other r q (there (there m)) k e = elim m [ ]
ring-other r q h (there (there m)) e = elim m [ ]

ring-IsUnambiguous : IsUnambiguous ring
ring-IsUnambiguous r q q' h m m' e e' = ring-other r q h m e ∙ sym (ring-other r q' h m' e')

ring-IsCycle : IsCycle ring ring
ring-IsCycle r here = (here, right, there here, refl)
ring-IsCycle r (there here) = (there here, left, here, refl)
ring-IsCycle r (there (there m)) = elim m [ ]

build_cyclic_example : build_dependency_levels ring ≡ throw circular
build_cyclic_example =
    build_cyclic ring ring ring-Distinct ring-IsPlain ring-IsUnambiguous ring-IsCycle refl
