-- ===== src/Workflow/Levels/Order.antt =====
-- What buildDependencyLevels and resolveExecutionOrder return, for rules with distinct ids.
use mathlib.Core.List.{Perm}
use fast_rules.Base.{
  suc, ◌≡◌, ◌≢◌, refl, sym, subst, ◌∙◌, inl, inr, ◌⊎◌, List, [], ◌∷◌, ◌++◌, true, false,
  if◌then◌else◌, eq_iff, eq_refl, All, All-Has, Has, here, there, Bool-cases, arith, length,
  Has-append_left, Has-append_right, append_assoc, append-nil,
}
use fast_rules.Base.Int.{ℤ, pos, inc, ℤ_eq}
use fast_rules.Base.Text.{Text_eq}
use fast_rules.Rule.{Rule}
use fast_rules.Workflow.Levels.{
  Counts, count_rule, to_map, has_dependency, count_dependencies, build_dependency_levels,
  depends_on, resolve_execution_order, Result, ok, throw, out_of_fuel, concat,
}
use fast_rules.Workflow.Levels.Lists.{Distinct, keep_all}
use fast_rules.Workflow.Levels.Step.{put_fresh, update_other, count_dependency}
use fast_rules.Workflow.Levels.Invariant.{Inv, IsSatisfied}
use fast_rules.Workflow.Levels.Loop.{Built, Ends, levels_loop-Ends}

Distinct-middle :
    (m : List Rule) (r : Rule) (rs : List Rule) → Distinct (m ++ r ∷ rs) → All (λ q. q.id ≢ r.id) m
Distinct-middle [] r rs u = tt
Distinct-middle (x ∷ m) r rs u =
    (All-Has (λ q. x.id ≢ q.id) u.0 (Has-append_right m here), Distinct-middle m r rs u.1)

pub to_map-append : (m rs : List Rule) → Distinct (m ++ rs) → to_map m rs ≡ m ++ rs
unfolding to_map
to_map-append m [] u = sym (append-nil m)
to_map-append m (r ∷ rs) u =
    rw (put_fresh r m (Distinct-middle m r rs u))
      (to_map-append (m ++ r ∷ []) rs (rw append_assoc u) ∙ append_assoc m (r ∷ []) rs)

count_other :
    (m : List Rule) (d : Counts) (rs : List Rule) (k : ℤ)
    → All (λ q. k ≢ q.id) rs
    → count_dependencies m d rs k ≡ d k
unfolding count_dependencies
count_other m d [] k h = refl
count_other m d (r ∷ rs) k h = elim (Bool-cases (has_dependency m r)) [
  | inl t ↦
      count_other m (count_rule m d r) rs k h.1 ∙ rw t (update_other d r.id k _ (λ e. h.0 (sym e)))
  | inr f ↦ count_other m (count_rule m d r) rs k h.1 ∙ rw f refl
]

count_one :
    (m : List Rule) (d : Counts) (rs : List Rule) (r : Rule)
    → Distinct rs
    → Has r rs
    → count_dependencies m d rs r.id ≡ (if has_dependency m r then inc (d r.id) else d r.id)
unfolding count_dependencies
count_one m d [] r u h = elim h [ ]
count_one m d (q ∷ rs) r u here =
    count_other m (count_rule m d q) rs q.id u.0 ∙ ground (arith, eq_refl q.id)
count_one m d (q ∷ rs) r u (there h) =
    count_one m (count_rule m d q) rs r u.1 h
    ∙ ground (arith, eq_iff q.id r.id, All-Has (λ x. q.id ≢ x.id) u.0 h)

abbrev no_counts : Counts
no_counts k = pos 0

start-Inv :
    (rules : List Rule)
    → Distinct rules
    → Inv rules [] rules (count_dependencies rules no_counts rules)
start-Inv rules u = record {
  which = λ r. true;
  sub = sym (keep_all (λ r. true) rules (λ r h. refl));
  degrees = λ r h. count_one rules no_counts rules r u h;
  covers = λ q h. inr h;
  known = λ q h. elim h [ ];
  once = tt;
  apart = λ q r h. elim h [ ];
}

pub build-Ends :
    (rules : List Rule) → Distinct rules → Ends rules [] rules (build_dependency_levels rules)
unfolding build_dependency_levels
build-Ends rules u =
    rw (to_map-append [] rules u)
      (levels_loop-Ends (suc (length rules)) rules [] rules _ u (start-Inv rules u) (omega arith))

-- The loop of buildDependencyLevels ends: for rules with distinct ids the fuel is never used up.
pub build-ne-out_of_fuel :
    (rules : List Rule) → Distinct rules → build_dependency_levels rules ≢ throw out_of_fuel
build-ne-out_of_fuel rules u e = subst (Ends rules [] rules) e (build-Ends rules u)

-- The levels that are returned hold every rule of the workflow exactly once. No level is empty,
-- and the priorities do not fall within one. For each rule whose dependency is listed under that
-- name, exactly one rule of that name stands in the levels before its own.
pub build-Built :
    (rules : List Rule) (ls : List (List Rule))
    → Distinct rules
    → build_dependency_levels rules ≡ ok ls
    → Perm (concat ls) rules × Built rules [] ls
build-Built rules ls u e = subst (Ends rules [] rules) e (build-Ends rules u)

-- Each rule whose dependency is listed comes after a rule of that name.
abbrev pub IsOrdered : List Rule → List Rule → List Rule → Type 0
IsOrdered rules seen [] = Unit {0}
IsOrdered rules seen (r ∷ rs) =
    (has_dependency rules r ≡ false ⊎ ((q : Rule) × Has q seen × (depends_on q.name r ≡ true)))
    × IsOrdered rules (seen ++ r ∷ []) rs

count-Has :
    (r : Rule) (l : List Rule)
    → count_dependency r l ≡ 1
    → (q : Rule) × Has q l × (depends_on q.name r ≡ true)
count-Has r [] e = absurd (omega arith)
count-Has r (x ∷ l) e = elim (Bool-cases (depends_on x.name r)) [
  | inl t ↦ (x, here, t)
  | inr f ↦ let (q, m, t) = count-Has r l (rw f at e) in (q, there m, t)
]

IsOrdered-append :
    (rules placed seen l rest : List Rule)
    → ((q : Rule) → Has q placed → Has q seen)
    → ((r : Rule) → Has r l → IsSatisfied rules placed r)
    → IsOrdered rules (seen ++ l) rest
    → IsOrdered rules seen (l ++ rest)
IsOrdered-append rules placed seen [] rest sub good o = rw append-nil at o
IsOrdered-append rules placed seen (r ∷ l) rest sub good o = (
  elim (good r here) [
    | inl unlisted ↦ inl unlisted
    | inr one ↦ let (q, m, t) = count-Has r placed one in inr (q, sub q m, t)
  ],
  IsOrdered-append rules placed (seen ++ r ∷ []) l rest (λ q m. Has-append_left _ (sub q m))
      (λ q m. good q (there m)) (rw append_assoc o),
)

pub Built-IsOrdered :
    (rules placed : List Rule) (ls : List (List Rule))
    → Built rules placed ls
    → IsOrdered rules placed (concat ls)
Built-IsOrdered rules placed [] b = tt
Built-IsOrdered rules placed (l ∷ ls) b =
    IsOrdered-append rules placed placed l (concat ls) (λ q m. m) b.2
      (Built-IsOrdered rules (placed ++ l) ls b.3)

-- The execution order holds every rule exactly once, and a rule whose dependency is listed stands
-- behind a rule of that name.
pub resolve-IsOrdered :
    (rules order : List Rule)
    → Distinct rules
    → resolve_execution_order rules ≡ ok order
    → Perm order rules × IsOrdered rules [] order
unfolding resolve_execution_order
resolve-IsOrdered rules order u e = go (build_dependency_levels rules) (build-Ends rules u) e
  where
    go :
        (r : Result (List (List Rule)))
        → Ends rules [] rules r
        → elim r [ ok ls ↦ ok (concat ls) | throw x ↦ throw x ] ≡ ok order
        → Perm order rules × IsOrdered rules [] order
    go (ok ls) h e =
        subst (λ l. Perm l rules × IsOrdered rules [] l) (cc) (h.0, Built-IsOrdered rules [] ls h.1)
    go (throw x) h e = cc
