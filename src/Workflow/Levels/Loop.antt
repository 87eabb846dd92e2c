-- ===== src/Workflow/Levels/Loop.antt =====
-- How the loop of buildDependencyLevels can end.
use mathlib.Core.List.Perm
use mathlib.Core.List.{Perm}
use fast_rules.Base.{
  ℕ, zero, suc, ◌<◌, ◌≡◌, ◌≢◌, refl, subst, inl, inr, List, [], ◌∷◌, ◌++◌, true, false, eq_iff, Has,
  Bool-cases, arith, length, is_empty,
}
use fast_rules.Base.Int.{pos, ℤ_eq}
use fast_rules.Base.Text.{Text_eq}
use fast_rules.Rule.{Rule}
use fast_rules.Workflow.Levels.{
  Counts, ready, retire, levels_loop, Result, ok, throw, circular, out_of_fuel, add_level, concat,
}
use fast_rules.Workflow.Levels.Lists.{Distinct, keep-Has}
use fast_rules.Workflow.Levels.Sort.{IsByPriority, stable_sort-IsByPriority}
use fast_rules.Workflow.Levels.Invariant.{
  Inv, IsSatisfied, level, zeros-level, level-IsSatisfied, level-perm, next-Inv, left-shorter,
}

-- A list of levels that is built upon the rules `placed`.
abbrev pub Built : List Rule → List Rule → List (List Rule) → Type 0
Built rules placed [] = Unit {0}
Built rules placed (l ∷ ls) =
    IsByPriority l
    × (is_empty l ≡ false)
    × ((r : Rule) → Has r l → IsSatisfied rules placed r)
    × Built rules (placed ++ l) ls

-- No rule that is left can start.
pub record Stuck (rules : List Rule) : Type 0 where
  pub placed : List Rule
  pub m : List Rule
  pub d : Counts
  pub inv : Inv rules placed m d
  pub some_left : is_empty m ≡ false
  pub none_ready : (r : Rule) → Has r m → d r.id ≢ pos 0

-- How the loop can end.
abbrev pub Ends : List Rule → List Rule → List Rule → Result (List (List Rule)) → Type 0
Ends rules placed m (ok ls) = Perm (concat ls) m × Built rules placed ls
Ends rules placed m (throw circular) = Stuck rules
Ends rules placed m (throw out_of_fuel) = ⊥

empty_eq {ℓ} : {A : Type ℓ} (xs : List A) → is_empty xs ≡ true → xs ≡ []
empty_eq [] e = refl
empty_eq (x ∷ xs) e = cc

add_level-Ends :
    (rules placed m m' l : List Rule) (r : Result (List (List Rule)))
    → IsByPriority l
    → is_empty l ≡ false
    → ((q : Rule) → Has q l → IsSatisfied rules placed q)
    → Perm (l ++ m') m
    → Ends rules (placed ++ l) m' r
    → Ends rules placed m (add_level l r)
add_level-Ends rules placed m m' l (ok ls) sorted filled good p h =
    (Perm.trans (Perm.append_left l h.0) p, (sorted, filled, good, h.1))
add_level-Ends rules placed m m' l (throw circular) sorted filled good p h = h
add_level-Ends rules placed m m' l (throw out_of_fuel) sorted filled good p h = h

not-Has-nil {ℓ} : {A : Type ℓ} (x : A) → ¬ Has x []
not-Has-nil x h = elim h [ ]

pub levels_loop-Ends :
    (fuel : ℕ) (rules placed m : List Rule) (d : Counts)
    → Distinct rules
    → Inv rules placed m d
    → length m < fuel
    → Ends rules placed m (levels_loop fuel rules m d)
unfolding levels_loop
levels_loop-Ends zero rules placed m d u v h = elim h [ ]
levels_loop-Ends (suc fuel) rules placed m d u v h = elim (Bool-cases (is_empty m)) [
  | inl e ↦ rw (e, levels_loop) (rw (empty_eq m e) (Perm.nil, tt))
  | inr e ↦ elim (Bool-cases (is_empty (level rules m d))) [
    | inl e' ↦
        rw (e, e', levels_loop)
          (record {
            placed = placed;
            m = m;
            d = d;
            inv = v;
            some_left = e;
            none_ready = λ r h z. not-Has-nil r (
                subst (Has r) (empty_eq _ e') (
                  zeros-level rules placed m d u v r
                    (keep-Has _ m r h ((eq_iff (d r.id) (pos 0)).1 z))));
          })
    | inr e' ↦
        rw (e, e', levels_loop)
          (add_level-Ends rules placed m _ (level rules m d) _
            (stable_sort-IsByPriority (ready rules m d)) e' (level-IsSatisfied rules placed m d u v)
            (level-perm rules placed m d u v)
            (levels_loop-Ends fuel rules (placed ++ level rules m d)
              (retire m d (level rules m d)).0 (retire m d (level rules m d)).1 u
              (next-Inv rules placed m d u v)
              (omega (arith, left-shorter rules placed m d u v e'))))
  ]
]
