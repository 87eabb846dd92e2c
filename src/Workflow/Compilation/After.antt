-- ===== src/Workflow/Compilation/After.antt =====
-- The levels that the loop of buildCompilationLevels makes, in their order.
use fast_rules.Base.{
  ℕ, zero, suc, ◌≡◌, refl, subst, inl, inr, List, [], ◌∷◌, ◌++◌, true, false, Option, none, some,
  length, All, All-Has, Has, Bool-cases, arith,
}
use fast_rules.Base.Int.{pos}
use fast_rules.Rule.{Rule}
use fast_rules.Workflow.Levels.{Counts}
use fast_rules.Workflow.Levels.Lists.{Distinct, All-of}
use fast_rules.Workflow.Compilation.{
  has_address, addresses, Progress, visit_level, erase_level, compilation_rounds, first_progress,
  build_rounds,
}
use fast_rules.Workflow.Compilation.Round.{Unique, Fresh, IsDue, visit_level-Fresh}
use fast_rules.Workflow.Compilation.Cover.{
  has-erase_level, all_listed, first-Fresh, build_rounds-Covers,
}
use fast_rules.Workflow.Compilation.Degrees.{
  waiting, at_least-spent, waiting-zero, count_children-counts,
}
use fast_rules.Workflow.Compilation.Barrier.{children, has_address-append, Waits, round-Waits}

-- The rule is one of the workflow's, and each of its children that is listed is done before it.
abbrev pub IsAfter : List Rule → List ℕ → Rule → Type 0
IsAfter rules done r =
    Has r rules
    × ((c : ℕ)
        → has_address c (children r) ≡ true
        → has_address c (addresses rules) ≡ true
        → has_address c done ≡ true)

-- Level by level; `done` are the addresses of the levels before.
abbrev pub InOrder : List Rule → List ℕ → List (List Rule) → Type 0
InOrder rules done [] = Unit {0}
InOrder rules done (level ∷ levels) =
    All (IsAfter rules done) level × InOrder rules (done ++ addresses level) levels

module _ (rules : List Rule) (unique : Unique rules) (distinct : Distinct rules) where
  -- What does not remain is done.
  abbrev Gone : List ℕ → List ℕ → Type 0
  Gone remaining done =
      (x : ℕ)
      → has_address x (addresses rules) ≡ true
      → has_address x remaining ≡ false
      → has_address x done ≡ true

  level-IsAfter :
      (remaining done : List ℕ) (p : Progress)
      → Fresh rules remaining p
      → Waits rules distinct remaining remaining p.in_degree
      → Gone remaining done
      → All (IsAfter rules done) p.current
  level-IsAfter remaining done p i w g = All-of _ _ λ q m.
      let (in_rules, remains, spent) = All-Has (IsDue rules remaining p.in_degree) i.due m in
      let none_left =
        at_least-spent (waiting remaining (children q)) (p.in_degree q.id) (w q in_rules remains)
          spent in
      (
        in_rules,
        λ c child listed. g c listed (waiting-zero remaining (children q) c none_left child),
      )

  Gone-round :
      (remaining done level : List ℕ)
      → Gone remaining done
      → Gone (erase_level level remaining) (done ++ level)
  Gone-round remaining done level g x listed gone = elim (Bool-cases (has_address x remaining)) [
    | inl t ↦
        ground (arith, has_address-append x done level, has-erase_level x level remaining, t, gone)
    | inr f ↦ ground (arith, has_address-append x done level, g x listed f)
  ]

  abbrev OrderedFrom : List ℕ → Option (List (List Rule) × List ℕ) → Type 0
  OrderedFrom done none = Unit {0}
  OrderedFrom done (some (levels, last)) = InOrder rules done levels

  OrderedFrom-level :
      (done : List ℕ) (level : List Rule) (rest : Option (List (List Rule) × List ℕ))
      → All (IsAfter rules done) level
      → OrderedFrom (done ++ addresses level) rest
      → OrderedFrom done
          (elim rest [ none ↦ none | some (levels, last) ↦ some (level ∷ levels, last) ])
  OrderedFrom-level done level none h o = tt
  OrderedFrom-level done level (some (levels, last)) h o = (h, o)

  rounds-OrderedFrom :
      (fuel : ℕ) (remaining done : List ℕ) (d : Counts) (current : List Rule)
      → Fresh rules remaining (record { in_degree = d; current = current })
      → Waits rules distinct remaining remaining d
      → Gone remaining done
      → OrderedFrom done
          (compilation_rounds fuel rules remaining (record { in_degree = d; current = current }))
  unfolding compilation_rounds
  rounds-OrderedFrom zero remaining done d current i w g = tt
  rounds-OrderedFrom (suc fuel) remaining done d [] i w g = tt
  rounds-OrderedFrom (suc fuel) remaining done d (r ∷ rs) i w g =
      let p : Progress = record { in_degree = d; current = r ∷ rs } in
      let start : Progress = record { in_degree = d; current = [] } in
      let level = addresses (r ∷ rs) in
      let left = erase_level level remaining in
      let next = visit_level left rules level start in
      let fresh =
        visit_level-Fresh rules left unique level start
          (record { due = tt; once = λ x. omega arith }) (all_listed rules) in
      OrderedFrom-level done (r ∷ rs) (compilation_rounds fuel rules left next)
        (level-IsAfter remaining done p i w g)
        (rounds-OrderedFrom fuel left (done ++ level) next.in_degree next.current fresh
          (round-Waits rules distinct remaining p start i refl w)
          (Gone-round remaining done level g))

  first-OrderedFrom : OrderedFrom [] (build_rounds rules)
  unfolding build_rounds first_progress
  first-OrderedFrom =
      let p = first_progress rules in
      rounds-OrderedFrom (suc (length (addresses rules))) (addresses rules) [] p.in_degree p.current
        (first-Fresh rules unique (all_listed rules))
        (λ r m h. count_children-counts (addresses rules) rules (λ k. pos 0) (λ k. refl) m)
        (λ x listed gone. absurd (cc (listed, gone)))

-- For rules with different ids at different addresses, the loop of buildCompilationLevels ends, and
-- each rule of its levels comes after all of its children that are listed in the workflow too.
pub build_rounds-InOrder :
    (rules : List Rule)
    → Unique rules
    → Distinct rules
    → (levels : List (List Rule)) × (last : List ℕ) × (build_rounds rules ≡ some (levels, last))
      × InOrder rules [] levels
build_rounds-InOrder rules u d =
    let ((levels, last), e, c) = build_rounds-Covers rules u (all_listed rules) in
    (levels, last, e, subst (OrderedFrom rules u d []) e (first-OrderedFrom rules u d))
