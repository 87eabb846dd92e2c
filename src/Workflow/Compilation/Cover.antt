-- ===== src/Workflow/Compilation/Cover.antt =====
-- The loop ends, and it and the last level take in every rule once.
use native.Mathlib.Nat.{le_refl}
use fast_rules.Base.{
  ℕ, zero, suc, ◌≤◌, ◌<◌, ◌≡◌, refl, sym, ap, ◌∙◌, inl, inr, List, [], ◌∷◌, ◌++◌, append-nil, Bool,
  true, not, ◌&&◌, some, if◌then◌else◌, ◌==◌, ℕ_eq, eq_iff, keep, length, length-keep-le, All,
  All-Has, Has, tally, tally-append, nat_eq, nat_eq_iff, Bool-cases, arith,
}
use fast_rules.Base.Int.{pos, ℤ_eq}
use fast_rules.Rule.{Rule}
use fast_rules.Workflow.Levels.{Counts, concat}
use fast_rules.Workflow.Levels.Lists.{Has-keep, All-of}
use fast_rules.Workflow.Compilation.{
  has_address, addresses, Progress, visit_level, erase_address, erase_level, compilation_rounds,
  first_progress, leftovers, count_children, build_rounds, build_compilation_levels,
}
use fast_rules.Workflow.Compilation.Round.{
  Unique, Fresh, IsDue, addresses-append, absent-tally, present-tally, has_address-rule,
  Has-has_address, visit_level-Fresh, is_spent,
}

has-erase_address :
    (x a : ℕ) (s : List ℕ) → has_address x (erase_address a s) ≡ (has_address x s && not (a == x))
has-erase_address x a [] = refl
has-erase_address x a (b ∷ s) = ground (arith, has-erase_address x a s)

pub has-erase_level :
    (x : ℕ) (level s : List ℕ)
    → has_address x (erase_level level s) ≡ (has_address x s && not (has_address x level))
has-erase_level x [] s = ground arith
has-erase_level x (a ∷ level) s =
    has-erase_level x level (erase_address a s)
    ∙ ap (λ b. b && not (has_address x level)) (has-erase_address x a s)
    ∙ ground arith

length-erase_level-le : (level s : List ℕ) → length (erase_level level s) ≤ length s
length-erase_level-le [] s = le_refl _
length-erase_level-le (a ∷ level) s =
    omega
      (arith, length-erase_level-le level (erase_address a s), length-keep-le (λ b. not (b == a)) s)

length-erase_address-lt :
    (a : ℕ) (s : List ℕ) → has_address a s ≡ true → length (erase_address a s) < length s
length-erase_address-lt a [] h = absurd (ground arith)
length-erase_address-lt a (b ∷ s) h = elim (Bool-cases (b == a)) [
  | inl t ↦ rw t (omega (arith, length-keep-le (λ b. not (b == a)) s))
  | inr f ↦ rw f (omega (arith, length-erase_address-lt a s (rw f at h)))
]

tally-keep :
    (x : ℕ) (s : List ℕ) (rs : List Rule)
    → tally x (addresses (keep (λ r. has_address r.self s) rs))
      ≡ (if has_address x s then tally x (addresses rs) else 0)
tally-keep x s [] = ground arith
tally-keep x s (r ∷ rs) = elim (Bool-cases (nat_eq r.self x)) [
  | inl t ↦
      ground (arith, tally-keep x s rs, ap (λ y. has_address y s) ((nat_eq_iff r.self x).0 t), t)
  | inr f ↦ ground (arith, tally-keep x s rs, f)
]

tally-keep-le :
    (x : ℕ) (p : Rule → Bool) (rs : List Rule)
    → tally x (addresses (keep p rs)) ≤ tally x (addresses rs)
tally-keep-le x p [] = omega arith
tally-keep-le x p (r ∷ rs) = ground (arith, tally-keep-le x p rs)

module _ (rules : List Rule) (u : Unique rules) (listed_rules : All (λ q. Has q rules) rules) where
  abbrev total : ℕ → List ℕ → ℕ
  total x remaining = if has_address x remaining then tally x (addresses rules) else 0

  abbrev Covers : List ℕ → List (List Rule) × List ℕ → Type 0
  Covers remaining (levels, last) =
      (x : ℕ) → tally x (addresses (concat (levels ++ leftovers rules last))) ≡ total x remaining

  last-Covers : (remaining : List ℕ) → Covers remaining ([], remaining)
  last-Covers [] x = refl
  last-Covers (a ∷ remaining) x = rw append-nil (tally-keep x (a ∷ remaining) rules)

  -- A fresh level and what covers the rest cover what remained.
  level-Covers :
      (remaining : List ℕ) (p : Progress) (levels : List (List Rule)) (last : List ℕ)
      → Fresh rules remaining p
      → Covers (erase_level (addresses p.current) remaining) (levels, last)
      → Covers remaining (p.current ∷ levels, last)
  level-Covers remaining p levels last i rest x =
      rw
        (
          addresses-append p.current (concat (levels ++ leftovers rules last)),
          tally-append x (addresses p.current)
              (addresses (concat (levels ++ leftovers rules last))),
          rest x,
          has-erase_level x (addresses p.current) remaining,
        )
        (elim (Bool-cases (has_address x (addresses p.current))) [
          | inl t ↦
              let (q, m, e) = has_address-rule x p.current t in
              let (listed, there_still, s) = All-Has (IsDue rules remaining p.in_degree) i.due m in
              let some_there = present-tally x (addresses p.current) t in
              let in_rules =
                present-tally x (addresses rules)
                  (ap (λ y. has_address y (addresses rules)) (sym e) ∙ Has-has_address listed) in
              rw (t, ap (λ y. has_address y remaining) (sym e) ∙ there_still)
                (ground (arith, some_there, in_rules, i.once x, u x))
          | inr f ↦ rw (f, absent-tally x (addresses p.current) f) (ground arith)
        ])

  rounds-Covers :
      (fuel : ℕ) (remaining : List ℕ) (d : Counts) (current : List Rule)
      → Fresh rules remaining (record { in_degree = d; current = current })
      → length remaining < fuel
      → (out : List (List Rule) × List ℕ) × (compilation_rounds fuel rules remaining
            (record { in_degree = d; current = current })
          ≡ some out)
        × Covers remaining out
  unfolding compilation_rounds
  rounds-Covers zero remaining d current i enough = absurd (omega arith)
  rounds-Covers (suc fuel) remaining d [] i enough = (([], remaining), refl, last-Covers remaining)
  rounds-Covers (suc fuel) remaining d (r ∷ rs) i enough =
      let level = addresses (r ∷ rs) in
      let left = erase_level level remaining in
      let start : Progress = record { in_degree = d; current = [] } in
      let next = visit_level left rules level start in
      let fresh =
        visit_level-Fresh rules left u level start (record { due = tt; once = λ x. omega arith })
          listed_rules in
      let fewer : length left < fuel = omega (
        arith,
        length-erase_level-le (addresses rs) (erase_address r.self remaining),
        length-erase_address-lt r.self remaining i.due.0.1,
      ) in
      let ((levels, last), e, c) =
        rounds-Covers fuel left next.in_degree next.current fresh fewer in
      (
        ((r ∷ rs) ∷ levels, last),
        rw e refl,
        level-Covers remaining (record { in_degree = d; current = r ∷ rs }) levels last i c,
      )

  pub first-Fresh : Fresh rules (addresses rules) (first_progress rules)
  unfolding first_progress
  first-Fresh =
      let degrees = count_children (addresses rules) rules (λ k. pos 0) in
      record {
        due = All-of _ _ λ q m.
            let (listed, z) = Has-keep (λ r. degrees r.id == pos 0) rules q m in
            (listed, Has-has_address listed, ap is_spent ((eq_iff (degrees q.id) (pos 0)).0 z));
        once = λ x. omega (arith, u x, tally-keep-le x (λ r. degrees r.id == pos 0) rules);
      }

  pub build_rounds-Covers :
      (out : List (List Rule) × List ℕ) × (build_rounds rules ≡ some out)
      × Covers (addresses rules) out
  unfolding build_rounds
  build_rounds-Covers =
      let p = first_progress rules in
      rounds-Covers (suc (length (addresses rules))) (addresses rules) p.in_degree p.current
        first-Fresh (omega arith)

  total_of_all : (x : ℕ) → total x (addresses rules) ≡ tally x (addresses rules)
  total_of_all x = elim (Bool-cases (has_address x (addresses rules))) [
    | inl t ↦ rw t refl
    | inr f ↦ rw f (sym (absent-tally x (addresses rules) f))
  ]

pub all_listed : (rs : List Rule) → All (λ q. Has q rs) rs
all_listed rs = All-of _ rs (λ q m. m)

-- For rules at different addresses, buildCompilationLevels ends, and each address stands as often in
-- the levels as in the rules: every rule is in one level, once, and no other is.
pub build_compilation_levels_complete :
    (rules : List Rule)
    → Unique rules
    → (levels : List (List Rule)) × (build_compilation_levels rules ≡ some levels)
      × ((x : ℕ) → tally x (addresses (concat levels)) ≡ tally x (addresses rules))
unfolding build_compilation_levels
build_compilation_levels_complete rules u =
    let listed = all_listed rules in
    let ((levels, last), e, c) = build_rounds-Covers rules u listed in
    (
      levels ++ leftovers rules last,
      rw (build_compilation_levels, e) refl,
      λ x. c x ∙ total_of_all rules u listed x,
    )
