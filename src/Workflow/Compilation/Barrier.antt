-- ===== src/Workflow/Compilation/Barrier.antt =====
-- The levels of the loop keep the order: a rule comes after its listed children.
use fast_rules.Base.{
  ℕ, suc, ◌≤◌, ◌≡◌, refl, sym, ap, ◌∙◌, inl, inr, List, [], ◌∷◌, ◌++◌, true, false, ◌||◌, ℕ_eq,
  eq_refl, All-Has, Has, tally, Bool-cases, arith,
}
use fast_rules.Base.Int.{ℤ_eq}
use fast_rules.Rule.{Rule}
use fast_rules.Workflow.Levels.{Counts}
use fast_rules.Workflow.Levels.Lists.{Distinct}
use fast_rules.Workflow.Compilation.{
  has_address, addresses, child_addresses, Progress, visit_parents, visit_level, erase_level,
}
use fast_rules.Workflow.Compilation.Round.{Fresh, IsDue, has_address-rule, present-tally}
use fast_rules.Workflow.Compilation.Cover.{has-erase_level}
use fast_rules.Workflow.Compilation.Degrees.{
  waiting, at_least, at_least-le, at_least-dec, waiting-le, waiting-lt, visit_parents-degree,
}

pub has_address-append :
    (x : ℕ) (s t : List ℕ) → has_address x (s ++ t) ≡ (has_address x s || has_address x t)
has_address-append x [] t = refl
has_address-append x (a ∷ s) t = ground (arith, has_address-append x s t)

abbrev pub children : Rule → List ℕ
children r = child_addresses r.child_rules

-- Each address stands once, and not in what remains.
abbrev pub Apart : List ℕ → List ℕ → Type 0
Apart [] remaining = Unit {0}
Apart (a ∷ level) remaining = (has_address a (level ++ remaining) ≡ false) × Apart level remaining

pub Apart-once :
    (level remaining : List ℕ)
    → ((x : ℕ) → tally x level ≤ 1)
    → ((x : ℕ) → has_address x level ≡ true → has_address x remaining ≡ false)
    → Apart level remaining
Apart-once [] remaining once gone = tt
Apart-once (a ∷ level) remaining once gone = (
  rw (has_address-append a level remaining, gone a (rw (eq_refl a) refl))
      (elim (Bool-cases (has_address a level)) [
        | inl t ↦ absurd (ground (arith, present-tally a level t, once a, eq_refl a))
        | inr f ↦ rw f refl
      ]),
  Apart-once level remaining (λ x. ground (arith, once x)) (λ x h. gone x (ground arith)),
)

pub still_remains :
    (x : ℕ) (level remaining : List ℕ)
    → has_address x (erase_level level remaining) ≡ true
    → has_address x remaining ≡ true
still_remains x level remaining h = ground (arith, has-erase_level x level remaining, h)

pub level_remains :
    (rules : List Rule) (remaining : List ℕ) (p : Progress)
    → Fresh rules remaining p
    → (x : ℕ) → has_address x (addresses p.current) ≡ true
    → has_address x remaining ≡ true
level_remains rules remaining p i x h =
    let (q, m, e) = has_address-rule x p.current h in
    ap (λ y. has_address y remaining) (sym e)
    ∙ (All-Has (IsDue rules remaining p.in_degree) i.due m).1

module _ (rules : List Rule) (u : Distinct rules) where
  -- A remaining rule counts at least its children in `s`.
  abbrev pub Waits : List ℕ → List ℕ → Counts → Type 0
  Waits remaining s d =
      (r : Rule)
      → Has r rules
      → has_address r.self remaining ≡ true
      → at_least (waiting s (children r)) (d r.id) ≡ true

  visit_parents-Waits :
      (remaining : List ℕ) (a : ℕ) (s : List ℕ) (p : Progress)
      → has_address a s ≡ false
      → Waits remaining (a ∷ s) p.in_degree
      → Waits remaining s (visit_parents remaining a rules p).in_degree
  visit_parents-Waits remaining a s p f w r m h =
      rw (visit_parents-degree remaining a rules p u m, h)
        (elim (Bool-cases (has_address a (children r))) [
          | inl t ↦ rw t (
              at_least-dec (waiting s (children r)) (p.in_degree r.id) (
                at_least-le (suc (waiting s (children r))) _ _ (waiting-lt a s (children r) f t)
                  (w r m h)))
          | inr g ↦ rw g (
              at_least-le (waiting s (children r)) _ _
                (waiting-le s (a ∷ s) (children r) (λ x t. ground arith)) (w r m h))
        ])

  visit_level-Waits :
      (remaining level : List ℕ) (p : Progress)
      → Apart level remaining
      → Waits remaining (level ++ remaining) p.in_degree
      → Waits remaining remaining (visit_level remaining rules level p).in_degree
  unfolding visit_level
  visit_level-Waits remaining [] p i w = w
  visit_level-Waits remaining (a ∷ level) p i w =
      visit_level-Waits remaining level (visit_parents remaining a rules p) i.1
        (visit_parents-Waits remaining a (level ++ remaining) p i.0 w)

  -- One round of the loop leaves rules that count what they wait for.
  pub round-Waits :
      (remaining : List ℕ) (p start : Progress)
      → Fresh rules remaining p
      → start.in_degree ≡ p.in_degree
      → Waits remaining remaining p.in_degree
      → let left = erase_level (addresses p.current) remaining in
        Waits left left (visit_level left rules (addresses p.current) start).in_degree
  round-Waits remaining p start i same w =
      let level = addresses p.current in
      let left = erase_level level remaining in
      let kept : (x : ℕ) → has_address x (level ++ left) ≡ true → has_address x remaining ≡ true =
        λ x h. elim (Bool-cases (has_address x level)) [
          | inl t ↦ level_remains rules remaining p i x t
          | inr f ↦
              still_remains x level remaining
                (ground (arith, has_address-append x level left, f, h))
        ] in
      visit_level-Waits left level start
        (Apart-once level left i.once
          (λ x h. rw (has-erase_level x level remaining, h) (ground arith)))
        λ r m h. rw same (
          at_least-le (waiting (level ++ left) (children r)) _ _
            (waiting-le (level ++ left) remaining (children r) kept)
            (w r m (still_remains r.self level remaining h)))
