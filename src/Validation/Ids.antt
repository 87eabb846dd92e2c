-- ===== src/Validation/Ids.antt =====
-- The ids of the rules that a validation lets pass.
use fast_rules.Base.{
  ◌≡◌, ◌≢◌, refl, List, [], ◌∷◌, Bool, true, false, if◌then◌else◌, ◌==◌, eq_iff, any, All, Has,
  here, there, arith,
}
use fast_rules.Base.Int.{ℤ, ℤ_eq}
use fast_rules.Rule.{Rule}
use fast_rules.Validation.Rules.{
  Check, passes, raise, no_fuel, and_also, check_cycles, check_zero_ids, check_duplicates, checks,
}
use fast_rules.Workflow.Levels.Lists.{Distinct}

pub and_also-passes : (c d : Check) → and_also c d ≡ passes → (c ≡ passes) × (d ≡ passes)
and_also-passes passes d h = (refl, h)
and_also-passes (raise t) d h = absurd (ground arith)
and_also-passes no_fuel d h = absurd (ground arith)

-- A test that raises did not hold.
test-passes :
    (b : Bool) (c d : Check)
    → (if b then c else d) ≡ passes
    → c ≢ passes
    → (b ≡ false) × (d ≡ passes)
test-passes true c d h n = absurd (n h)
test-passes false c d h n = (refl, h)

not_among : (seen : List ℤ) (x y : ℤ) → any (λ id. id == x) seen ≡ false → Has y seen → y ≢ x
not_among [] x y f m e = elim m [ ]
not_among (z ∷ seen) x y f here e = cc ((eq_iff y x).1 e, f)
not_among (z ∷ seen) x y f (there m) e = not_among seen x y (ground arith) m e

check_duplicates-Distinct :
    (seen : List ℤ) (rules : List Rule)
    → check_duplicates seen rules ≡ passes
    → Distinct rules × ((y : ℤ) → Has y seen → All (λ r. y ≢ r.id) rules)
unfolding check_duplicates
check_duplicates-Distinct seen [] h = (tt, λ y m. tt)
check_duplicates-Distinct seen (r ∷ rs) h =
    let (new, rest) =
      test-passes (any (λ id. id == r.id) seen) _ _ h (λ e. absurd (ground arith)) in
    let (distinct, others) = check_duplicates-Distinct (r.id ∷ seen) rs rest in
    ((others r.id here, distinct), λ y m. (not_among seen r.id y new m, others y (there m)))

-- A rule that is validated among others passes only if no two of them have the same id.
pub checks-Distinct : (r : Rule) (rules : List Rule) → checks r rules ≡ passes → Distinct rules
unfolding checks
checks-Distinct r rules h =
    let later = (and_also-passes (check_cycles rules) _ h).1 in
    let ids = (and_also-passes (check_zero_ids rules) _ later).1 in
    let unique = (and_also-passes (check_duplicates [] rules) _ ids).0 in
    (check_duplicates-Distinct [] rules unique).0
