-- ===== src/Rule/Back.antt =====
-- What the check of Rule::Builder::dependsOn answers, for any rules.
use fast_rules.Base.{
  ℕ, zero, suc, ◌<◌, ◌≡◌, ◌≢◌, refl, sym, ap, subst, ◌∙◌, inl, inr, ◌↔◌, List, [], ◌∷◌, Bool, true,
  false, Option, none, some, arith, ◌==◌, eq_iff, Bool-cases, Option-cases, some_injective, length,
}
use fast_rules.Base.Int.{ℤ, pos, ℤ_eq}
use fast_rules.Base.Dict.{Dict, lookup}
use fast_rules.Base.Text.{Text, Text_eq}
use fast_rules.Rule.{Info}
use fast_rules.Rule.Builder.{leads_back, passes, no_fuel, check_of, check_dependency_on}
use fast_rules.Rule.Checked.{Inv, Verdict, leads_back-Verdict}
use fast_rules.Dependency.{next_id, rule_map, name_to_id, is_visited}
use fast_rules.Dependency.Path.{follow}
use fast_rules.Dependency.Verdict.{step_among}
use fast_rules.Dependency.Ends.{unvisited, unvisited-lt, unvisited-length, length-rule_map}

module _ (rules : Dict ℤ Info) (ids : Dict Text ℤ) (id : ℤ) where
  -- The loop ends at a rule that is not listed.
  leads_back-unlisted :
      (fuel : ℕ) (visited : List ℤ) (c : ℤ)
      → 0 < fuel
      → lookup c rules ≡ none
      → leads_back (next_id rules ids) id fuel visited c ≡ some false
  unfolding leads_back next_id
  leads_back-unlisted zero visited c lt e = absurd (omega arith)
  leads_back-unlisted (suc fuel) visited c lt e = elim (Bool-cases (c == pos 0)) [
    | inl t ↦ rw (leads_back, t) refl
    | inr f ↦ rw (leads_back, f, e) refl
  ]

  leads_back-ends :
      (fuel : ℕ) (visited : List ℤ) (c : ℤ)
      → suc (unvisited visited rules) < fuel
      → (b : Bool) × (leads_back (next_id rules ids) id fuel visited c ≡ some b)
  unfolding leads_back
  leads_back-ends zero visited c enough = absurd (omega arith)
  leads_back-ends (suc fuel) visited c enough = elim (Bool-cases (c == pos 0)) [
    | inl e ↦ (false, rw (leads_back, e) refl)
    | inr f ↦ elim (Option-cases (next_id rules ids c)) [
      | inl e ↦ (false, rw (leads_back, f, e) refl)
      | inr (d, e) ↦ elim (Bool-cases (d == id)) [
        | inl t ↦ (true, rw (leads_back, f, e, t) refl)
        | inr g ↦ elim (Bool-cases (is_visited d visited)) [
          | inl t ↦ (false, rw (leads_back, f, e, g, t) refl)
          | inr n ↦ elim (Option-cases (lookup d rules)) [
            | inl none_there ↦ (
              false,
              rw (leads_back, f, e, g, n)
                  (leads_back-unlisted fuel (d ∷ visited) d (omega arith) none_there),
            )
            | inr (r, found) ↦
                let rest =
                  leads_back-ends fuel (d ∷ visited) d
                    (omega (arith, unvisited-lt d r visited rules found n)) in
                (rest.0, rw (leads_back, f, e, g, n) rest.1)
          ]
        ]
      ]
    ]
  ]

-- What a run of the loop means that returns.
answer :
    (rules : List Info) (id first : ℤ) (r : Option Bool)
    → (b : Bool) × (r ≡ some b)
    → Verdict (step_among rules) id first first r
    → (check_of r ≢ no_fuel)
      × ((check_of r ≡ passes) ↔ ((k : ℕ) → ¬ (follow (step_among rules) k first ≡ some id)))
answer rules id first none (b, e) v = absurd (ground arith)
answer rules id first (some true) e v =
    (λ h. ground arith, (λ h. absurd (ground arith), λ far. absurd (far (suc v.0) v.1)))
answer rules id first (some false) e v = (λ h. ground arith, (λ h. v, λ far. refl))

start-Inv :
    (rules : List Info) (id first : ℤ)
    → (first == id) ≡ false
    → Inv (step_among rules) id first [] first
start-Inv rules id first f = record {
  here = inl refl;
  onward = λ v w p ne e. elim p [ inl s ↦ absurd (ne s) | inr t ↦ absurd (ground arith) ];
  other =
      λ v p s. elim p [ inl t ↦ cc ((eq_iff first id).1 (sym t ∙ s), f) | inr t ↦ ground arith ];
}

-- The check of dependsOn with a list of rules ends, and it lets a dependency pass exactly if the
-- rule of that name, if one is listed, is not the built rule and does not lead to it by the names
-- that the listed rules depend on, where nothing is followed from a rule with the id 0: the code
-- stops there.
pub check_dependency_on_iff :
    (name : Text) (id : ℤ) (rules : List Info)
    → (check_dependency_on name id rules ≢ no_fuel)
      × ((check_dependency_on name id rules ≡ passes) ↔ (
          (c : ℤ)
          → lookup name (name_to_id rules []) ≡ some c
          → (k : ℕ) → ¬ (follow (step_among rules) k c ≡ some id)))
unfolding check_dependency_on follow
check_dependency_on_iff name id rules = elim (Option-cases (lookup name (name_to_id rules []))) [
  | inl e ↦
      rw (check_dependency_on, e) (λ h. ground arith, (λ h c s k. absurd (ground arith), λ h. refl))
  | inr (first, e) ↦
      rw (check_dependency_on, e)
        (elim (Bool-cases (first == id)) [
          | inl t ↦ rw t (
            λ h. ground arith,
            (
              λ h. absurd (ground arith),
              λ far. absurd (far first refl 0 (ap some ((eq_iff first id).0 t))),
            ),
          )
          | inr f ↦
              let fuel = suc (suc (length rules)) in
              let run = leads_back (step_among rules) id fuel [] first in
              let (ends, meaning) =
                answer rules id first run
                  (leads_back-ends (rule_map rules []) (name_to_id rules []) id fuel [] first
                    (omega (arith, unvisited-length (rule_map rules []), length-rule_map rules [])))
                  (leads_back-Verdict (step_among rules) id first fuel [] first
                    (start-Inv rules id first f)) in
              rw f (
                ends,
                (
                  λ h c s k.
                      subst (λ d. ¬ (follow (step_among rules) k d ≡ some id)) (some_injective s)
                        (meaning.0 h k),
                  λ far. meaning.1 (far first refl),
                ),
              )
        ])
]
