-- ===== src/Workflow/Levels/Names.antt =====
-- Which rules a dependency names.
use fast_rules.Base.{
  ◌≤◌, ◌≡◌, ◌≢◌, refl, sym, ap, ◌∙◌, inl, inr, List, [], ◌∷◌, true, false, ◌==◌, eq_iff, any,
  All-Has, Has, here, there, Bool-cases, arith, ◌↔◌, Option, none, some,
}
use fast_rules.Base.Int.{ℤ_eq}
use fast_rules.Base.Text.{Text, Text_eq}
use fast_rules.Rule.{Rule}
use fast_rules.Workflow.Levels.{has_dependency, depends_on, c_str, is_named}
use fast_rules.Workflow.Levels.Lists.{Distinct, any-Has, Has-any}
use fast_rules.Workflow.Levels.Step.{count_dependency}

-- No dependency holds a zero byte, which would end the C string that is compared.
abbrev pub IsPlain : List Rule → Type 0
IsPlain rules = (r : Rule) (n : Text) → Has r rules → r.depends_on_rule_name ≡ some n → c_str n ≡ n

-- A name that is depended upon is the name of one rule.
abbrev pub IsUnambiguous : List Rule → Type 0
IsUnambiguous rules =
    (r q q' : Rule)
    → Has r rules
    → Has q rules
    → Has q' rules
    → depends_on q.name r ≡ true
    → depends_on q'.name r ≡ true
    → q ≡ q'

option_iff :
    (o : Option Text) (n : Text) → (elim o [ none ↦ false | some k ↦ k == n ] ≡ true) ↔ (o ≡ some n)
option_iff none n = ground arith
option_iff (some k) n = (λ h. ap some ((eq_iff k n).0 h), λ h. (eq_iff k n).1 (cc))

pub depends_on_iff :
    (n : Text) (r : Rule) → (depends_on n r ≡ true) ↔ (r.depends_on_rule_name ≡ some n)
depends_on_iff n r = option_iff r.depends_on_rule_name n

pub depends_on-listed :
    (rules : List Rule) (r q : Rule)
    → IsPlain rules
    → Has r rules
    → Has q rules
    → depends_on q.name r ≡ true
    → has_dependency rules r ≡ true
depends_on-listed rules r q plain h m t =
    let e = (depends_on_iff q.name r).0 t in
    rw (e, has_dependency)
      (any-Has (is_named (c_str q.name)) rules q m
        ((eq_iff q.name (c_str q.name)).1 (sym (plain r q.name h e))))

none_listed :
    (rules : List Rule) (o : Option Text)
    → elim o [ none ↦ false | some n ↦ any (is_named (c_str n)) rules ] ≡ true
    → (n : Text) × (o ≡ some n) × (any (is_named (c_str n)) rules ≡ true)
none_listed rules none t = cc
none_listed rules (some n) t = (n, refl, t)

pub listed-depends_on :
    (rules : List Rule) (r : Rule)
    → IsPlain rules
    → Has r rules
    → has_dependency rules r ≡ true
    → (q : Rule) × Has q rules × (depends_on q.name r ≡ true)
listed-depends_on rules r plain h t =
    let (n, e, t') = none_listed rules r.depends_on_rule_name t in
    let (q, m, e') = Has-any (is_named (c_str n)) rules t' in
    let named = (eq_iff q.name (c_str n)).0 e' ∙ plain r n h e in
    (q, m, (depends_on_iff q.name r).1 (e ∙ ap some (sym named)))

pub count_none :
    (r : Rule) (l : List Rule)
    → ((q : Rule) → Has q l → ¬ (depends_on q.name r ≡ true))
    → count_dependency r l ≡ 0
count_none r [] h = refl
count_none r (x ∷ l) h = elim (Bool-cases (depends_on x.name r)) [
  | inl t ↦ absurd (h x here t)
  | inr f ↦ rw f (count_none r l (λ q m. h q (there m)))
]

-- Of distinct rules at most one bears the name.
pub count-le_one :
    (rules l : List Rule) (r : Rule)
    → IsUnambiguous rules
    → Has r rules
    → Distinct l
    → ((q : Rule) → Has q l → Has q rules)
    → count_dependency r l ≤ 1
count-le_one rules [] r one h u sub = omega arith
count-le_one rules (x ∷ l) r one h u sub = elim (Bool-cases (depends_on x.name r)) [
  | inl t ↦
      let zero_tail : count_dependency r l ≡ 0 = count_none r l (λ q m t'.
        All-Has (λ y. x.id ≢ y.id) u.0 m
          (ap (λ (y : Rule). y.id) (one r x q h (sub x here) (sub q (there m)) t t'))) in
      rw (t, zero_tail) (omega arith)
  | inr f ↦ rw f (count-le_one rules l r one h u.1 (λ q m. sub q (there m)))
]

pub count-pos :
    (r : Rule) (l : List Rule) (q : Rule)
    → Has q l
    → depends_on q.name r ≡ true
    → 1 ≤ count_dependency r l
count-pos r [] q m t = elim m [ ]
count-pos r (x ∷ l) q here t = rw t (omega arith)
count-pos r (x ∷ l) q (there m) t = ground (arith, count-pos r l q m t)
