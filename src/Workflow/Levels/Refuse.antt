-- ===== src/Workflow/Levels/Refuse.antt =====
-- Every workflow with a dependency cycle is refused.
use mathlib.Core.List.{Mem, Memᴰ, mem-cons_self, mem-cons_of_mem}
use mathlib.Core.HLevel.{⊥_prop}
use mathlib.Core.Logic.{∥∥₁_elim}
use mathlib.Core.List.Perm
use fast_rules.Base.{
  ◌≡◌, refl, sym, subst, inl, inr, List, [], ◌∷◌, ◌++◌, true, false, Has, here, there, is_empty,
}
use fast_rules.Base.Int.{ℤ_eq}
use fast_rules.Base.Text.{Text_eq}
use fast_rules.Rule.{Rule}
use fast_rules.Workflow.Levels.{
  build_dependency_levels, depends_on, Result, ok, throw, circular, out_of_fuel, concat,
}
use fast_rules.Workflow.Levels.Lists.{Distinct, Has-append_cases, Has-cons}
use fast_rules.Workflow.Levels.Loop.{Ends}
use fast_rules.Workflow.Levels.Order.{build-Ends, IsOrdered, Built-IsOrdered}
use fast_rules.Workflow.Levels.Names.{IsPlain, IsUnambiguous, depends_on-listed}
use fast_rules.Workflow.Levels.Cycles.{first_of_list}

Memᴰ-Has {ℓ} : {A : Type ℓ} {x : A} {xs : List A} → Memᴰ x xs → Has x xs
Memᴰ-Has {xs = y ∷ ys} (Memᴰ.head e) = subst (λ z. Has z (y ∷ ys)) (sym e) here
Memᴰ-Has (Memᴰ.tail m) = there (Memᴰ-Has m)

-- Each rule of `cycle` depends on a rule of `cycle`.
abbrev pub IsCycle : List Rule → List Rule → Type 0
IsCycle rules cycle =
    (r : Rule) → Has r cycle → Has r rules × (q : Rule) × Has q cycle × (depends_on q.name r ≡ true)

none_in_order :
    (rules cycle seen rest : List Rule)
    → IsPlain rules
    → IsUnambiguous rules
    → IsCycle rules cycle
    → ((q : Rule) → Has q seen → Mem q rules)
    → ((q : Rule) → Has q rest → Mem q rules)
    → ((q : Rule) → Has q seen → ¬ Has q cycle)
    → IsOrdered rules seen rest
    → (q : Rule) → Has q rest
    → ¬ Has q cycle
none_in_order rules cycle seen [] plain one c sub sub' fresh o q m k = elim m [ ]
none_in_order rules cycle seen (r ∷ rest) plain one c sub sub' fresh o q m k =
    elim (Has-cons q r rest m) [
      | inl e ↦ head_not (rw e at k)
      | inr m' ↦
          none_in_order rules cycle (seen ++ r ∷ []) rest plain one c
            (λ x h. elim (Has-append_cases seen (r ∷ []) h) [
              | inl l ↦ sub x l
              | inr l ↦ sub' x (single l)
            ])
            (λ x h. sub' x (there h))
            (λ x h x_in. elim (Has-append_cases seen (r ∷ []) h) [
              | inl l ↦ fresh x l x_in
              | inr l ↦ head_not (rw (only l) at x_in)
            ])
            o.1 q m' k
    ]
  where
    only : {x : Rule} → Has x (r ∷ []) → x ≡ r
    only {x} h = elim (Has-cons x r [] h) [ inl e ↦ e | inr k ↦ elim k [ ] ]

    single : {x : Rule} → Has x (r ∷ []) → Has x (r ∷ rest)
    single h = rw (only h) here

    head_not : ¬ Has r cycle
    head_not h =
        let (listed, p, p_in, t) = c r h in
        elim o.0 [
          | inl unlisted ↦ cc (depends_on-listed rules r p plain listed (c p p_in).0 t)
          | inr (p', before, t') ↦
              ∥∥₁_elim (sub p' before) ⊥_prop
                λ m'. fresh p' before (rw (one r p' p listed (Memᴰ-Has m') (c p p_in).0 t' t) p_in)
        ]

Has-Mem {ℓ} : {A : Type ℓ} (x : A) (xs : List A) → Has x xs → Mem x xs
Has-Mem x [] m = elim m [ ]
Has-Mem x (y ∷ xs) here = mem-cons_self
Has-Mem x (y ∷ xs) (there m) = mem-cons_of_mem y (Has-Mem x xs m)

-- A workflow with distinct ids and plain, unambiguous dependency names that holds a dependency
-- cycle is always refused as circular.
pub build_cyclic :
    (rules cycle : List Rule)
    → Distinct rules
    → IsPlain rules
    → IsUnambiguous rules
    → IsCycle rules cycle
    → is_empty cycle ≡ false
    → build_dependency_levels rules ≡ throw circular
build_cyclic rules cycle u plain one c filled =
    go (build_dependency_levels rules) (build-Ends rules u)
  where
    go : (r : Result (List (List Rule))) → Ends rules [] rules r → r ≡ throw circular
    go (ok ls) h =
        let (r, m) = first_of_list cycle filled in
        let none_in =
          none_in_order rules cycle [] (concat ls) plain one c (λ q k. elim k [ ])
            (λ q k. Perm.subset h.0 q (Has-Mem q (concat ls) k)) (λ q k. elim k [ ])
            (Built-IsOrdered rules [] ls h.1) in
        absurd (
          ∥∥₁_elim (Perm.subset (Perm.symm h.0) r (Has-Mem r rules (c r m).0)) ⊥_prop
            λ k. none_in r (Memᴰ-Has k) m)
    go (throw circular) h = refl
    go (throw out_of_fuel) h = absurd h
