-- ===== src/Workflow/Shape/Actions.antt =====
-- Which actions getAllActions collects.
use fast_rules.Base.{
  ◌≡◌, refl, sym, ◌↔◌, ◌⊎◌, inl, inr, List, [], ◌∷◌, ◌++◌, false, is_empty, Has, here, there,
  Has-append_left, Has-append_right, subst, arith,
}
use fast_rules.Base.Text.{Text, Text_eq}
use fast_rules.Rule.{Info, Rules, nil, cons, Rule}
use fast_rules.Workflow.Shape.{own_action, collect_actions, get_all_actions}

-- A rule stands among children, at any depth.
pub data Below (i : Info) : Rules → Type 0 where
  this : {kids rest : Rules} → Below i (cons i kids rest)
  deeper : {j : Info} {kids rest : Rules} → Below i kids → Below i (cons j kids rest)
  beside : {j : Info} {kids rest : Rules} → Below i rest → Below i (cons j kids rest)

-- A rule of a workflow, at any depth.
pub data Within (i : Info) : List Rule → Type 0 where
  listed : {r : Rule} {rs : List Rule} → r.info ≡ i → Within i (r ∷ rs)
  inside : {r : Rule} {rs : List Rule} → Below i r.child_rules → Within i (r ∷ rs)
  later : {r : Rule} {rs : List Rule} → Within i rs → Within i (r ∷ rs)

Has-append_or : {a : Text} (xs ys : List Text) → Has a (xs ++ ys) → Has a xs ⊎ Has a ys
Has-append_or [] ys h = inr h
Has-append_or (x ∷ xs) ys here = inl here
Has-append_or (x ∷ xs) ys (there h) = elim (Has-append_or xs ys h) [
  | inl g ↦ inl (there g)
  | inr g ↦ inr g
]

own_action-Has : (a b : Text) → Has a (own_action b) → (b ≡ a) × (is_empty a ≡ false)
own_action-Has a [] h = elim h [ ]
own_action-Has a (c ∷ s) here = (refl, refl)
own_action-Has a (c ∷ s) (there h) = elim h [ ]

Has-own_action : (a : Text) → is_empty a ≡ false → Has a (own_action a)
Has-own_action [] e = absurd (ground arith)
Has-own_action (c ∷ s) e = here

collect_actions-Below :
    (a : Text) (rs : Rules)
    → Has a (collect_actions rs)
    → (i : Info) × Below i rs × (i.action ≡ a) × (is_empty a ≡ false)
unfolding collect_actions
collect_actions-Below a nil h = elim h [ ]
collect_actions-Below a (cons i kids rest) h =
    elim (Has-append_or (own_action i.action) (collect_actions kids ++ collect_actions rest) h) [
      | inl g ↦ let own = own_action-Has a i.action g in (i, this, own.0, own.1)
      | inr g ↦ elim (Has-append_or (collect_actions kids) (collect_actions rest) g) [
        | inl k ↦ let (j, b, e, f) = collect_actions-Below a kids k in (j, deeper b, e, f)
        | inr k ↦ let (j, b, e, f) = collect_actions-Below a rest k in (j, beside b, e, f)
      ]
    ]

Below-collect_actions :
    {i : Info} {rs : Rules}
    → Below i rs
    → is_empty i.action ≡ false
    → Has i.action (collect_actions rs)
unfolding collect_actions
Below-collect_actions {i = i} this e = Has-append_left _ (Has-own_action i.action e)
Below-collect_actions (deeper {j = j} {kids = kids} b) e =
    Has-append_right (own_action j.action) (Has-append_left _ (Below-collect_actions b e))
Below-collect_actions (beside {j = j} {kids = kids} b) e =
    Has-append_right (own_action j.action)
      (Has-append_right (collect_actions kids) (Below-collect_actions b e))

found-Within :
    (a : Text) (rs : List Rule)
    → Has a (get_all_actions rs)
    → (i : Info) × Within i rs × (i.action ≡ a) × (is_empty a ≡ false)
unfolding get_all_actions
found-Within a [] h = elim h [ ]
found-Within a (r ∷ rs) h =
    elim (Has-append_or (own_action r.info.action)
      (collect_actions r.child_rules ++ get_all_actions rs) h) [
        | inl g ↦ let own = own_action-Has a r.info.action g in (r.info, listed refl, own.0, own.1)
        | inr g ↦ elim (Has-append_or (collect_actions r.child_rules) (get_all_actions rs) g) [
          | inl k ↦
              let (j, b, e, f) = collect_actions-Below a r.child_rules k in (j, inside b, e, f)
          | inr k ↦ let (j, b, e, f) = found-Within a rs k in (j, later b, e, f)
        ]
      ]

collected :
    {i : Info} {rs : List Rule}
    → Within i rs
    → is_empty i.action ≡ false
    → Has i.action (get_all_actions rs)
unfolding get_all_actions
collected {i = i} (listed {r = r} same) e =
    Has-append_left _
      (subst (λ j. Has i.action (own_action j.action)) (sym same) (Has-own_action i.action e))
collected (inside {r = r} b) e =
    Has-append_right (own_action r.info.action) (Has-append_left _ (Below-collect_actions b e))
collected (later {r = r} w) e =
    Has-append_right (own_action r.info.action)
      (Has-append_right (collect_actions r.child_rules) (collected w e))

-- The actions that are collected are those of the rules of the workflow, at any depth, that are not
-- empty.
pub get_all_actions_iff :
    (a : Text) (rs : List Rule)
    → Has a (get_all_actions rs)
      ↔ ((i : Info) × Within i rs × (i.action ≡ a) × (is_empty a ≡ false))
get_all_actions_iff a rs = (found-Within a rs, back)
  where
    back :
        ((i : Info) × Within i rs × (i.action ≡ a) × (is_empty a ≡ false))
        → Has a (get_all_actions rs)
    back (i, w, e, f) =
        subst (λ b. Has b (get_all_actions rs)) e
          (collected w (subst (λ b. is_empty b ≡ false) (sym e) f))
