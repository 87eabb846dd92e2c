-- ===== src/Validation/Layers.antt =====
-- The edges of Rule::validate: a dependency becomes an edge only if the rule that it names stands
-- earlier in the list, so the rules lie in layers.
use mathlib.Core.WellFounded.{Acc}
use fast_rules.Base.{
  ◌≡◌, ◌≢◌, refl, sym, ap, subst, ◌∙◌, ◌⊎◌, inl, inr, List, [], ◌∷◌, ◌++◌, false, Option, none,
  some, ◌==◌, eq_iff, if◌then◌else◌, Has, here, there, Bool-cases, Option-cases, some_injective,
}
use fast_rules.Base.Int.{ℤ, ℤ_eq}
use fast_rules.Base.Dict.{Dict, lookup, insert, lookup-insert}
use fast_rules.Base.Text.{Text, Text_eq}
use fast_rules.Rule.{Rule}
use fast_rules.Validation.{white, Colors}
use fast_rules.Validation.Verdict.{IsFresh}
use fast_rules.Validation.Rules.{Links, neighbors, link_dependency, link_to, register, append_edge}
use fast_rules.Workflow.Levels.Lists.{Has-append_cases}

abbrev pub Neighbor : Links → ℤ → ℤ → Type 0
Neighbor l y x = Has y (neighbors l.adjacency x)

-- All edges and names lead to rules that were seen, and every walk along the edges ends.
pub record IsLayered (seen : List ℤ) (l : Links) : Type 0 where
  pub closed : (x y : ℤ) → Neighbor l y x → Has x seen × Has y seen
  pub named : (n : Text) (y : ℤ) → lookup n l.rule_by_name ≡ some y → Has y seen
  pub ends : (x : ℤ) → Acc (Neighbor l) x
  pub fresh : IsFresh l.color

neighbors-insert :
    (adjacency : Dict ℤ (List ℤ)) (id x : ℤ) (ids : List ℤ)
    → neighbors (insert id ids adjacency) x ≡ (if id == x then ids else neighbors adjacency x)
unfolding neighbors
neighbors-insert adjacency id x ids = elim (Bool-cases (id == x)) [
  | inl e ↦ rw (lookup-insert id x ids adjacency, e)
  | inr f ↦ rw (lookup-insert id x ids adjacency, f)
]

IsFresh-insert : (id : ℤ) (c : Colors) → IsFresh c → IsFresh (insert id white c)
unfolding insert
IsFresh-insert id [] f = (refl, tt)
IsFresh-insert id (entry ∷ c) f = elim (Bool-cases (entry.0 == id)) [
  | inl e ↦ rw e (refl, f.1)
  | inr g ↦ rw g (f.0, IsFresh-insert id c f.1)
]

-- A rule is known by its own name, beside the names that were known.
register-names :
    (r : Rule) (l : Links) (n : Text)
    → (r.name == n) ≡ false
    → lookup n (register r l).rule_by_name ≡ lookup n l.rule_by_name
register-names r l n f = elim (Bool-cases (r.name == [])) [
  | inl e ↦ rw e
  | inr g ↦ rw g (lookup-insert r.name n r.id l.rule_by_name ∙ rw f)
]

register-own :
    (r : Rule) (l : Links) (n : Text) (y : ℤ)
    → lookup n (register r l).rule_by_name ≡ some y
    → (y ≡ r.id) ⊎ (lookup n l.rule_by_name ≡ some y)
register-own r l n y h = elim (Bool-cases (r.name == n)) [
  | inl e ↦ elim (Bool-cases (r.name == [])) [
    | inl e' ↦ inr (rw e' at h)
    | inr g ↦
        let own : lookup n (insert r.name r.id l.rule_by_name) ≡ some y = rw g at h in
        inl (sym (some_injective (rw (lookup-insert r.name n r.id l.rule_by_name, e) at own)))
  ]
  | inr f ↦ inr (sym (register-names r l n f) ∙ h)
]

link_dependency-keeps :
    (id : ℤ) (o : Option Text) (l : Links)
    → ((link_dependency id o l).rule_by_name ≡ l.rule_by_name)
      × ((link_dependency id o l).color ≡ l.color)
link_dependency-keeps id none l = (refl, refl)
link_dependency-keeps id (some n) l = go (lookup n l.rule_by_name)
  where
    go :
        (o : Option ℤ)
        → ((link_to id o l).rule_by_name ≡ l.rule_by_name) × ((link_to id o l).color ≡ l.color)
    go none = (refl, refl)
    go (some y) = (refl, refl)

Has-one : {x y : ℤ} → Has x (y ∷ []) → x ≡ y
Has-one here = refl
Has-one (there m) = elim m [ ]

-- The rule was not seen before, and does not depend on itself.
module _ (r : Rule) (seen : List ℤ) (l : Links) (layered : IsLayered seen l) (new : ¬ Has r.id seen)
    (other : r.depends_on_rule_name ≢ some r.name) where
  abbrev pub linked : Links
  linked = link_dependency r.id r.depends_on_rule_name (register r l)

  pushed :
      (x y z : ℤ)
      → Has y seen
      → Has z (neighbors (append_edge r.id y l.adjacency) x)
      → Neighbor l z x ⊎ ((x ≡ r.id) × Has z seen)
  pushed x y z s h = elim (Bool-cases (r.id == x)) [
    | inl e ↦
        let same : r.id ≡ x = (eq_iff r.id x).0 e in
        elim (Has-append_cases (neighbors l.adjacency r.id) (y ∷ []) (
          rw (neighbors-insert l.adjacency r.id x (neighbors l.adjacency r.id ++ y ∷ []), e) at
            h)) [
              | inl old ↦ absurd (new (layered.closed r.id z old).0)
              | inr last ↦ inr (sym same, subst (λ u. Has u seen) (sym (Has-one last)) s)
            ]
    | inr f ↦
        inl
          (rw (neighbors-insert l.adjacency r.id x (neighbors l.adjacency r.id ++ y ∷ []), f) at h)
  ]

  apart : (n : Text) → some n ≢ some r.name → (r.name == n) ≡ false
  apart n o = elim (Bool-cases (r.name == n)) [
    | inl e ↦ absurd (o (sym (ap some ((eq_iff r.name n).0 e))))
    | inr f ↦ f
  ]

  linked-Neighbor : (x z : ℤ) → Neighbor linked z x → Neighbor l z x ⊎ ((x ≡ r.id) × Has z seen)
  linked-Neighbor x z h = go r.depends_on_rule_name other h
    where
      go :
          (o : Option Text)
          → o ≢ some r.name
          → Neighbor (link_dependency r.id o (register r l)) z x
          → Neighbor l z x ⊎ ((x ≡ r.id) × Has z seen)
      go none o h = inl h
      go (some n) o h = elim (Option-cases (lookup n (register r l).rule_by_name)) [
        | inl e ↦ inl (rw e at h)
        | inr (y, e) ↦
            let far : (r.name == n) ≡ false = apart n o in
            pushed x y z (layered.named n y (sym (register-names r l n far) ∙ e)) (rw e at h)
      ]

  -- The walks of the rules that were seen are those from before.
  kept : (x : ℤ) → Acc (Neighbor l) x → Has x seen → Acc (Neighbor linked) x
  kept x (Acc.intro _ below) s = Acc.intro x λ z h. elim (linked-Neighbor x z h) [
    | inl old ↦ kept z (below z old) (layered.closed x z old).1
    | inr (e, m) ↦ absurd (new (subst (λ u. Has u seen) e s))
  ]

  linked-names : (n : Text) (y : ℤ) → lookup n linked.rule_by_name ≡ some y → Has y (r.id ∷ seen)
  linked-names n y h =
      let kept_names = (link_dependency-keeps r.id r.depends_on_rule_name (register r l)).0 in
      elim (register-own r l n y (sym (ap (λ d. lookup n d) kept_names) ∙ h)) [
        | inl e ↦ rw e here
        | inr old ↦ there (layered.named n y old)
      ]

  pub linked-IsLayered : IsLayered (r.id ∷ seen) linked
  linked-IsLayered = record {
    closed = λ x y h. elim (linked-Neighbor x y h) [
      | inl old ↦ let (a, b) = layered.closed x y old in (there a, there b)
      | inr (e, m) ↦ (rw e here, there m)
    ];
    named = linked-names;
    ends = λ x. Acc.intro x λ z h. elim (linked-Neighbor x z h) [
      | inl old ↦ kept z (layered.ends z) (layered.closed x z old).1
      | inr (e, m) ↦ kept z (layered.ends z) m
    ];
    fresh =
        subst IsFresh (sym (link_dependency-keeps r.id r.depends_on_rule_name (register r l)).1)
          (IsFresh-insert r.id l.color layered.fresh);
  }
