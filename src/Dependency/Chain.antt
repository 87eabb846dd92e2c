-- ===== src/Dependency/Chain.antt =====
-- What a dependency chain holds: Rule::getDependencyChain of src/rule.cpp.
use fast_rules.Base.{
  some_injective, ℕ, zero, suc, ◌≡◌, refl, sym, ap, subst, ◌∙◌, ◌⊎◌, inl, inr, List, [], ◌∷◌, Bool,
  true, false, not, all, length, ◌||◌, Option, none, some, arith, ◌==◌, get_elem?, Bool-cases,
  Option-cases, eq_iff,
}
use fast_rules.Base.Int.{ℤ, pos, ℤ_eq}
use fast_rules.Rule.{Info}
use fast_rules.Dependency.{is_visited, chain_loop, fuel_for, get_dependency_chain}
use fast_rules.Dependency.Path.{live, follow, follow_stuck, live-next, follow-live, follow_here}
use fast_rules.Dependency.Verdict.{step_among, first_of}

-- Whether the last item stands before it, or in `before`.
abbrev pub last_repeated : List ℤ → List ℤ → Bool
last_repeated before [] = false
last_repeated before (x ∷ []) = is_visited x before
last_repeated before (x ∷ y ∷ items) = last_repeated (x ∷ before) (y ∷ items)

-- Whether an item but the last stands before itself, or in `before`.
abbrev pub repeats_early : List ℤ → List ℤ → Bool
repeats_early before [] = false
repeats_early before (x ∷ []) = false
repeats_early before (x ∷ y ∷ items) = is_visited x before || repeats_early (x ∷ before) (y ∷ items)

-- The items are all that the steps from `c` lead to: none is 0, only the last can be a repetition, and
-- behind the last the steps end, or come to the id 0, or it is a repetition.
pub record IsWhole (next : ℤ → Option ℤ) (before : List ℤ) (c : ℤ) (items : List ℤ) : Type 0 where
  pub nonzero : all (λ x. not (x == pos 0)) items ≡ true
  pub single : repeats_early before items ≡ false
  pub ended :
      (follow next (length items) c ≡ none)
      ⊎ (follow next (length items) c ≡ some (pos 0))
      ⊎ (last_repeated before items ≡ true)

nothing_there {ℓ} : {A : Type ℓ} {x : A} → ¬ (none ≡ some x)
nothing_there h = ground arith

-- An item of a list of one rule, and of a list that starts with a rule.
item_of_one :
    (next : ℤ → Option ℤ) (c : ℤ) (chain : List ℤ) (k : ℕ) (x : ℤ)
    → c ∷ [] ≡ chain
    → get_elem? chain k ≡ some x
    → follow next k c ≡ some x
item_of_one next c chain zero x e g =
    follow_here next c x (some_injective (ap (λ xs. get_elem? xs 0) e ∙ g))
item_of_one next c chain (suc k) x e g =
    absurd (nothing_there (ap (λ xs. get_elem? xs (suc k)) e ∙ g))

item_of_more :
    (next : ℤ → Option ℤ) (c d : ℤ) (rest chain : List ℤ) (k : ℕ) (x : ℤ)
    → c ∷ rest ≡ chain
    → live next c ≡ some d
    → ((j : ℕ) (y : ℤ) → get_elem? rest j ≡ some y → follow next j d ≡ some y)
    → get_elem? chain k ≡ some x
    → follow next k c ≡ some x
item_of_more next c d rest chain zero x e l h g =
    follow_here next c x (some_injective (ap (λ xs. get_elem? xs 0) e ∙ g))
item_of_more next c d rest chain (suc k) x e l h g =
    follow-live next k c d l ∙ h k x (ap (λ xs. get_elem? xs (suc k)) e ∙ g)

-- What the loop appends: the rules that the steps lead to, in their order.
chain_loop-follow :
    (next : ℤ → Option ℤ) (fuel : ℕ) (visited : List ℤ) (c : ℤ) (chain : List ℤ)
    → chain_loop next fuel visited c ≡ some chain
    → (k : ℕ) (x : ℤ) → get_elem? chain k ≡ some x
    → follow next k c ≡ some x
unfolding chain_loop
chain_loop-follow next zero visited c chain h k x g = absurd (nothing_there h)
chain_loop-follow next (suc fuel) visited c chain h k x g = elim (Bool-cases (c == pos 0)) [
  | inl e ↦
      let empty = some_injective (rw (chain_loop, e) at h) in
      absurd (nothing_there (ap (λ xs. get_elem? xs k) empty ∙ g))
  | inr f₁ ↦ elim (Bool-cases (is_visited c visited)) [
    | inl e ↦ item_of_one next c chain k x (some_injective (rw (chain_loop, f₁, e) at h)) g
    | inr f₂ ↦ elim (Option-cases (next c)) [
      | inl e ↦ item_of_one next c chain k x (some_injective (rw (chain_loop, f₁, f₂, e) at h)) g
      | inr (d, e) ↦ elim (Option-cases (chain_loop next fuel (c ∷ visited) d)) [
        | inl e' ↦ absurd (nothing_there (rw (chain_loop, f₁, f₂, e, e') at h))
        | inr (rest, e') ↦
            item_of_more next c d rest chain k x
              (some_injective (rw (chain_loop, f₁, f₂, e, e') at h))
              (live-next next c (some d) f₁ e) (chain_loop-follow next fuel (c ∷ visited) d rest e')
              g
      ]
    ]
  ]
]

IsWhole-zero :
    (next : ℤ → Option ℤ) (before : List ℤ) (c : ℤ) (items : List ℤ)
    → [] ≡ items
    → c ≡ pos 0
    → IsWhole next before c items
IsWhole-zero next before c items e z =
    subst (IsWhole next before c) e
      (record { nonzero = refl; single = refl; ended = inr (inl (follow_here next c (pos 0) z)) })

IsWhole-repeated :
    (next : ℤ → Option ℤ) (before : List ℤ) (c : ℤ) (items : List ℤ)
    → c ∷ [] ≡ items
    → (c == pos 0) ≡ false
    → is_visited c before ≡ true
    → IsWhole next before c items
IsWhole-repeated next before c items e f v =
    subst (IsWhole next before c) e
      (record { nonzero = rw f refl; single = refl; ended = inr (inr v) })

IsWhole-last :
    (next : ℤ → Option ℤ) (before : List ℤ) (c : ℤ) (items : List ℤ)
    → c ∷ [] ≡ items
    → (c == pos 0) ≡ false
    → live next c ≡ none
    → IsWhole next before c items
IsWhole-last next before c items e f l =
    subst (IsWhole next before c) e
      (record { nonzero = rw f refl; single = refl; ended = inl (follow_stuck next 0 c l) })

single-more :
    (c : ℤ) (before rest : List ℤ)
    → is_visited c before ≡ false
    → repeats_early (c ∷ before) rest ≡ false
    → repeats_early before (c ∷ rest) ≡ false
single-more c before [] f h = refl
single-more c before (y ∷ rest) f h = rw (f, h) refl

ended-more :
    (next : ℤ → Option ℤ) (before : List ℤ) (c d : ℤ) (rest : List ℤ)
    → live next c ≡ some d
    → (follow next (length rest) d ≡ none)
      ⊎ (follow next (length rest) d ≡ some (pos 0))
      ⊎ (last_repeated (c ∷ before) rest ≡ true)
    → (follow next (length (c ∷ rest)) c ≡ none)
      ⊎ (follow next (length (c ∷ rest)) c ≡ some (pos 0))
      ⊎ (last_repeated before (c ∷ rest) ≡ true)
ended-more next before c d rest l (inl h) = inl (follow-live next (length rest) c d l ∙ h)
ended-more next before c d rest l (inr (inl h)) =
    inr (inl (follow-live next (length rest) c d l ∙ h))
ended-more next before c d [] l (inr (inr h)) = absurd (ground arith)
ended-more next before c d (y ∷ rest) l (inr (inr h)) = inr (inr h)

IsWhole-more :
    (next : ℤ → Option ℤ) (before : List ℤ) (c d : ℤ) (rest items : List ℤ)
    → c ∷ rest ≡ items
    → (c == pos 0) ≡ false
    → is_visited c before ≡ false
    → live next c ≡ some d
    → IsWhole next (c ∷ before) d rest
    → IsWhole next before c items
IsWhole-more next before c d rest items e f new l h = subst (IsWhole next before c) e (record {
  nonzero = rw (f, h.nonzero) refl;
  single = single-more c before rest new h.single;
  ended = ended-more next before c d rest l h.ended;
})

chain_loop-IsWhole :
    (next : ℤ → Option ℤ) (fuel : ℕ) (visited : List ℤ) (c : ℤ) (chain : List ℤ)
    → chain_loop next fuel visited c ≡ some chain
    → IsWhole next visited c chain
unfolding chain_loop
chain_loop-IsWhole next zero visited c chain h = absurd (nothing_there h)
chain_loop-IsWhole next (suc fuel) visited c chain h = elim (Bool-cases (c == pos 0)) [
  | inl e ↦
      IsWhole-zero next visited c chain (some_injective (rw (chain_loop, e) at h))
        ((eq_iff c (pos 0)).0 e)
  | inr f₁ ↦ elim (Bool-cases (is_visited c visited)) [
    | inl e ↦
        IsWhole-repeated next visited c chain (some_injective (rw (chain_loop, f₁, e) at h)) f₁ e
    | inr f₂ ↦ elim (Option-cases (next c)) [
      | inl e ↦
          IsWhole-last next visited c chain (some_injective (rw (chain_loop, f₁, f₂, e) at h)) f₁
            (live-next next c none f₁ e)
      | inr (d, e) ↦ elim (Option-cases (chain_loop next fuel (c ∷ visited) d)) [
        | inl e' ↦ absurd (nothing_there (rw (chain_loop, f₁, f₂, e, e') at h))
        | inr (rest, e') ↦
            IsWhole-more next visited c d rest chain
              (some_injective (rw (chain_loop, f₁, f₂, e, e') at h)) f₁ f₂
              (live-next next c (some d) f₁ e)
              (chain_loop-IsWhole next fuel (c ∷ visited) d rest e')
      ]
    ]
  ]
]

-- A dependency chain is the id of the rule alone, where the rule depends on none that is found, or
-- that id and behind it the rules that the steps from rule to rule lead to, in their order, from the
-- rule that it depends on: all of them, up to where the steps end, come to the id 0, or come to a
-- rule of these for the second time, which is the last item then.
pub get_dependency_chain_follows :
    (r : Info) (rules : List Info) (chain : List ℤ)
    → get_dependency_chain r rules ≡ some chain
    → ((first_of r rules ≡ none) × (chain ≡ r.id ∷ []))
      ⊎ ((c : ℤ) × (rest : List ℤ) × (first_of r rules ≡ some c)
          × (chain ≡ r.id ∷ rest)
          × IsWhole (step_among rules) [] c rest
          × ((k : ℕ) (x : ℤ) → get_elem? rest k ≡ some x → follow (step_among rules) k c ≡ some x))
unfolding get_dependency_chain
get_dependency_chain_follows r rules chain h = elim (Option-cases (first_of r rules)) [
  | inl e ↦ inl (e, sym (some_injective (rw (get_dependency_chain, e) at h)))
  | inr (c, e) ↦ elim (Option-cases (chain_loop (step_among rules) (fuel_for rules) [] c)) [
    | inl e' ↦ absurd (nothing_there (rw (get_dependency_chain, e, e') at h))
    | inr (rest, e') ↦ inr (
      c,
      rest,
      e,
      sym (some_injective (rw (get_dependency_chain, e, e') at h)),
      chain_loop-IsWhole (step_among rules) (fuel_for rules) [] c rest e',
      chain_loop-follow (step_among rules) (fuel_for rules) [] c rest e',
    )
  ]
]
