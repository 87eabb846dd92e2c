-- ===== src/Dependency/Path.antt =====
-- The steps from rule to rule by the names they depend on, as the loops of src/rule.cpp and
-- include/fastrules/rule.hpp take them, and what the answer of hasCircularDependency means.
use fast_rules.Base.{
  ℕ, zero, suc, ◌+◌, ◌≡◌, refl, sym, ap, subst, ◌∙◌, ◌⊎◌, inl, inr, List, [], ◌∷◌, true, false,
  Option, none, some, arith, ◌==◌, All, Bool-cases, Option-cases, eq_iff,
}
use fast_rules.Base.Int.{ℤ, pos, ℤ_eq}
use fast_rules.Base.Text.{Text_eq}
use fast_rules.Dependency.{is_visited, circular_loop}

pub apart : {x : ℤ} → ¬ (none ≡ some x)
apart h = ground arith

differs : (x y : ℤ) → (x == y) ≡ false → ¬ (some x ≡ some y)
differs x y f e = let same : x ≡ y = cc in cc ((eq_iff x y).1 same, f)

other_than : (c id : ℤ) → c ≡ pos 0 → (id == pos 0) ≡ false → (c == id) ≡ false
other_than c id e nz = elim (Bool-cases (c == id)) [
  | inl same ↦
      let zero_id : id ≡ pos 0 = sym ((eq_iff c id).0 same) ∙ e in
      absurd (cc ((eq_iff id (pos 0)).1 zero_id, nz))
  | inr f ↦ f
]

yes_no : ¬ (some true ≡ some false)
yes_no h = ground arith

module _ (next : ℤ → Option ℤ) where
  -- The step from a rule as the code takes it. A rule with the id 0 has none, whatever rule it names:
  -- the loops run `while (current != 0)`.
  unfoldable pub live : ℤ → Option ℤ
  live c = elim (c == pos 0) [ true ↦ none | false ↦ next c ]

  -- The rule `k` steps on.
  unfoldable pub follow : ℕ → ℤ → Option ℤ
  unfolding live
  follow zero c = some c
  follow (suc k) c = elim (live c) [ none ↦ none | some d ↦ follow k d ]

  -- The steps never end.
  abbrev pub Endless : ℤ → Type 0
  Endless c = (k : ℕ) → (x : ℤ) × (follow k c ≡ some x)

  pub live-next : (c : ℤ) (d : Option ℤ) → (c == pos 0) ≡ false → next c ≡ d → live c ≡ d
  unfolding live
  live-next c d f e = rw (live, f) e

  live_zero : (c : ℤ) → (c == pos 0) ≡ true → live c ≡ none
  unfolding live
  live_zero c e = rw (live, e) refl

  pub follow-live : (k : ℕ) (c d : ℤ) → live c ≡ some d → follow (suc k) c ≡ follow k d
  unfolding follow
  follow-live k c d e = rw (follow, e) refl

  pub follow_stuck : (k : ℕ) (c : ℤ) → live c ≡ none → follow (suc k) c ≡ none
  unfolding follow
  follow_stuck k c e = rw (follow, e) refl

  follow-add : (k m : ℕ) (c d : ℤ) → follow k c ≡ some d → follow (k + m) c ≡ follow m d
  unfolding follow
  follow-add zero m c d h =
      let e : 0 + m ≡ m = omega arith in
      ap (λ n. follow n c) e ∙ ap (λ o. elim o [ none ↦ none | some x ↦ follow m x ]) h
  follow-add (suc k) m c d h = elim (Option-cases (live c)) [
    | inl e ↦ absurd (apart (sym (follow_stuck k c e) ∙ h))
    | inr (x, e) ↦
        let n : suc k + m ≡ suc (k + m) = omega arith in
        ap (λ n. follow n c) n
        ∙ follow-live (k + m) c x e
        ∙ follow-add k m x d (sym (follow-live k c x e) ∙ h)
  ]

  -- The steps end, and none of them leads to `id`.
  abbrev pub EndsWithout : ℤ → ℤ → Type 0
  EndsWithout id c = ((n : ℕ) × (follow n c ≡ none)) × ((k : ℕ) → ¬ (follow k c ≡ some id))

  stopped : (id c : ℤ) → (c == id) ≡ false → live c ≡ none → EndsWithout id c
  unfolding follow
  stopped id c f e = ((1, follow_stuck 0 c e), never)
    where
      never : (k : ℕ) → ¬ (follow k c ≡ some id)
      never zero h = differs c id f h
      never (suc k) h = apart (sym (follow_stuck k c e) ∙ h)

  goes_on : (id c d : ℤ) → (c == id) ≡ false → live c ≡ some d → EndsWithout id d → EndsWithout id c
  unfolding follow
  goes_on id c d f e ((n, h), g) = ((suc n, follow-live n c d e ∙ h), never)
    where
      never : (k : ℕ) → ¬ (follow k c ≡ some id)
      never zero h = differs c id f h
      never (suc k) h = g k (sym (follow-live k c d e) ∙ h)

  pub circular_loop-false :
      (id : ℤ) (fuel : ℕ) (visited : List ℤ) (c : ℤ)
      → (id == pos 0) ≡ false
      → circular_loop next id fuel visited c ≡ some false
      → EndsWithout id c
  unfolding circular_loop
  circular_loop-false id zero visited c nz h = absurd (ground arith)
  circular_loop-false id (suc fuel) visited c nz h = elim (Bool-cases (c == pos 0)) [
    | inl e ↦
        let zero_id : c ≡ pos 0 = (eq_iff c (pos 0)).0 e in
        stopped id c (other_than c id zero_id nz) (live_zero c e)
    | inr f₁ ↦ elim (Bool-cases (c == id)) [
      | inl e ↦ absurd (yes_no (rw (circular_loop, f₁, e) at h))
      | inr f₂ ↦ elim (Bool-cases (is_visited c visited)) [
        | inl e ↦ absurd (yes_no (rw (circular_loop, f₁, f₂, e) at h))
        | inr f₃ ↦ elim (Option-cases (next c)) [
          | inl e ↦ stopped id c f₂ (live-next c none f₁ e)
          | inr (d, e) ↦ goes_on id c d f₂ (live-next c (some d) f₁ e) (
              circular_loop-false id fuel (c ∷ visited) d nz
                (rw (circular_loop, f₁, f₂, f₃, e) at h))
        ]
      ]
    ]
  ]

  -- Each visited rule leads to the current one, by one step or more.
  abbrev Visits : List ℤ → ℤ → Type 0
  Visits visited c = All (λ v. (m : ℕ) × (follow (suc m) v ≡ some c)) visited

  Visits-next : (visited : List ℤ) (c d : ℤ) → live c ≡ some d → Visits visited c → Visits visited d
  unfolding follow
  Visits-next [] c d e h = tt
  Visits-next (v ∷ visited) c d e h =
      let (m, g) = h.0 in
      let n : suc m + 1 ≡ suc (suc m) = omega arith in
      (
        (suc m, ap (λ k. follow k v) (sym n) ∙ follow-add (suc m) 1 v c g ∙ follow-live 0 c d e),
        Visits-next visited c d e h.1,
      )

  visited-Visits :
      (visited : List ℤ) (c d : ℤ)
      → is_visited c visited ≡ true
      → Visits visited d
      → (m : ℕ) × (follow (suc m) c ≡ some d)
  visited-Visits [] c d e h = absurd (ground arith)
  visited-Visits (v ∷ visited) c d e h = elim (Bool-cases (v == c)) [
    | inl same ↦ subst (λ x. (m : ℕ) × (follow (suc m) x ≡ some d)) ((eq_iff v c).0 same) h.0
    | inr other ↦ visited-Visits visited c d (rw other at e) h.1
  ]

  pub follow_here : (c d : ℤ) → c ≡ d → follow 0 c ≡ some d
  unfolding follow
  follow_here c d e = ap some e

  -- Where many steps are possible, fewer are.
  follow_fewer : (k m : ℕ) (c x : ℤ) → follow (k + m) c ≡ some x → (y : ℤ) × (follow k c ≡ some y)
  unfolding follow
  follow_fewer zero m c x h = (c, refl)
  follow_fewer (suc k) m c x h = elim (Option-cases (live c)) [
    | inl e ↦
        let n : suc k + m ≡ suc (k + m) = omega arith in
        absurd (apart (sym (follow_stuck (k + m) c e) ∙ ap (λ n. follow n c) (sym n) ∙ h))
    | inr (d, e) ↦
        let n : suc k + m ≡ suc (k + m) = omega arith in
        let rest =
          follow_fewer k m d x
            (sym (follow-live (k + m) c d e) ∙ ap (λ n. follow n c) (sym n) ∙ h) in
        (rest.0, follow-live k c d e ∙ rest.1)
  ]

  -- A circle can be gone round for ever.
  circle-Endless : (m : ℕ) (c : ℤ) → follow (suc m) c ≡ some c → Endless c
  circle-Endless m c h k = let far = rounds k in follow_fewer k far.0 c c far.1
    where
      rounds : (k : ℕ) → (extra : ℕ) × (follow (k + extra) c ≡ some c)
      rounds zero = let n : 0 + suc m ≡ suc m = omega arith in (suc m, ap (λ k. follow k c) n ∙ h)
      rounds (suc k) =
          let (extra, g) = rounds k in
          let n : suc k + (m + extra) ≡ suc m + (k + extra) = omega arith in
          (m + extra, ap (λ k. follow k c) n ∙ follow-add (suc m) (k + extra) c c h ∙ g)

  -- The answer `true`: the steps lead to `id`, or they never end.
  abbrev pub Circles : ℤ → ℤ → Type 0
  Circles id c = ((k : ℕ) × (follow k c ≡ some id)) ⊎ Endless c

  Circles-step : (id c d : ℤ) → live c ≡ some d → Circles id d → Circles id c
  Circles-step id c d e (inl (k, h)) = inl (suc k, follow-live k c d e ∙ h)
  Circles-step id c d e (inr h) = inr endless
    where
      endless : Endless c
      endless zero = (c, follow_here c c refl)
      endless (suc k) = let (x, g) = h k in (x, follow-live k c d e ∙ g)

  pub circular_loop-true :
      (id : ℤ) (fuel : ℕ) (visited : List ℤ) (c : ℤ)
      → Visits visited c
      → circular_loop next id fuel visited c ≡ some true
      → Circles id c
  unfolding circular_loop
  circular_loop-true id zero visited c v h = absurd (ground arith)
  circular_loop-true id (suc fuel) visited c v h = elim (Bool-cases (c == pos 0)) [
    | inl e ↦ absurd (yes_no (sym (rw (circular_loop, e) at h)))
    | inr f₁ ↦ elim (Bool-cases (c == id)) [
      | inl e ↦ inl (0, follow_here c id ((eq_iff c id).0 e))
      | inr f₂ ↦ elim (Bool-cases (is_visited c visited)) [
        | inl e ↦ let (m, g) = visited-Visits visited c c e v in inr (circle-Endless m c g)
        | inr f₃ ↦ elim (Option-cases (next c)) [
          | inl e ↦ absurd (yes_no (sym (rw (circular_loop, f₁, f₂, f₃, e) at h)))
          | inr (d, e) ↦
              let step = live-next c (some d) f₁ e in
              Circles-step id c d step (
                circular_loop-true id fuel (c ∷ visited) d
                  (
                    (0, follow-live 0 c d step ∙ follow_here d d refl),
                    Visits-next visited c d step v,
                  )
                  (rw (circular_loop, f₁, f₂, f₃, e) at h))
        ]
      ]
    ]
  ]
