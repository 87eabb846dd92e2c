-- ===== src/Rule/Checked.antt =====
-- The check of Rule::Builder::dependsOn ends, and raises exactly where the dependencies lead back.
use fast_rules.Base.{
  ℕ, zero, suc, ◌≡◌, ◌≢◌, refl, sym, ap, subst, ◌∙◌, ◌⊎◌, inl, inr, List, ◌∷◌, Bool, true, false,
  Option, none, some, arith, ◌==◌, eq_iff, Bool-cases, Option-cases, some_injective,
}
use fast_rules.Base.Int.{ℤ, pos, ℤ_eq}
use fast_rules.Rule.Builder.{leads_back}
use fast_rules.Dependency.{is_visited}
use fast_rules.Dependency.Path.{live, follow, live-next, follow-live}

module _ (next : ℤ → Option ℤ) (id first : ℤ) where
  -- The rules that the loop has come by.
  abbrev pub Passed : List ℤ → ℤ → Type 0
  Passed visited v = (v ≡ first) ⊎ (is_visited v visited ≡ true)

  -- Each of them but the current one leads to another one of them, if anywhere, and none is `id`.
  pub record Inv (visited : List ℤ) (current : ℤ) : Type 0 where
    pub here : Passed visited current
    pub onward :
        (v w : ℤ) → Passed visited v → v ≢ current → live next v ≡ some w → Passed visited w
    pub other : (v : ℤ) → Passed visited v → v ≢ id

  -- Where the steps stay among some rules, they do not lead to another one.
  never :
      (visited : List ℤ)
      → ((v w : ℤ) → Passed visited v → live next v ≡ some w → Passed visited w)
      → ((v : ℤ) → Passed visited v → v ≢ id)
      → (k : ℕ) (v : ℤ) → Passed visited v
      → ¬ (follow next k v ≡ some id)
  unfolding follow
  never visited stay other zero v p h = other v p (some_injective h)
  never visited stay other (suc k) v p h = elim (Option-cases (live next v)) [
    | inl e ↦ absurd (ground (arith, rw (follow, e) at h))
    | inr (w, e) ↦ never visited stay other k w (stay v w p e) (sym (follow-live next k v w e) ∙ h)
  ]

  -- The steps from the current rule go where the last test has looked.
  stays :
      (visited : List ℤ) (current : ℤ)
      → Inv visited current
      → ((w : ℤ) → live next current ≡ some w → Passed visited w)
      → (v w : ℤ) → Passed visited v
      → live next v ≡ some w
      → Passed visited w
  stays visited current i last v w p e = elim (Bool-cases (v == current)) [
    | inl t ↦ last w (sym (ap (live next) ((eq_iff v current).0 t)) ∙ e)
    | inr f ↦ i.onward v w p (λ s. absurd (cc ((eq_iff v current).1 s, f))) e
  ]

  Passed-cons : (visited : List ℤ) (other v : ℤ) → Passed visited v → Passed (other ∷ visited) v
  Passed-cons visited other v (inl e) = inl e
  Passed-cons visited other v (inr t) = inr (ground arith)

  -- What the loop has found, where it does not run out of fuel.
  abbrev pub Verdict : ℤ → Option Bool → Type 0
  Verdict c none = Unit
  Verdict c (some true) = (k : ℕ) × (follow next (suc k) c ≡ some id)
  Verdict c (some false) = (k : ℕ) → ¬ (follow next k c ≡ some id)

  Passed-uncons : (visited : List ℤ) (d v : ℤ) → Passed (d ∷ visited) v → (v ≡ d) ⊎ Passed visited v
  Passed-uncons visited d v (inl e) = inr (inl e)
  Passed-uncons visited d v (inr t) = elim (Bool-cases (d == v)) [
    | inl e ↦ inl (sym ((eq_iff d v).0 e))
    | inr f ↦ inr (inr (rw f at t))
  ]

  newly_Passed : (visited : List ℤ) (d : ℤ) → Passed (d ∷ visited) d
  newly_Passed visited d = inr (rw ((eq_iff d d).1 refl) refl)

  move-Inv :
      (visited : List ℤ) (c d : ℤ)
      → Inv visited c
      → live next c ≡ some d
      → d ≢ id
      → Inv (d ∷ visited) d
  move-Inv visited c d i l far = record {
    here = newly_Passed visited d;
    onward = λ v w p ne e. elim (Passed-uncons visited d v p) [
      | inl s ↦ absurd (ne s)
      | inr q ↦ elim (Bool-cases (v == c)) [
        | inl t ↦
            let to_w : live next c ≡ some w = sym (ap (live next) ((eq_iff v c).0 t)) ∙ e in
            subst (Passed (d ∷ visited)) (some_injective (sym l ∙ to_w)) (newly_Passed visited d)
        | inr f ↦
            Passed-cons visited d w (i.onward v w q (λ s. absurd (cc ((eq_iff v c).1 s, f))) e)
      ]
    ];
    other = λ v p. elim (Passed-uncons visited d v p) [
      | inl s ↦ λ e. far (sym s ∙ e)
      | inr q ↦ i.other v q
    ];
  }

  Verdict-step :
      (c d : ℤ) (r : Option Bool) → live next c ≡ some d → c ≢ id → Verdict d r → Verdict c r
  unfolding follow
  Verdict-step c d none l far v = tt
  Verdict-step c d (some true) l far (k, h) = (suc k, follow-live next (suc k) c d l ∙ h)
  Verdict-step c d (some false) l far h = go
    where
      go : (k : ℕ) → ¬ (follow next k c ≡ some id)
      go zero e = far (some_injective e)
      go (suc k) e = h k (sym (follow-live next k c d l) ∙ e)

  -- Where no step leads on from the current rule, none leads to `id`.
  ended :
      (visited : List ℤ) (c : ℤ)
      → Inv visited c
      → live next c ≡ none
      → (k : ℕ) → ¬ (follow next k c ≡ some id)
  ended visited c i l k =
      never visited (stays visited c i (λ w e. absurd (ground (arith, sym l ∙ e)))) i.other k c
        i.here

  pub leads_back-Verdict :
      (fuel : ℕ) (visited : List ℤ) (c : ℤ)
      → Inv visited c
      → Verdict c (leads_back next id fuel visited c)
  unfolding leads_back live follow
  leads_back-Verdict zero visited c i = tt
  leads_back-Verdict (suc fuel) visited c i = elim (Bool-cases (c == pos 0)) [
    | inl e ↦ rw (leads_back, e) (ended visited c i (rw (live, e) refl))
    | inr f ↦ elim (Option-cases (next c)) [
      | inl e ↦ rw (leads_back, f, e) (ended visited c i (live-next next c none f e))
      | inr (d, e) ↦
          let l = live-next next c (some d) f e in
          elim (Bool-cases (d == id)) [
            | inl t ↦
                rw (leads_back, f, e, t) (0, follow-live next 0 c d l ∙ ap some ((eq_iff d id).0 t))
            | inr g ↦ elim (Bool-cases (is_visited d visited)) [
              | inl t ↦
                  rw (leads_back, f, e, g, t)
                    (λ k.
                      never visited
                        (stays visited c i
                          (λ w h. subst (Passed visited) (some_injective (sym l ∙ h)) (inr t)))
                        i.other k c i.here)
              | inr n ↦
                  let far : d ≢ id = λ s. cc ((eq_iff d id).1 s, g) in
                  rw (leads_back, f, e, g, n)
                    (Verdict-step c d (leads_back next id fuel (d ∷ visited) d) l (i.other c i.here)
                      (leads_back-Verdict fuel (d ∷ visited) d (move-Inv visited c d i l far)))
            ]
          ]
    ]
  ]
