-- ===== src/Validation/Painting.antt =====
-- What a search does to the colours of the rules.
use fast_rules.Base.{
  ℕ, suc, ◌≤◌, ◌≡◌, refl, sym, ap, ◌∙◌, ◌⊎◌, inl, inr, [], ◌∷◌, Option, none, some, ◌==◌, eq_iff,
  arith, Bool-cases,
}
use fast_rules.Base.Int.{ℤ, ℤ_eq}
use fast_rules.Base.Dict.{lookup, insert, lookup-insert}
use fast_rules.Validation.{Color, white, gray, black, Colors}

-- The rules that no search has visited.
abbrev pub whites : Colors → ℕ
whites [] = 0
whites (entry ∷ d) = elim entry.1 [ white ↦ suc (whites d) | gray ↦ whites d | black ↦ whites d ]

pub whites-visit :
    (n : ℤ) (d : Colors) → lookup n d ≡ some white → suc (whites (insert n gray d)) ≡ whites d
unfolding lookup insert
whites-visit n [] e = absurd (ground arith)
whites-visit n ((k, white) ∷ d) e = ground (arith, whites-visit n d)
whites-visit n ((k, gray) ∷ d) e = ground (arith, whites-visit n d)
whites-visit n ((k, black) ∷ d) e = ground (arith, whites-visit n d)

pub whites-blacken : (n : ℤ) (d : Colors) → whites (insert n black d) ≤ whites d
unfolding insert
whites-blacken n [] = omega arith
whites-blacken n ((k, white) ∷ d) = ground (arith, whites-blacken n d)
whites-blacken n ((k, gray) ∷ d) = ground (arith, whites-blacken n d)
whites-blacken n ((k, black) ∷ d) = ground (arith, whites-blacken n d)

-- What a search does to the colour of a rule: nothing, or it has visited it and all behind it.
abbrev pub Grows : Colors → Colors → Type 0
Grows c d =
    (y : ℤ) → (lookup y d ≡ lookup y c) ⊎ ((lookup y c ≡ some white) × (lookup y d ≡ some black))

pub Grows-trans : (b c d : Colors) → Grows b c → Grows c d → Grows b d
Grows-trans b c d g h y = elim (g y) [
  | inl e ↦ elim (h y) [ inl f ↦ inl (f ∙ e) | inr (w, f) ↦ inr (sym e ∙ w, f) ]
  | inr (w, e) ↦ elim (h y) [ inl f ↦ inr (w, f ∙ e) | inr (v, f) ↦ absurd (cc) ]
]

-- A rule that is entered and left again around a search.
pub Grows-around :
    (n : ℤ) (c d : Colors)
    → lookup n c ≡ some white
    → Grows (insert n gray c) d
    → Grows c (insert n black d)
Grows-around n c d w g y = elim (Bool-cases (n == y)) [
  | inl e ↦
      let same : n ≡ y = (eq_iff n y).0 e in
      inr (sym (ap (λ k. lookup k c) same) ∙ w, lookup-insert n y black d ∙ rw e)
  | inr f ↦
      let before : lookup y (insert n gray c) ≡ lookup y c = lookup-insert n y gray c ∙ rw f in
      let after : lookup y (insert n black d) ≡ lookup y d = lookup-insert n y black d ∙ rw f in
      elim (g y) [ inl e ↦ inl (after ∙ e ∙ before) | inr (v, e) ↦ inr (sym before ∙ v, after ∙ e) ]
]

pub stays_black :
    (y : ℤ) (c d : Colors) → Grows c d → lookup y c ≡ some black → lookup y d ≡ some black
stays_black y c d g b = elim (g y) [ inl e ↦ e ∙ b | inr (w, e) ↦ e ]

-- No rule turns gray for good.
pub stays_gray :
    (y : ℤ) (c d : Colors) → Grows c d → lookup y d ≡ some gray → lookup y c ≡ some gray
stays_gray y c d g b = elim (g y) [ inl e ↦ sym e ∙ b | inr (w, e) ↦ absurd (cc) ]

pub color-cases :
    (o : Option Color) → (o ≡ none) ⊎ ((o ≡ some white) ⊎ ((o ≡ some gray) ⊎ (o ≡ some black)))
color-cases none = inl refl
color-cases (some white) = inr (inl refl)
color-cases (some gray) = inr (inr (inl refl))
color-cases (some black) = inr (inr (inr refl))
