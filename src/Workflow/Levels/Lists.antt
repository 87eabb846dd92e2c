-- ===== src/Workflow/Levels/Lists.antt =====
-- Facts about lists of rules with distinct ids, and about the tests of `keep`.
use fast_rules.Base.{
  ◌≡◌, ◌≢◌, refl, sym, inl, inr, ◌⊎◌, List, [], ◌∷◌, ◌++◌, Bool, true, ◌&&◌, any, keep, All,
  All-Has, Has, here, there, Bool-cases, arith,
}
use fast_rules.Base.Int.{ℤ_eq}
use fast_rules.Rule.{Rule}

-- No two rules have the same id.
abbrev pub Distinct : List Rule → Type 0
Distinct [] = Unit {0}
Distinct (r ∷ rs) = All (λ q. r.id ≢ q.id) rs × Distinct rs

module _ {ℓ} {A : Type ℓ} where
  pub Has-append_cases : {x : A} (xs ys : List A) → Has x (xs ++ ys) → Has x xs ⊎ Has x ys
  Has-append_cases [] ys m = inr m
  Has-append_cases (y ∷ xs) ys here = inl here
  Has-append_cases (y ∷ xs) ys (there m) = elim (Has-append_cases xs ys m) [
    | inl l ↦ inl (there l)
    | inr r ↦ inr r
  ]

  pub keep_cong :
      (p q : A → Bool) (xs : List A) → ((x : A) → Has x xs → p x ≡ q x) → keep p xs ≡ keep q xs
  keep_cong p q [] h = refl
  keep_cong p q (x ∷ xs) h = ground (arith, h x here, keep_cong p q xs (λ y m. h y (there m)))

  pub keep-keep : (p q : A → Bool) (xs : List A) → keep q (keep p xs) ≡ keep (λ x. p x && q x) xs
  keep-keep p q [] = refl
  keep-keep p q (x ∷ xs) = ground (arith, keep-keep p q xs)

  pub keep_all : (p : A → Bool) (xs : List A) → ((x : A) → Has x xs → p x ≡ true) → keep p xs ≡ xs
  keep_all p [] h = refl
  keep_all p (x ∷ xs) h = ground (arith, h x here, keep_all p xs (λ y m. h y (there m)))

  pub Has-cons : (x y : A) (ys : List A) → Has x (y ∷ ys) → (x ≡ y) ⊎ Has x ys
  Has-cons x y ys here = inl refl
  Has-cons x y ys (there m) = inr m

  pub Has-keep : (p : A → Bool) (xs : List A) (x : A) → Has x (keep p xs) → Has x xs × (p x ≡ true)
  Has-keep p [] x m = elim m [ ]
  Has-keep p (y ∷ xs) x m = elim (Bool-cases (p y)) [
    | inl t ↦ elim (Has-cons x y (keep p xs) (rw t at m)) [
      | inl e ↦ rw e (here, t)
      | inr m' ↦ let (m'', e) = Has-keep p xs x m' in (there m'', e)
    ]
    | inr f ↦ let (m', e) = Has-keep p xs x (rw f at m) in (there m', e)
  ]

  pub keep-Has : (p : A → Bool) (xs : List A) (x : A) → Has x xs → p x ≡ true → Has x (keep p xs)
  keep-Has p [] x m t = elim m [ ]
  keep-Has p (y ∷ xs) x here t = rw t here
  keep-Has p (y ∷ xs) x (there m) t = elim (Bool-cases (p y)) [
    | inl e ↦ rw e (there (keep-Has p xs x m t))
    | inr e ↦ rw e (keep-Has p xs x m t)
  ]

  pub All-keep {κ} : (P : A → Type κ) (p : A → Bool) (xs : List A) → All P xs → All P (keep p xs)
  All-keep P p [] h = tt
  All-keep P p (x ∷ xs) h = elim (Bool-cases (p x)) [
    | inl e ↦ rw e (h.0, All-keep P p xs h.1)
    | inr e ↦ rw e (All-keep P p xs h.1)
  ]

pub All-of {ℓ κ} :
    {A : Type ℓ} (P : A → Type κ) (xs : List A) → ((x : A) → Has x xs → P x) → All P xs
All-of P [] h = tt
All-of P (x ∷ xs) h = (h x here, All-of P xs (λ y m. h y (there m)))

pub Distinct-append :
    (xs ys : List Rule)
    → Distinct xs
    → Distinct ys
    → ((q r : Rule) → Has q xs → Has r ys → q.id ≢ r.id)
    → Distinct (xs ++ ys)
Distinct-append [] ys dx dy h = dy
Distinct-append (x ∷ xs) ys dx dy h = (
  All-of (λ q. x.id ≢ q.id) (xs ++ ys)
      λ q m. elim (Has-append_cases xs ys m) [
        | inl l ↦ All-Has (λ y. x.id ≢ y.id) dx.0 l
        | inr r ↦ h x q here r
      ],
  Distinct-append xs ys dx.1 dy (λ q r m. h q r (there m)),
)

pub keep-Distinct : (p : Rule → Bool) (rs : List Rule) → Distinct rs → Distinct (keep p rs)
keep-Distinct p [] d = tt
keep-Distinct p (r ∷ rs) d = elim (Bool-cases (p r)) [
  | inl e ↦ rw e (All-keep _ p rs d.0, keep-Distinct p rs d.1)
  | inr e ↦ rw e (keep-Distinct p rs d.1)
]

-- Rules with the same id are the same rule.
pub Has-id : {q r : Rule} (rs : List Rule) → Distinct rs → Has q rs → Has r rs → q.id ≡ r.id → q ≡ r
Has-id [] d m m' e = elim m [ ]
Has-id (x ∷ rs) d here here e = refl
Has-id (x ∷ rs) d here (there m) e = absurd (All-Has _ d.0 m e)
Has-id (x ∷ rs) d (there m) here e = absurd (All-Has _ d.0 m (sym e))
Has-id (x ∷ rs) d (there m) (there m') e = Has-id rs d.1 m m' e

pub any-Has {ℓ} :
    {A : Type ℓ} (p : A → Bool) (xs : List A) (x : A) → Has x xs → p x ≡ true → any p xs ≡ true
any-Has p [] x m t = elim m [ ]
any-Has p (y ∷ xs) x here t = rw t
any-Has p (y ∷ xs) x (there m) t = ground (arith, any-Has p xs x m t)

pub Has-any {ℓ} :
    {A : Type ℓ} (p : A → Bool) (xs : List A) → any p xs ≡ true → (x : A) × Has x xs × (p x ≡ true)
Has-any p [] h = cc
Has-any p (y ∷ xs) h = elim (Bool-cases (p y)) [
  | inl t ↦ (y, here, t)
  | inr f ↦ let (x, m, t) = Has-any p xs (rw f at h) in (x, there m, t)
]
