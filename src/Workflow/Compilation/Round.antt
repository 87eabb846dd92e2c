-- ===== src/Workflow/Compilation/Round.antt =====
-- One round of the loop: which rules it puts into the next level.
use fast_rules.Base.{
  ℕ, zero, suc, ◌≤◌, ◌<◌, ◌≡◌, refl, sym, ap, subst, inl, inr, List, [], ◌∷◌, ◌++◌, Bool, true,
  false, ◌==◌, ℕ_eq, eq_iff, All, All-Has, All-append, Has, here, there, tally, tally-append,
  nat_eq, nat_eq_iff, Bool-cases, arith,
}
use fast_rules.Base.Int.{ℤ, pos, negsuc, dec, ℤ_eq}
use fast_rules.Rule.{Rule}
use fast_rules.Workflow.Levels.{Counts, update}
use fast_rules.Workflow.Compilation.{
  has_address, addresses, child_addresses, Progress, lower, visit_children, visit_parents,
  visit_level,
}

pub addresses-append : (xs ys : List Rule) → addresses (xs ++ ys) ≡ addresses xs ++ addresses ys
addresses-append [] ys = refl
addresses-append (r ∷ xs) ys = ap (λ l. r.self ∷ l) (addresses-append xs ys)

-- No two rules have the same address.
abbrev pub Unique : List Rule → Type 0
Unique rules = (x : ℕ) → tally x (addresses rules) ≤ 1

pub absent-tally : (x : ℕ) (xs : List ℕ) → has_address x xs ≡ false → tally x xs ≡ 0
absent-tally x [] h = refl
absent-tally x (y ∷ xs) h = ground (arith, absent-tally x xs)

pub present-tally : (x : ℕ) (xs : List ℕ) → has_address x xs ≡ true → 0 < tally x xs
present-tally x [] h = absurd (ground arith)
present-tally x (y ∷ xs) h = ground (arith, present-tally x xs)

pub has_address-rule :
    (x : ℕ) (rs : List Rule)
    → has_address x (addresses rs) ≡ true
    → (q : Rule) × Has q rs × (q.self ≡ x)
has_address-rule x [] h = absurd (ground arith)
has_address-rule x (r ∷ rs) h = elim (Bool-cases (r.self == x)) [
  | inl t ↦ (r, here, (eq_iff r.self x).0 t)
  | inr f ↦ let (q, m, e) = has_address-rule x rs (rw f at h) in (q, there m, e)
]

pub Has-has_address :
    {q : Rule} {rs : List Rule} → Has q rs → has_address q.self (addresses rs) ≡ true
Has-has_address {q} here = ground (arith, (eq_iff q.self q.self).1 refl)
Has-has_address (there m) = ground (arith, Has-has_address m)

Unique-tail : (r : Rule) (rs : List Rule) → Unique (r ∷ rs) → Unique rs
Unique-tail r rs u x = ground (arith, u x)

clash : (x q : Rule) (rs : List Rule) → Unique (x ∷ rs) → Has q rs → ¬ (x.self ≡ q.self)
clash x q rs u m e = ground (
  arith,
  present-tally q.self (addresses rs) (Has-has_address m),
  u q.self,
  (eq_iff x.self q.self).1 e,
)

pub same_rule :
    {q r : Rule} (rs : List Rule) → Unique rs → Has q rs → Has r rs → q.self ≡ r.self → q ≡ r
same_rule [] u m m' e = elim m [ ]
same_rule (x ∷ rs) u here here e = refl
same_rule (x ∷ rs) u here (there m) e = absurd (clash x _ rs u m e)
same_rule (x ∷ rs) u (there m) here e = absurd (clash x _ rs u m (sym e))
same_rule (x ∷ rs) u (there m) (there m') e = same_rule rs (Unique-tail x rs u) m m' e

abbrev pub is_spent : ℤ → Bool
is_spent (pos zero) = true
is_spent (pos (suc n)) = false
is_spent (negsuc n) = true

spent-dec : (z : ℤ) → is_spent z ≡ true → (is_spent (dec z) ≡ true) × ((dec z == pos 0) ≡ false)
spent-dec (pos zero) h = (refl, refl)
spent-dec (pos (suc n)) h = absurd (ground arith)
spent-dec (negsuc n) h = (refl, refl)

abbrev pub IsDue : List Rule → List ℕ → Counts → Rule → Type 0
IsDue rules remaining d q =
    Has q rules × (has_address q.self remaining ≡ true) × (is_spent (d q.id) ≡ true)

-- The level that is being gathered has remaining rules whose count is used up, each once.
pub record Fresh (rules : List Rule) (remaining : List ℕ) (p : Progress) : Type 0 where
  pub due : All (IsDue rules remaining p.in_degree) p.current
  pub once : Unique p.current

pub map_All {ℓ κ μ} :
    {A : Type ℓ} (P : A → Type κ) (Q : A → Type μ) (xs : List A)
    → ((x : A) → P x → Q x)
    → All P xs
    → All Q xs
map_All P Q [] f h = tt
map_All P Q (x ∷ xs) f h = (f x h.0, map_All P Q xs f h.1)

-- Where a call of `lower` may happen.
module _ (rules : List Rule) (remaining : List ℕ) (u : Unique rules) where
  spent_update :
      (d : Counts) (parent q : Rule)
      → is_spent (d q.id) ≡ true
      → is_spent (update d parent.id (dec (d parent.id)) q.id) ≡ true
  spent_update d parent q h = elim (Bool-cases (parent.id == q.id)) [
    | inl t ↦ rw t (rw ((eq_iff parent.id q.id).0 t) (spent-dec (d q.id) h).0)
    | inr f ↦ rw f h
  ]

  still-IsDue :
      (d : Counts) (parent : Rule) (current : List Rule)
      → All (IsDue rules remaining d) current
      → All (IsDue rules remaining (update d parent.id (dec (d parent.id)))) current
  still-IsDue d parent current h =
      map_All _ _ current (λ q (m, there_still, s). (m, there_still, spent_update d parent q s)) h

  -- A rule whose count has just been used up is not in the level yet.
  newcomer :
      (p : Progress) (parent : Rule)
      → Fresh rules remaining p
      → Has parent rules
      → (dec (p.in_degree parent.id) == pos 0) ≡ true
      → has_address parent.self (addresses p.current) ≡ false
  newcomer p parent i m z = elim (Bool-cases (has_address parent.self (addresses p.current))) [
    | inl t ↦
        let (q, mq, e) = has_address-rule parent.self p.current t in
        let (listed, there_still, s) = All-Has _ i.due mq in
        let e' : q ≡ parent = same_rule rules u listed m e in
        absurd (cc ((spent-dec (p.in_degree q.id) s).1, z, e'))
    | inr f ↦ f
  ]

  used_up :
      (p : Progress) (parent : Rule)
      → (dec (p.in_degree parent.id) == pos 0) ≡ true
      → is_spent (update p.in_degree parent.id (dec (p.in_degree parent.id)) parent.id) ≡ true
  used_up p parent z =
      rw ((eq_iff parent.id parent.id).1 refl)
        (ap is_spent ((eq_iff (dec (p.in_degree parent.id)) (pos 0)).0 z))

  once_more :
      (p : Progress) (parent : Rule)
      → Fresh rules remaining p
      → Has parent rules
      → (dec (p.in_degree parent.id) == pos 0) ≡ true
      → Unique (p.current ++ parent ∷ [])
  once_more p parent i m z x =
      rw
        (
          addresses-append p.current (parent ∷ []),
          tally-append x (addresses p.current) (parent.self ∷ []),
        )
        (elim (Bool-cases (nat_eq parent.self x)) [
          | inl t ↦
              let e = (nat_eq_iff parent.self x).0 t in
              let a = absent-tally x (addresses p.current) (
                subst (λ y. has_address y (addresses p.current) ≡ false) e
                  (newcomer p parent i m z)) in
              rw t (omega (arith, a))
          | inr f ↦ rw f (omega (arith, i.once x))
        ])

  lower-Fresh :
      (p : Progress) (parent : Rule)
      → Fresh rules remaining p
      → Has parent rules
      → has_address parent.self remaining ≡ true
      → Fresh rules remaining (lower parent p)
  lower-Fresh p parent i m h = elim (Bool-cases (dec (p.in_degree parent.id) == pos 0)) [
    | inl z ↦ record {
      due = rw z (
          All-append _ p.current parent (still-IsDue p.in_degree parent p.current i.due)
            (m, h, used_up p parent z));
      once = rw z (once_more p parent i m z);
    }
    | inr f ↦ record {
      due = rw f (still-IsDue p.in_degree parent p.current i.due);
      once = rw f i.once;
    }
  ]

  visit_children-Fresh :
      (a : ℕ) (parent : Rule) (cs : List ℕ) (p : Progress)
      → Fresh rules remaining p
      → Has parent rules
      → has_address parent.self remaining ≡ true
      → Fresh rules remaining (visit_children a parent cs p)
  visit_children-Fresh a parent [] p i m h = i
  visit_children-Fresh a parent (c ∷ cs) p i m h = elim (Bool-cases (c == a)) [
    | inl t ↦ rw t (lower-Fresh p parent i m h)
    | inr f ↦ rw f (visit_children-Fresh a parent cs p i m h)
  ]

  visit_parents-Fresh :
      (a : ℕ) (parents : List Rule) (p : Progress)
      → Fresh rules remaining p
      → All (λ q. Has q rules) parents
      → Fresh rules remaining (visit_parents remaining a parents p)
  visit_parents-Fresh a [] p i h = i
  visit_parents-Fresh a (parent ∷ parents) p i h =
      elim (Bool-cases (has_address parent.self remaining)) [
        | inl t ↦ rw t (
            visit_parents-Fresh a parents
              (visit_children a parent (child_addresses parent.child_rules) p)
              (visit_children-Fresh a parent (child_addresses parent.child_rules) p i h.0 t) h.1)
        | inr f ↦ rw f (visit_parents-Fresh a parents p i h.1)
      ]

  -- However a level is visited, the rules that are gathered are fresh.
  pub visit_level-Fresh :
      (level : List ℕ) (p : Progress)
      → Fresh rules remaining p
      → All (λ q. Has q rules) rules
      → Fresh rules remaining (visit_level remaining rules level p)
  unfolding visit_level
  visit_level-Fresh [] p i h = i
  visit_level-Fresh (a ∷ level) p i h =
      visit_level-Fresh level (visit_parents remaining a rules p)
        (visit_parents-Fresh a rules p i h) h
