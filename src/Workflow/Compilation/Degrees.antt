-- ===== src/Workflow/Compilation/Degrees.antt =====
-- The counts of `inDegree`: a rule counts at least the children it still waits for.
use native.Mathlib.Nat.{le_refl}
use fast_rules.Base.{
  ℕ, zero, suc, ◌+◌, ◌≤◌, ◌≡◌, ◌≢◌, refl, sym, ap, ◌∙◌, subst, inl, inr, List, [], ◌∷◌, Bool, true,
  false, ◌&&◌, if◌then◌else◌, ◌==◌, ℕ_eq, eq_iff, eq_refl, leb, All, All-Has, Has, here, there,
  Bool-cases, arith,
}
use fast_rules.Base.Int.{ℤ, pos, negsuc, inc, dec, ℤ_eq}
use fast_rules.Rule.{Rule}
use fast_rules.Workflow.Levels.{Counts, update}
use fast_rules.Workflow.Levels.Lists.{Distinct}
use fast_rules.Workflow.Compilation.{
  has_address, child_addresses, count_listed, count_children, Progress, visit_children,
  visit_parent, visit_parents,
}
use fast_rules.Workflow.Compilation.Round.{is_spent}

-- How many of the children `cs` are in `s`.
abbrev pub waiting : List ℕ → List ℕ → ℕ
waiting s [] = 0
waiting s (c ∷ cs) = if has_address c s then suc (waiting s cs) else waiting s cs

abbrev pub at_least : ℕ → ℤ → Bool
at_least n (pos m) = leb n m
at_least n (negsuc m) = false

at_least-inc : (n : ℕ) (z : ℤ) → at_least n z ≡ true → at_least (suc n) (inc z) ≡ true
at_least-inc n (pos m) h = ground arith
at_least-inc n (negsuc m) h = absurd (ground arith)

pub at_least-dec : (n : ℕ) (z : ℤ) → at_least (suc n) z ≡ true → at_least n (dec z) ≡ true
at_least-dec n (pos zero) h = absurd (ground arith)
at_least-dec n (pos (suc m)) h = ground arith
at_least-dec n (negsuc m) h = absurd (ground arith)

pub at_least-le : (n m : ℕ) (z : ℤ) → n ≤ m → at_least m z ≡ true → at_least n z ≡ true
at_least-le n m (pos k) l h = ground arith
at_least-le n m (negsuc k) l h = absurd (ground arith)

pub at_least-spent : (n : ℕ) (z : ℤ) → at_least n z ≡ true → is_spent z ≡ true → n ≡ 0
at_least-spent n (pos zero) h s = ground arith
at_least-spent n (pos (suc m)) h s = absurd (ground arith)
at_least-spent n (negsuc m) h s = absurd (ground arith)

pub waiting-le :
    (s t cs : List ℕ)
    → ((x : ℕ) → has_address x s ≡ true → has_address x t ≡ true)
    → waiting s cs ≤ waiting t cs
waiting-le s t [] h = le_refl _
waiting-le s t (c ∷ cs) h = elim (Bool-cases (has_address c s)) [
  | inl e ↦ rw (e, h c e) (omega (arith, waiting-le s t cs h))
  | inr e ↦ ground (arith, e, waiting-le s t cs h)
]

pub waiting-zero :
    (s cs : List ℕ) (c : ℕ) → waiting s cs ≡ 0 → has_address c cs ≡ true → has_address c s ≡ false
waiting-zero s [] c z h = absurd (ground arith)
waiting-zero s (b ∷ cs) c z h = elim (Bool-cases (b == c)) [
  | inl e ↦ ground (arith, ap (λ y. has_address y s) ((eq_iff b c).0 e))
  | inr f ↦ ground (arith, waiting-zero s cs c)
]

-- A child that goes away is waited for no longer.
pub waiting-lt :
    (a : ℕ) (s cs : List ℕ)
    → has_address a s ≡ false
    → has_address a cs ≡ true
    → suc (waiting s cs) ≤ waiting (a ∷ s) cs
waiting-lt a s [] f h = absurd (ground arith)
waiting-lt a s (c ∷ cs) f h = elim (Bool-cases (c == a)) [
  | inl e ↦
      let less = waiting-le s (a ∷ s) cs (λ x t. ground arith) in
      let same = (eq_iff c a).0 e in
      rw (ap (λ y. has_address y s) same ∙ f, sym same, eq_refl c) (omega (arith, less))
  | inr g ↦ ground (arith, waiting-lt a s cs f)
]

update-keeps :
    (d : Counts) (id : ℤ) (n : ℕ) (k : ℤ)
    → at_least n (d k) ≡ true
    → at_least n (update d id (inc (d id)) k) ≡ true
update-keeps d id n k h = elim (Bool-cases (id == k)) [
  | inl t ↦ rw t (
      at_least-le n (suc n) (inc (d id)) (omega arith)
        (at_least-inc n (d id) (ap (λ j. at_least n (d j)) ((eq_iff id k).0 t) ∙ h)))
  | inr f ↦ rw f h
]

count_listed-keeps :
    (top : List ℕ) (id : ℤ) (cs : List ℕ) (d : Counts) (n : ℕ) (k : ℤ)
    → at_least n (d k) ≡ true
    → at_least n (count_listed top id cs d k) ≡ true
count_listed-keeps top id [] d n k h = h
count_listed-keeps top id (c ∷ cs) d n k h =
    count_listed-keeps top id cs (if has_address c top then update d id (inc (d id)) else d) n k
      (elim (Bool-cases (has_address c top)) [
        | inl t ↦ rw t (update-keeps d id n k h)
        | inr f ↦ rw f h
      ])

count_listed-counts :
    (top : List ℕ) (id : ℤ) (cs : List ℕ) (d : Counts) (n : ℕ)
    → at_least n (d id) ≡ true
    → at_least (waiting top cs + n) (count_listed top id cs d id) ≡ true
count_listed-counts top id [] d n h = at_least-le (0 + n) n (d id) (omega arith) h
count_listed-counts top id (c ∷ cs) d n h = elim (Bool-cases (has_address c top)) [
  | inl t ↦ rw t (
      subst (λ m. at_least m (count_listed top id cs (update d id (inc (d id))) id) ≡ true)
        (omega arith)
        (count_listed-counts top id cs (update d id (inc (d id))) (suc n)
          (rw (eq_refl id) (at_least-inc n (d id) h))))
  | inr f ↦ rw f (count_listed-counts top id cs d n h)
]

pub count_children-keeps :
    (top : List ℕ) (rs : List Rule) (d : Counts) (n : ℕ) (k : ℤ)
    → at_least n (d k) ≡ true
    → at_least n (count_children top rs d k) ≡ true
unfolding count_children
count_children-keeps top [] d n k h = h
count_children-keeps top (r ∷ rs) d n k h =
    let cs = child_addresses r.child_rules in
    count_children-keeps top rs (count_listed top r.id cs d) n k
      (count_listed-keeps top r.id cs d n k h)

-- Every listed rule counts its listed children.
pub count_children-counts :
    (top : List ℕ) (rs : List Rule) (d : Counts) {q : Rule}
    → ((k : ℤ) → at_least 0 (d k) ≡ true)
    → Has q rs
    → at_least (waiting top (child_addresses q.child_rules)) (count_children top rs d q.id) ≡ true
unfolding count_children
count_children-counts top [] d h m = elim m [ ]
count_children-counts top (r ∷ rs) d h here =
    let cs = child_addresses r.child_rules in
    count_children-keeps top rs (count_listed top r.id cs d) (waiting top cs) r.id (
      at_least-le (waiting top cs) (waiting top cs + 0) _ (omega arith)
        (count_listed-counts top r.id cs d 0 (h r.id)))
count_children-counts top (r ∷ rs) d h (there m) =
    let cs = child_addresses r.child_rules in
    count_children-counts top rs (count_listed top r.id cs d)
      (λ k. count_listed-keeps top r.id cs d 0 k (h k)) m

visit_children-degree :
    (a : ℕ) (parent : Rule) (cs : List ℕ) (p : Progress) (k : ℤ)
    → (visit_children a parent cs p).in_degree k
      ≡ (if has_address a cs && (parent.id == k) then dec (p.in_degree k) else p.in_degree k)
visit_children-degree a parent [] p k = refl
visit_children-degree a parent (c ∷ cs) p k = elim (Bool-cases (c == a)) [
  | inl t ↦ elim (Bool-cases (parent.id == k)) [
    | inl e ↦ rw (t, e) (ap (λ j. dec (p.in_degree j)) ((eq_iff parent.id k).0 e))
    | inr f ↦ rw (t, f) refl
  ]
  | inr f ↦ rw f (visit_children-degree a parent cs p k)
]

-- A visited child takes one from the count of each remaining parent.
abbrev pub is_visited_parent : List ℕ → ℕ → Rule → Bool
is_visited_parent remaining a q =
    has_address q.self remaining && has_address a (child_addresses q.child_rules)

pub visit_parent-degree :
    (remaining : List ℕ) (a : ℕ) (parent : Rule) (p : Progress) (k : ℤ)
    → (visit_parent remaining a parent p).in_degree k ≡ (
        if is_visited_parent remaining a parent && (parent.id == k)
        then dec (p.in_degree k)
        else p.in_degree k)
visit_parent-degree remaining a parent p k = elim (Bool-cases (has_address parent.self remaining)) [
  | inl t ↦ rw t (visit_children-degree a parent (child_addresses parent.child_rules) p k)
  | inr f ↦ rw f refl
]

visit_parents-other :
    (remaining : List ℕ) (a : ℕ) (rs : List Rule) (p : Progress) (k : ℤ)
    → All (λ q. k ≢ q.id) rs
    → (visit_parents remaining a rs p).in_degree k ≡ p.in_degree k
visit_parents-other remaining a [] p k h = refl
visit_parents-other remaining a (r ∷ rs) p k h =
    visit_parents-other remaining a rs (visit_parent remaining a r p) k h.1
    ∙ visit_parent-degree remaining a r p k
    ∙ elim (Bool-cases (r.id == k)) [
      | inl t ↦ absurd (h.0 (sym ((eq_iff r.id k).0 t)))
      | inr f ↦ rw f (ground arith)
    ]

pub visit_parents-degree :
    (remaining : List ℕ) (a : ℕ) (rs : List Rule) (p : Progress) {q : Rule}
    → Distinct rs
    → Has q rs
    → (visit_parents remaining a rs p).in_degree q.id
      ≡ (if is_visited_parent remaining a q then dec (p.in_degree q.id) else p.in_degree q.id)
visit_parents-degree remaining a [] p u m = elim m [ ]
visit_parents-degree remaining a (r ∷ rs) p u here =
    visit_parents-other remaining a rs (visit_parent remaining a r p) r.id u.0
    ∙ visit_parent-degree remaining a r p r.id
    ∙ rw (eq_refl r.id) (ground arith)
visit_parents-degree remaining a (r ∷ rs) p {q} u (there m) =
    visit_parents-degree remaining a rs (visit_parent remaining a r p) u.1 m
    ∙ rw (visit_parent-degree remaining a r p q.id) (elim (Bool-cases (r.id == q.id)) [
      | inl t ↦ absurd (All-Has (λ x. r.id ≢ x.id) u.0 m ((eq_iff r.id q.id).0 t))
      | inr f ↦ rw f (ground arith)
    ])
