-- ===== src/Workflow/Compilation/Exact.antt =====
-- Where no child is listed twice, a rule counts exactly the children that it still waits for.
use fast_rules.Base.{
  ℕ, suc, ◌+◌, ◌≤◌, ◌≡◌, ◌≢◌, refl, sym, ap, ◌∙◌, inl, inr, List, [], ◌∷◌, true, false, ◌==◌, ℕ_eq,
  eq_iff, eq_refl, All, All-Has, Has, here, there, tally, Bool-cases, arith,
}
use fast_rules.Base.Int.{ℤ, pos, inc, ℤ_eq}
use fast_rules.Rule.{Rule}
use fast_rules.Workflow.Levels.{Counts, update}
use fast_rules.Workflow.Levels.Lists.{Distinct}
use fast_rules.Workflow.Compilation.{
  has_address, count_listed, count_children, Progress, visit_parents,
}
use fast_rules.Workflow.Compilation.Round.{absent-tally, present-tally}
use fast_rules.Workflow.Compilation.Degrees.{waiting, visit_parents-degree}
use fast_rules.Workflow.Compilation.Barrier.{children}

-- No rule has the same child twice.
abbrev pub NoRepeats : List Rule → Type 0
NoRepeats rules = (r : Rule) → Has r rules → (x : ℕ) → tally x (children r) ≤ 1

pub waiting-cons :
    (a : ℕ) (s cs : List ℕ)
    → has_address a s ≡ false
    → waiting (a ∷ s) cs ≡ waiting s cs + tally a cs
waiting-cons a s [] f = refl
waiting-cons a s (c ∷ cs) f = elim (Bool-cases (c == a)) [
  | inl e ↦
      let same = (eq_iff c a).0 e in rw (same, eq_refl a, f) (omega (arith, waiting-cons a s cs f))
  | inr g ↦ ground (arith, waiting-cons a s cs f, g)
]

count_listed-exact :
    (top : List ℕ) (id : ℤ) (cs : List ℕ) (d : Counts) (n : ℕ)
    → d id ≡ pos n
    → count_listed top id cs d id ≡ pos (waiting top cs + n)
count_listed-exact top id [] d n e = e ∙ ap pos (omega arith)
count_listed-exact top id (c ∷ cs) d n e = elim (Bool-cases (has_address c top)) [
  | inl t ↦ rw t (
      count_listed-exact top id cs (update d id (inc (d id))) (n + 1) (rw (eq_refl id, e) refl)
      ∙ ap pos (omega arith))
  | inr f ↦ rw f (count_listed-exact top id cs d n e)
]

count_listed-other :
    (top : List ℕ) (id : ℤ) (cs : List ℕ) (d : Counts) (k : ℤ)
    → (id == k) ≡ false
    → count_listed top id cs d k ≡ d k
count_listed-other top id [] d k f = refl
count_listed-other top id (c ∷ cs) d k f = elim (Bool-cases (has_address c top)) [
  | inl t ↦ rw t (count_listed-other top id cs (update d id (inc (d id))) k f ∙ rw f refl)
  | inr g ↦ rw g (count_listed-other top id cs d k f)
]

differs : (a b : ℤ) → a ≢ b → (a == b) ≡ false
differs a b n = elim (Bool-cases (a == b)) [ inl t ↦ absurd (n ((eq_iff a b).0 t)) | inr f ↦ f ]

count_children-other :
    (top : List ℕ) (rs : List Rule) (d : Counts) (k : ℤ)
    → All (λ q. k ≢ q.id) rs
    → count_children top rs d k ≡ d k
unfolding count_children
count_children-other top [] d k h = refl
count_children-other top (r ∷ rs) d k h =
    count_children-other top rs (count_listed top r.id (children r) d) k h.1
    ∙ count_listed-other top r.id (children r) d k (differs r.id k (λ e. h.0 (sym e)))

pub count_children-exact :
    (top : List ℕ) (rs : List Rule) (d : Counts) {q : Rule}
    → Distinct rs
    → Has q rs
    → d q.id ≡ pos 0
    → count_children top rs d q.id ≡ pos (waiting top (children q))
unfolding count_children
count_children-exact top [] d u m z = elim m [ ]
count_children-exact top (r ∷ rs) d u here z =
    count_children-other top rs (count_listed top r.id (children r) d) r.id u.0
    ∙ count_listed-exact top r.id (children r) d 0 z
    ∙ ap pos (omega arith)
count_children-exact top (r ∷ rs) d {q} u (there m) z =
    count_children-exact top rs (count_listed top r.id (children r) d) u.1 m (
      count_listed-other top r.id (children r) d q.id
        (differs r.id q.id (All-Has (λ x. r.id ≢ x.id) u.0 m))
      ∙ z)

module _ (rules : List Rule) (u : Distinct rules) (single : NoRepeats rules) where
  -- A remaining rule counts its children in `s`.
  abbrev pub Counted : List ℕ → List ℕ → Counts → Type 0
  Counted remaining s d =
      (r : Rule)
      → Has r rules
      → has_address r.self remaining ≡ true
      → d r.id ≡ pos (waiting s (children r))

  pub visit_parents-Counted :
      (remaining : List ℕ) (a : ℕ) (s : List ℕ) (p : Progress)
      → has_address a s ≡ false
      → Counted remaining (a ∷ s) p.in_degree
      → Counted remaining s (visit_parents remaining a rules p).in_degree
  visit_parents-Counted remaining a s p f c r m h =
      let count = waiting-cons a s (children r) f in
      rw (visit_parents-degree remaining a rules p u m, h, c r m h)
        (elim (Bool-cases (has_address a (children r))) [
          | inl t ↦
              let one : waiting (a ∷ s) (children r) ≡ suc (waiting s (children r)) =
                omega (arith, single r m a, present-tally a (children r) t) in
              rw (t, one) refl
          | inr g ↦
              let none_there : waiting (a ∷ s) (children r) ≡ waiting s (children r) =
                omega (arith, absent-tally a (children r) g) in
              rw (g, none_there) refl
        ])
