-- ===== src/Workflow/Levels/Invariant.antt =====
-- The invariant of the loop of buildDependencyLevels, and that a round keeps it.
use mathlib.Core.List.Perm
use mathlib.Core.List.{Perm}
use fast_rules.Base.{
  ℕ, zero, suc, ◌+◌, ◌<◌, ◌≡◌, ◌≢◌, refl, sym, ap, subst, ◌∙◌, inl, inr, ◌⊎◌, List, [], ◌∷◌, ◌++◌,
  Bool, true, false, not, ◌&&◌, if◌then◌else◌, ◌==◌, eq_iff, keep, Has, Bool-cases, arith, length,
  is_empty, Has-append_left, Has-append_right,
}
use fast_rules.Base.Int.{ℤ, pos, negsuc, ℤ_eq}
use fast_rules.Base.Text.{Text_eq}
use fast_rules.Rule.{Rule}
use fast_rules.Workflow.Levels.{Counts, ready, retire, stable_sort, has_dependency}
use fast_rules.Workflow.Levels.Lists.{
  Distinct, Distinct-append, Has-append_cases, keep_cong, keep-keep, Has-keep, keep-Has,
  keep-Distinct,
}
use fast_rules.Workflow.Levels.Step.{
  zeros, nonzeros, ready-zeros, survives, retire-map, survives-perm, count_dependency, dec_times,
  dec_times-add, count_dependency-append, retire_count, keep-perm,
}
use fast_rules.Workflow.Levels.Sort.{
  length-stable_sort, stable_sort-Distinct, stable_sort-perm, Has-stable_sort, stable_sort-Has,
}

-- What a rule's count starts from.
abbrev pub start : List Rule → Rule → ℤ
start rules r = if has_dependency rules r then pos 1 else pos 0

pub record Inv (rules placed m : List Rule) (d : Counts) : Type 0 where
  pub which : Rule → Bool
  pub sub : m ≡ keep which rules
  pub degrees :
      (r : Rule) → Has r m → d r.id ≡ dec_times (count_dependency r placed) (start rules r)
  pub covers : (q : Rule) → Has q rules → Has q placed ⊎ Has q m
  pub known : (q : Rule) → Has q placed → Has q rules
  pub once : Distinct placed
  pub apart : (q r : Rule) → Has q placed → Has r m → q.id ≢ r.id

-- Nothing names a dependency in vain: no such rule is listed, or exactly one stands before.
abbrev pub IsSatisfied : List Rule → List Rule → Rule → Type 0
IsSatisfied rules placed r = (has_dependency rules r ≡ false) ⊎ (count_dependency r placed ≡ 1)

dec_times-negsuc : (n k : ℕ) → dec_times n (negsuc k) ≡ negsuc (k + n)
dec_times-negsuc zero k = ap negsuc (omega arith)
dec_times-negsuc (suc n) k =
    let e : k + 1 + n ≡ k + suc n = omega arith in dec_times-negsuc n (k + 1) ∙ rw e refl

dec_times-zero :
    (b : Bool) (n : ℕ) → dec_times n (if b then pos 1 else pos 0) ≡ pos 0 → (b ≡ false) ⊎ (n ≡ 1)
dec_times-zero true zero h = cc
dec_times-zero true (suc zero) h = inr refl
dec_times-zero true (suc (suc n)) h = cc (dec_times-negsuc n 0)
dec_times-zero false n h = inl refl

-- The rules of a round.
abbrev pub level : List Rule → List Rule → Counts → List Rule
level rules m d = stable_sort (ready rules m d)

zero_and_not :
    (q r : Rule) (d : Counts)
    → (d q.id == pos 0) ≡ true
    → not (d r.id == pos 0) ≡ true
    → q.id ≢ r.id
zero_and_not q r d z nz e = cc (ap d e)

length-keep {ℓ} :
    {A : Type ℓ} (p : A → Bool) (xs : List A)
    → length (keep p xs) + length (keep (λ x. not (p x)) xs) ≡ length xs
length-keep p [] = omega arith
length-keep p (x ∷ xs) = ground (arith, length-keep p xs)

length_pos {ℓ} : {A : Type ℓ} (xs : List A) → is_empty xs ≡ false → 0 < length xs
length_pos [] e = cc
length_pos (x ∷ xs) e = omega arith

module _ (rules placed m : List Rule) (d : Counts) (u : Distinct rules)
    (v : Inv rules placed m d) where
  m-Distinct : Distinct m
  m-Distinct = rw v.sub (keep-Distinct v.which rules u)

  ready-eq : ready rules m d ≡ zeros d m
  ready-eq = rw v.sub (ready-zeros rules v.which d u)

  level-zeros : (q : Rule) → Has q (level rules m d) → Has q (zeros d m)
  level-zeros q h = subst (Has q) ready-eq (stable_sort-Has q _ h)

  pub zeros-level : (q : Rule) → Has q (zeros d m) → Has q (level rules m d)
  zeros-level q h = Has-stable_sort q _ (subst (Has q) (sym ready-eq) h)

  left-eq : (retire m d (level rules m d)).0 ≡ nonzeros d m
  left-eq =
      retire-map m d (level rules m d)
      ∙ keep_cong (survives (level rules m d)) (λ r. not (d r.id == pos 0)) m
          (λ r h. survives-perm d m (level rules m d) r m-Distinct h level-zeros zeros-level)

  pub level-perm : Perm ((level rules m d) ++ (retire m d (level rules m d)).0) m
  level-perm =
      rw (left-eq, ready-eq)
        (Perm.trans (Perm.append_right _ (stable_sort-perm (zeros d m)))
          (keep-perm (λ r. d r.id == pos 0) m))

  next_covers :
      (q : Rule)
      → Has q rules
      → Has q (placed ++ (level rules m d)) ⊎ Has q (retire m d (level rules m d)).0
  next_covers q h = elim (v.covers q h) [
    | inl p ↦ inl (Has-append_left (level rules m d) p)
    | inr h' ↦ elim (Bool-cases (d q.id == pos 0)) [
      | inl z ↦ inl (Has-append_right placed (zeros-level q (keep-Has _ m q h' z)))
      | inr z ↦ inr (rw left-eq (keep-Has _ m q h' (rw z)))
    ]
  ]

  next_degrees :
      (r : Rule)
      → Has r (retire m d (level rules m d)).0
      → (retire m d (level rules m d)).1 r.id
        ≡ dec_times (count_dependency r (placed ++ (level rules m d))) (start rules r)
  next_degrees r h =
      let (h', z) = Has-keep _ m r (subst (Has r) left-eq h) in
      let s = survives-perm d m (level rules m d) r m-Distinct h' level-zeros zeros-level ∙ z in
      retire_count m d (level rules m d) r m-Distinct h' s
      ∙ rw (v.degrees r h', count_dependency-append r placed (level rules m d))
          (dec_times-add (count_dependency r placed) (count_dependency r (level rules m d))
            (start rules r))

  m-rules : (q : Rule) → Has q m → Has q rules
  m-rules q h = (Has-keep v.which rules q (subst (Has q) v.sub h)).0

  next_apart :
      (q r : Rule)
      → Has q (placed ++ level rules m d)
      → Has r (retire m d (level rules m d)).0
      → q.id ≢ r.id
  next_apart q r h k e =
      let (k', z) = Has-keep _ m r (subst (Has r) left-eq k) in
      elim (Has-append_cases placed (level rules m d) h) [
        | inl p ↦ v.apart q r p k' e
        | inr l ↦ zero_and_not q r d (Has-keep _ m q (level-zeros q l)).1 z e
      ]

  pub next-Inv :
      Inv rules
        (placed ++ (level rules m d))
        (retire m d (level rules m d)).0
        (retire m d (level rules m d)).1
  next-Inv = record {
    which = λ r. v.which r && not (d r.id == pos 0);
    sub = left-eq ∙ ap (nonzeros d) v.sub ∙ keep-keep v.which (λ r. not (d r.id == pos 0)) rules;
    degrees = next_degrees;
    covers = next_covers;
    known = λ q h. elim (Has-append_cases placed (level rules m d) h) [
      | inl p ↦ v.known q p
      | inr l ↦ m-rules q (Has-keep _ m q (level-zeros q l)).0
    ];
    once =
        Distinct-append placed (level rules m d) v.once
          (stable_sort-Distinct _ (rw ready-eq (keep-Distinct (λ r. d r.id == pos 0) m m-Distinct)))
          (λ q r h k. v.apart q r h (Has-keep _ m r (level-zeros r k)).0);
    apart = next_apart;
  }

  pub level-IsSatisfied : (r : Rule) → Has r (level rules m d) → IsSatisfied rules placed r
  level-IsSatisfied r h =
      let (h', z) = Has-keep _ m r (level-zeros r h) in
      dec_times-zero (has_dependency rules r) (count_dependency r placed)
        (sym (v.degrees r h') ∙ (eq_iff (d r.id) (pos 0)).0 z)

  -- A round that finds a level makes the map smaller.
  pub left-shorter :
      is_empty (level rules m d) ≡ false → length (retire m d (level rules m d)).0 < length m
  left-shorter e = rw left-eq (
      omega (
        arith,
        length_pos (level rules m d) e,
        length-stable_sort (ready rules m d),
        ap length ready-eq,
        length-keep (λ r. d r.id == pos 0) m,
      ))
