-- ===== src/Input/Brackets.antt =====
-- When LuaExpressionValidator::validate accepts an expression, and what its bracket scan decides.
use fast_rules.Base.{
  ℕ, zero, suc, ◌+◌, ◌≤◌, ◌≡◌, refl, ◌↔◌, List, [], ◌∷◌, Bool, true, false, ◌&&◌, ◌||◌, Option,
  none, some, if◌then◌else◌, ◌==◌, ltb, ℕ_eq, arith, length, take, is_empty, any, all,
}
use native.Mathlib.Decide.{ℕ_discrete}
use fast_rules.Base.Text.{Text}
use fast_rules.Base.Search.{is_space, to_lower_ascii}
use fast_rules.Expression.{count_char}
use fast_rules.Input.{
  LuaExpressionValidator, BracketCounts, close_with, scan_brackets, validate_syntax,
  matches_pattern, check_dangerous_patterns, validate,
}

-- In no beginning of the text are there more closing than opening brackets, `n` of them being open
-- at its start; none is open at its end.
abbrev pub IsBalanced : ℕ → ℕ → Text → ℕ → Type 0
IsBalanced o c s n =
    ((k : ℕ) → count_char c (take k s) ≤ n + count_char o (take k s))
    × (count_char c s ≡ n + count_char o s)

-- The scan for one kind of bracket alone.
abbrev walk : ℕ → ℕ → Text → ℕ → Bool
walk o c [] n = n == 0
walk o c (x ∷ s) n =
    if x == o
    then walk o c s (n + 1)
    else if x == c
    then close_with n false (λ k. walk o c s k)
    else walk o c s n

abbrev counts : ℕ → ℕ → ℕ → BracketCounts
counts p b r = record { paren = p; bracket = b; brace = r }

-- The scans of the three kinds, each with its own count.
abbrev walks : Text → ℕ → ℕ → ℕ → Bool
walks s p b r = walk b'(' b')' s p && (walk b'[' b']' s b && walk b'{' b'}' s r)

abbrev Agree : Text → ℕ → ℕ → ℕ → Type 0
Agree s p b r = (scan_brackets s (counts p b r) ≡ none) ↔ (walks s p b r ≡ true)

middle_false : (a c : Bool) → (a && (false && c)) ≡ false
middle_false a c = ground arith

last_false : (a b : Bool) → (a && (b && false)) ≡ false
last_false a b = ground arith

-- A closing bracket, where the rest of the check is `f`.
close_iff :
    (n : ℕ) (message : Text) (go : ℕ → Option Text) (w : ℕ → Bool) (f : Bool → Bool)
    → f false ≡ false
    → ((k : ℕ) → (go k ≡ none) ↔ (f (w k) ≡ true))
    → (close_with n (some message) go ≡ none) ↔ (f (close_with n false w) ≡ true)
close_iff zero message go w f h rest = (λ e. absurd (ground arith), λ e. cc)
close_iff (suc k) message go w f h rest = rest k

-- The scan of all kinds succeeds exactly if the scans of the kinds do.
scan_brackets-walk : (s : Text) (p b r : ℕ) → Agree s p b r
unfolding scan_brackets
scan_brackets-walk [] p b r = ground arith
scan_brackets-walk (x ∷ s) p b r = elim (ℕ_discrete x b'(') [
  | yes e ↦ rw e (scan_brackets-walk s (p + 1) b r)
  | no ne₁ ↦ elim (ℕ_discrete x b')') [
    | yes e ↦ rw e (
        close_iff p _ _ _ (λ t. t && (walk b'[' b']' s b && walk b'{' b'}' s r)) refl
          (λ k. scan_brackets-walk s k b r))
    | no ne₂ ↦ elim (ℕ_discrete x b'[') [
      | yes e ↦ rw e (scan_brackets-walk s p (b + 1) r)
      | no ne₃ ↦ elim (ℕ_discrete x b']') [
        | yes e ↦ rw e (
            close_iff b _ _ _ (λ t. walk b'(' b')' s p && (t && walk b'{' b'}' s r))
              (middle_false (walk b'(' b')' s p) (walk b'{' b'}' s r))
              (λ k. scan_brackets-walk s p k r))
        | no ne₄ ↦ elim (ℕ_discrete x b'{') [
          | yes e ↦ rw e (scan_brackets-walk s p b (r + 1))
          | no ne₅ ↦ elim (ℕ_discrete x b'}') [
            | yes e ↦ rw e (
                close_iff r _ _ _ (λ t. walk b'(' b')' s p && (walk b'[' b']' s b && t))
                  (last_false (walk b'(' b')' s p) (walk b'[' b']' s b))
                  (λ k. scan_brackets-walk s p b k))
            | no ne₆ ↦ ground (arith, scan_brackets-walk s p b r)
          ]
        ]
      ]
    ]
  ]
]

module _ (o c : ℕ) where
  walk_prefix :
      (s : Text) (n k : ℕ)
      → walk o c s n ≡ true
      → count_char c (take k s) ≤ n + count_char o (take k s)
  walk_prefix s n zero h = omega arith
  walk_prefix [] n (suc k) h = omega arith
  walk_prefix (x ∷ s) zero (suc k) h = ground (arith, walk_prefix s 1 k, walk_prefix s 0 k)
  walk_prefix (x ∷ s) (suc n) (suc k) h =
      ground (arith, walk_prefix s (suc n + 1) k, walk_prefix s n k, walk_prefix s (suc n) k)

  walk_total : (s : Text) (n : ℕ) → walk o c s n ≡ true → count_char c s ≡ n + count_char o s
  walk_total [] n h = ground arith
  walk_total (x ∷ s) zero h = ground (arith, walk_total s 1, walk_total s 0)
  walk_total (x ∷ s) (suc n) h =
      ground (arith, walk_total s (suc n + 1), walk_total s n, walk_total s (suc n))

  -- From the text behind a character that changes the count from `n` to `m`.
  tail-IsBalanced :
      (x : ℕ) (s : Text) (n m : ℕ)
      → m + count_char c (x ∷ []) ≡ n + count_char o (x ∷ [])
      → IsBalanced o c (x ∷ s) n
      → IsBalanced o c s m
  tail-IsBalanced x s n m e h = (λ k. ground (arith, h.0 (suc k), e), ground (arith, h.1, e))

  abbrev Follows : ℕ → Text → ℕ → ℕ → Type 0
  Follows x s n m = m + count_char c (x ∷ []) ≡ n + count_char o (x ∷ []) → walk o c s m ≡ true

  module _ (ne : ¬ (o ≡ c)) where
    walk_complete : (s : Text) (n : ℕ) → IsBalanced o c s n → walk o c s n ≡ true
    walk_complete [] n h = ground (arith, h.1)
    walk_complete (x ∷ s) zero h =
        let up : Follows x s 0 1 = λ e. walk_complete s 1 (tail-IsBalanced x s 0 1 e h) in
        let on : Follows x s 0 0 = λ e. walk_complete s 0 (tail-IsBalanced x s 0 0 e h) in
        ground (arith, h.0 1, ne, up, on)
    walk_complete (x ∷ s) (suc n) h =
        let up : Follows x s (suc n) (suc n + 1) =
          λ e. walk_complete s (suc n + 1) (tail-IsBalanced x s (suc n) (suc n + 1) e h) in
        let on : Follows x s (suc n) (suc n) =
          λ e. walk_complete s (suc n) (tail-IsBalanced x s (suc n) (suc n) e h) in
        let down : Follows x s (suc n) n =
          λ e. walk_complete s n (tail-IsBalanced x s (suc n) n e h) in
        ground (arith, ne, up, on, down)

walk-IsBalanced : (o c : ℕ) → ¬ (o ≡ c) → (s : Text) → (walk o c s 0 ≡ true) ↔ IsBalanced o c s 0
walk-IsBalanced o c ne s =
    (λ h. (λ k. walk_prefix o c s 0 k h, walk_total o c s 0 h), walk_complete o c ne s 0)

-- Three kinds of bracket, each balanced.
abbrev pub AllBalanced : Text → Type 0
AllBalanced e = IsBalanced b'(' b')' e 0 × IsBalanced b'[' b']' e 0 × IsBalanced b'{' b'}' e 0

and_iff :
    {P Q R : Type 0} {a b c : Bool}
    → (a ≡ true) ↔ P
    → (b ≡ true) ↔ Q
    → (c ≡ true) ↔ R
    → ((a && (b && c)) ≡ true) ↔ (P × Q × R)
and_iff {a = true} {b = true} {c = true} p q r = (λ h. (p.0 refl, q.0 refl, r.0 refl), λ h. refl)
and_iff {a = true} {b = true} {c = false} p q r = (λ h. cc, λ h. r.1 h.2)
and_iff {a = true} {b = false} p q r = (λ h. cc, λ h. q.1 h.1)
and_iff {a = false} p q r = (λ h. cc, λ h. p.1 h.0)

pub validate_syntax_iff : (e : Text) → (validate_syntax e ≡ none) ↔ AllBalanced e
unfolding validate_syntax
validate_syntax_iff e =
    let scans : Agree e 0 0 0 = scan_brackets-walk e 0 0 0 in
    let kinds : (walks e 0 0 0 ≡ true) ↔ AllBalanced e =
      and_iff (walk-IsBalanced b'(' b')' (λ h. omega arith) e)
        (walk-IsBalanced b'[' b']' (λ h. omega arith) e)
        (walk-IsBalanced b'{' b'}' (λ h. omega arith) e) in
    (λ h. kinds.0 (scans.0 h), λ h. scans.1 (kinds.1 h))

check_dangerous_patterns-none :
    (ps : List Text) (s : Text)
    → (check_dangerous_patterns ps s ≡ none) ↔ (any (matches_pattern s) ps ≡ false)
unfolding check_dangerous_patterns
check_dangerous_patterns-none [] s = ground arith
check_dangerous_patterns-none (p ∷ ps) s = ground (arith, check_dangerous_patterns-none ps s)

-- Checks in a row: three guards, and a last check.
guards_iff :
    (long blank : Bool) (patterns syntax : Option Text) (m₁ m₂ : Text)
    → ((if long
          then some m₁
          else if blank
          then some m₂
          else elim patterns [ none ↦ syntax | some m ↦ some m ])
        ≡ none)
      ↔ ((long ≡ false) × (blank ≡ false) × (patterns ≡ none) × (syntax ≡ none))
guards_iff true blank patterns syntax m₁ m₂ = ground arith
guards_iff false true patterns syntax m₁ m₂ = ground arith
guards_iff false false none syntax m₁ m₂ = (λ h. (refl, refl, refl, h), λ h. h.3)
guards_iff false false (some m) syntax m₁ m₂ = ground arith

-- An expression is accepted exactly if it is not above the maximal length, holds a character that
-- is not white space, matches no dangerous pattern in lower case, and each kind of bracket is
-- balanced: as many opening as closing ones, and no beginning with more closing than opening ones.
pub validate_iff :
    (v : LuaExpressionValidator) (e : Text)
    → (validate v e ≡ none) ↔ (
        length e ≤ v.max_length
        × ((is_empty e || all is_space e) ≡ false)
        × (any (matches_pattern (to_lower_ascii e)) v.dangerous_patterns ≡ false)
        × AllBalanced e)
unfolding validate
validate_iff v e =
    let checks =
      guards_iff (ltb v.max_length (length e)) (is_empty e || all is_space e)
        (check_dangerous_patterns v.dangerous_patterns (to_lower_ascii e)) (validate_syntax e) _
        _ in
    let patterns = check_dangerous_patterns-none v.dangerous_patterns (to_lower_ascii e) in
    (
      λ h.
          let r = checks.0 h in
          (ground (arith, r.0), r.1, patterns.0 r.2, (validate_syntax_iff e).0 r.3),
      λ h. checks.1 (ground (arith, h.0), h.1, patterns.1 h.2, (validate_syntax_iff e).1 h.3),
    )
