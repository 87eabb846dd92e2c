-- ===== src/Expression/Boundary.antt =====
-- containsAtIdentifierBoundary finds exactly the occurrences that are whole identifiers.
use fast_rules.Base.{
  ℕ, zero, suc, ◌+◌, ◌-◌, ◌≤◌, ◌<◌, ◌≡◌, refl, sym, ap, ◌∙◌, ◌↔◌, inl, inr, List, [], ◌∷◌, Bool,
  true, false, ◌&&◌, Option, none, some, arith, length, is_empty, drop, Bool-cases, &&-eq-true,
}
use native.Mathlib.Decide.{dec_lt, ℕ_discrete}
use native.Mathlib.Nat.{zero-add}
use fast_rules.Base.Text.{Text}
use fast_rules.Base.Search.{starts_with, search_from}
use fast_rules.Expression.{start_ok, end_ok, boundary_loop, contains_at_identifier_boundary}

-- `p` occurs in `s` at the index `i`.
abbrev pub occurs_at : Text → Text → ℕ → Bool
occurs_at s p i = starts_with p (drop i s)

-- It occurs there, with no identifier character before or behind it.
abbrev pub stands_alone_at : Text → Text → ℕ → Bool
stands_alone_at s p i = occurs_at s p i && (start_ok s i && end_ok s (i + length p))

-- What the search of a rest `t` with the index `i` returns: the first occurrence, if any.
data Found (p t : Text) (i : ℕ) (r : Option ℕ) : Type 0 where
  absent : r ≡ none → ((k : ℕ) → starts_with p (drop k t) ≡ false) → Found p t i r
  present :
      (k : ℕ)
      → r ≡ some (i + k)
      → starts_with p (drop k t) ≡ true
      → ((k' : ℕ) → k' < k → starts_with p (drop k' t) ≡ false)
      → Found p t i r

drop-nil {ℓ} : {A : Type ℓ} (k : ℕ) → drop {A = A} k [] ≡ []
drop-nil zero = refl
drop-nil (suc k) = refl

search_from-Found : (p t : Text) (i : ℕ) → Found p t i (search_from p t i)
unfolding search_from
search_from-Found p [] i = elim (Bool-cases (starts_with p [])) [
  | inl e ↦ present 0 (rw e (ap some (omega arith))) e (λ k' h. elim h [ ])
  | inr e ↦ absent (rw e refl) (λ k. rw (drop-nil {A = ℕ} k) e)
]
search_from-Found p (c ∷ t) i = elim (Bool-cases (starts_with p (c ∷ t))) [
  | inl e ↦ present 0 (rw e (ap some (omega arith))) e (λ k' h. elim h [ ])
  | inr e ↦ elim (search_from-Found p t (suc i)) [
    | absent r none_later ↦ absent (rw e r) (later e none_later)
    | present k r here_k before ↦
        present (suc k) (rw e (r ∙ ap some (omega arith))) here_k (earlier e k before)
  ]
]
  where
    later :
        starts_with p (c ∷ t) ≡ false
        → ((k : ℕ) → starts_with p (drop k t) ≡ false)
        → (k : ℕ) → starts_with p (drop k (c ∷ t)) ≡ false
    later e h zero = e
    later e h (suc k) = h k

    earlier :
        starts_with p (c ∷ t) ≡ false
        → (k : ℕ) → ((k' : ℕ) → k' < k → starts_with p (drop k' t) ≡ false)
        → (k' : ℕ) → k' < suc k
        → starts_with p (drop k' (c ∷ t)) ≡ false
    earlier e k h zero lt = e
    earlier e k h (suc k') lt = h k' (omega arith)

drop-drop {ℓ} : {A : Type ℓ} (i k : ℕ) (s : List A) → drop k (drop i s) ≡ drop (i + k) s
drop-drop zero k s = rw zero-add
drop-drop (suc i) k [] = drop-nil k ∙ sym (drop-nil (suc i + k))
drop-drop (suc i) k (c ∷ s) =
    let e : suc i + k ≡ suc (i + k) = omega arith in drop-drop i k s ∙ rw e refl

drop_past : (i : ℕ) (s : Text) → length s ≤ i → drop i s ≡ []
drop_past zero [] h = refl
drop_past zero (c ∷ s) h = absurd (omega arith)
drop_past (suc i) [] h = refl
drop_past (suc i) (c ∷ s) h = drop_past i s (omega arith)

-- A text that is not empty occurs only before the end.
occurs_at-lt : (s p : Text) (i : ℕ) → is_empty p ≡ false → occurs_at s p i ≡ true → i < length s
occurs_at-lt s [] i e h = cc
occurs_at-lt s (c ∷ p) i e h = elim (dec_lt i (length s)) [
  | yes lt ↦ lt
  | no ge ↦ cc (rw (drop_past i s (omega arith)) at h)
]

loop_sound :
    (fuel : ℕ) (s p : Text) (pos : ℕ)
    → boundary_loop fuel s p pos ≡ true
    → (i : ℕ) × (stands_alone_at s p i ≡ true)
unfolding boundary_loop
loop_sound zero s p pos h = cc
loop_sound (suc fuel) s p pos h = elim (search_from-Found p (drop pos s) pos) [
  | absent r _ ↦ cc (rw (r, boundary_loop) at h)
  | present k r occurs _ ↦
      elim (Bool-cases (start_ok s (pos + k) && end_ok s (pos + k + length p))) [
        | inl t ↦ (pos + k, rw (← drop-drop pos k s, occurs) t)
        | inr f ↦ loop_sound fuel s p (suc (pos + k)) (rw (r, boundary_loop, f) at h)
      ]
]

alone_parts :
    (s p : Text) (i : ℕ)
    → stands_alone_at s p i ≡ true
    → (occurs_at s p i ≡ true) × ((start_ok s i && end_ok s (i + length p)) ≡ true)
alone_parts s p i h = &&-eq-true (occurs_at s p i) (start_ok s i && end_ok s (i + length p)) h

rest_at :
    (s p : Text) (pos i : ℕ)
    → pos ≤ i
    → occurs_at s p i ≡ true
    → starts_with p (drop (i - pos) (drop pos s)) ≡ true
rest_at s p pos i le h =
    let e : pos + (i - pos) ≡ i = omega arith in rw (drop-drop pos (i - pos) s, e) h

loop_complete :
    (fuel : ℕ) (s p : Text) (pos i : ℕ)
    → is_empty p ≡ false
    → length s < fuel + pos
    → pos ≤ i
    → stands_alone_at s p i ≡ true
    → boundary_loop fuel s p pos ≡ true
unfolding boundary_loop
loop_complete zero s p pos i e enough le h =
    absurd (omega (arith, occurs_at-lt s p i e (alone_parts s p i h).0))
loop_complete (suc fuel) s p pos i e enough le h = elim (search_from-Found p (drop pos s) pos) [
  | absent r none_later ↦ cc (rest_at s p pos i le (alone_parts s p i h).0, none_later (i - pos))
  | present k r occurs before ↦
      elim (Bool-cases (start_ok s (pos + k) && end_ok s (pos + k + length p))) [
        | inl t ↦ rw (r, boundary_loop, t)
        | inr f ↦
            rw (r, boundary_loop, f)
              (loop_complete fuel s p (suc (pos + k)) i e (omega arith)
                (elim (dec_lt (i - pos) k) [
                  | yes lt ↦ cc (rest_at s p pos i le (alone_parts s p i h).0, before (i - pos) lt)
                  | no ge ↦ elim (ℕ_discrete i (pos + k)) [
                    | yes same ↦ cc (
                      ap (λ j. start_ok s j && end_ok s (j + length p)) same,
                      (alone_parts s p i h).1,
                      f,
                    )
                    | no other ↦ omega arith
                  ]
                ])
                h)
      ]
]

-- An expression is found to hold a pattern exactly if the pattern occurs somewhere in it with no
-- identifier character directly before or behind it; an empty pattern is never found.
pub contains_iff :
    (s p : Text)
    → (contains_at_identifier_boundary s p ≡ true)
      ↔ ((is_empty p ≡ false) × (i : ℕ) × (stands_alone_at s p i ≡ true))
unfolding contains_at_identifier_boundary
contains_iff s [] = (λ h. cc, λ h. cc (h.0))
contains_iff s (c ∷ p) = (
  λ h. (
    refl,
    (loop_sound (suc (length s)) s (c ∷ p) 0 h).0,
    (loop_sound (suc (length s)) s (c ∷ p) 0 h).1,
  ),
  λ h. loop_complete (suc (length s)) s (c ∷ p) 0 h.1 refl (omega arith) (omega arith) h.2,
)
