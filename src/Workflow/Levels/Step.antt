-- ===== src/Workflow/Levels/Step.antt =====
-- One round of the loop: which rules are ready, and what their removal leaves.
use mathlib.Core.List.Perm
use native.Mathlib.Nat.{zero-add}
use mathlib.Core.List.{Perm, perm_middle}
use fast_rules.Base.{
  ℕ, zero, suc, ◌+◌, ◌≡◌, ◌≢◌, refl, sym, ap, ◌∙◌, inl, inr, List, [], ◌∷◌, ◌++◌, Bool, true, false,
  not, ◌&&◌, if◌then◌else◌, ◌==◌, eq_iff, eq_refl, any, keep, All, All-Has, Has, here, there,
  Bool-cases, arith,
}
use fast_rules.Base.Int.{ℤ, pos, dec, ℤ_eq}
use fast_rules.Base.Text.{Text, Text_eq}
use fast_rules.Rule.{Rule}
use fast_rules.Workflow.Levels.{
  Counts, update, put, in_map, erase_id, ready, depends_on, decrement, retire,
}
use fast_rules.Workflow.Levels.Lists.{
  Distinct, keep_cong, keep-keep, keep_all, Has-keep, keep-Has, keep-Distinct, Has-id, any-Has,
  Has-any,
}

-- With distinct ids the map holds the rules as they are listed.
pub put_fresh : (r : Rule) (m : List Rule) → All (λ q. q.id ≢ r.id) m → put r m ≡ m ++ r ∷ []
unfolding put
put_fresh r [] h = refl
put_fresh r (q ∷ m) h = ground (arith, eq_iff q.id r.id, put_fresh r m h.1)

-- The rules that are still in the map and have no dependency left, in the order of the map.
abbrev pub zeros : Counts → List Rule → List Rule
zeros d m = keep (λ r. d r.id == pos 0) m

abbrev pub nonzeros : Counts → List Rule → List Rule
nonzeros d m = keep (λ r. not (d r.id == pos 0)) m

in_map-keep :
    (rules : List Rule) (p : Rule → Bool) (r : Rule)
    → Distinct rules
    → Has r rules
    → in_map r.id (keep p rules) ≡ p r
in_map-keep rules p r d m = elim (Bool-cases (p r)) [
  | inl t ↦
      any-Has (λ q. q.id == r.id) (keep p rules) r (keep-Has p rules r m t) (eq_refl r.id) ∙ sym t
  | inr f ↦ elim (Bool-cases (in_map r.id (keep p rules))) [
    | inl t ↦
        let (q, m', e) = Has-any (λ q. q.id == r.id) (keep p rules) t in
        let (m'', t') = Has-keep p rules q m' in
        absurd (cc (ap p (Has-id rules d m'' m ((eq_iff q.id r.id).0 e)), t', f))
    | inr f' ↦ f' ∙ sym f
  ]
]

pub ready-zeros :
    (rules : List Rule) (p : Rule → Bool) (d : Counts)
    → Distinct rules
    → ready rules (keep p rules) d ≡ zeros d (keep p rules)
unfolding ready
ready-zeros rules p d u =
    keep_cong _ _ rules (λ r m. rw (in_map-keep rules p r u m))
    ∙ sym (keep-keep p (λ r. d r.id == pos 0) rules)

-- Removing rules by their ids one after the other.
abbrev pub survives : List Rule → Rule → Bool
survives l r = not (any (λ q. r.id == q.id) l)

pub retire-map :
    (m : List Rule) (d : Counts) (l : List Rule) → (retire m d l).0 ≡ keep (survives l) m
unfolding retire
retire-map m d [] = sym (keep_all _ m (λ x h. refl))
retire-map m d (r ∷ l) =
    retire-map (erase_id r.id m) (decrement r.name (erase_id r.id m) d) l
    ∙ keep-keep _ (survives l) m
    ∙ keep_cong (λ q. (if q.id == r.id then false else true) && survives l q) _ m
        (λ q h. ground arith)

-- Erasing the ready rules leaves the others.
pub survives-perm :
    (d : Counts) (m l : List Rule) (r : Rule)
    → Distinct m
    → Has r m
    → ((q : Rule) → Has q l → Has q (zeros d m))
    → ((q : Rule) → Has q (zeros d m) → Has q l)
    → survives l r ≡ not (d r.id == pos 0)
survives-perm d m l r u h to from = elim (Bool-cases (d r.id == pos 0)) [
  | inl z ↦ rw (z, any-Has (λ q. r.id == q.id) l r (from r (keep-Has _ m r h z)) (eq_refl r.id))
  | inr z ↦ elim (Bool-cases (any (λ q. r.id == q.id) l)) [
    | inl t ↦
        let (q, m', e) = Has-any (λ q. r.id == q.id) l t in
        let (m'', z') = Has-keep _ m q (to q m') in
        absurd (cc (ap d ((eq_iff r.id q.id).0 e), z', z))
    | inr f ↦ rw (f, z)
  ]
]

-- How many rules of `l` the rule `r` names as its dependency.
abbrev pub count_dependency : Rule → List Rule → ℕ
count_dependency r [] = 0
count_dependency r (q ∷ l) =
    if depends_on q.name r then suc (count_dependency r l) else count_dependency r l

abbrev pub dec_times : ℕ → ℤ → ℤ
dec_times zero z = z
dec_times (suc n) z = dec_times n (dec z)

pub dec_times-add : (a b : ℕ) (z : ℤ) → dec_times b (dec_times a z) ≡ dec_times (a + b) z
dec_times-add zero b z = rw zero-add
dec_times-add (suc a) b z =
    let e : suc a + b ≡ suc (a + b) = omega arith in dec_times-add a b (dec z) ∙ rw e refl

pub count_dependency-append :
    (r : Rule) (xs ys : List Rule)
    → count_dependency r (xs ++ ys) ≡ count_dependency r xs + count_dependency r ys
count_dependency-append r [] ys = omega arith
count_dependency-append r (x ∷ xs) ys = ground (arith, count_dependency-append r xs ys)

pub update_other : (d : Counts) (k j v : ℤ) → k ≢ j → update d k v j ≡ d j
update_other d k j v h = ground (arith, eq_iff k j)

decrement_other :
    (n : Text) (m : List Rule) (d : Counts) (k : ℤ)
    → All (λ q. k ≢ q.id) m
    → decrement n m d k ≡ d k
unfolding decrement
decrement_other n [] d k h = refl
decrement_other n (q ∷ m) d k h = elim (Bool-cases (depends_on n q)) [
  | inl t ↦ rw t (decrement_other n m _ k h.1 ∙ update_other d q.id k _ (λ e. h.0 (sym e)))
  | inr f ↦ rw f (decrement_other n m d k h.1)
]

decrement_one :
    (n : Text) (m : List Rule) (d : Counts) (r : Rule)
    → Distinct m
    → Has r m
    → decrement n m d r.id ≡ (if depends_on n r then dec (d r.id) else d r.id)
unfolding decrement
decrement_one n [] d r u h = elim h [ ]
decrement_one n (q ∷ m) d q' u here = decrement_other n m _ q.id u.0 ∙ ground (arith, eq_refl q.id)
decrement_one n (q ∷ m) d r u (there h) =
    decrement_one n m _ r u.1 h ∙ ground (arith, eq_iff q.id r.id, All-Has _ u.0 h)

survives_head :
    (q : Rule) (l : List Rule) (r : Rule)
    → survives (q ∷ l) r ≡ true
    → (if r.id == q.id then false else true) ≡ true
survives_head q l r s = ground arith

survives_tail :
    (q : Rule) (l : List Rule) (r : Rule) → survives (q ∷ l) r ≡ true → survives l r ≡ true
survives_tail q l r s = ground arith

pub retire_count :
    (m : List Rule) (d : Counts) (l : List Rule) (r : Rule)
    → Distinct m
    → Has r m
    → survives l r ≡ true
    → (retire m d l).1 r.id ≡ dec_times (count_dependency r l) (d r.id)
unfolding retire
retire_count m d [] r u h s = refl
retire_count m d (q ∷ l) r u h s =
    let other = λ (x : Rule). if x.id == q.id then false else true in
    let kept : Has r (erase_id q.id m) = keep-Has other m r h (survives_head q l r s) in
    let u' = keep-Distinct other m u in
    retire_count (erase_id q.id m) (decrement q.name (erase_id q.id m) d) l r u' kept
      (survives_tail q l r s)
    ∙ rw (decrement_one q.name (erase_id q.id m) d r u' kept) (ground arith)

module _ {ℓ} {A : Type ℓ} where
  pub keep-perm : (p : A → Bool) (xs : List A) → Perm (keep p xs ++ keep (λ x. not (p x)) xs) xs
  keep-perm p [] = Perm.nil
  keep-perm p (x ∷ xs) = elim (Bool-cases (p x)) [
    | inl t ↦ rw t (Perm.cons x (keep-perm p xs))
    | inr f ↦ rw f (
        Perm.trans (perm_middle (keep p xs) (keep (λ y. not (p y)) xs))
          (Perm.cons x (keep-perm p xs)))
  ]
