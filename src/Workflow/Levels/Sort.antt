-- ===== src/Workflow/Levels/Sort.antt =====
-- `std::stable_sort` by priority.
use mathlib.Core.List.Perm
use mathlib.Core.List.{Perm}
use fast_rules.Workflow.Levels.Lists.{Distinct}
use fast_rules.Base.{
  sym, ◌≢◌, length, suc, ap, ◌≡◌, refl, ◌∙◌, inl, inr, List, [], ◌∷◌, true, false, ◌==◌, eq_iff,
  keep, All, Has, here, there, Bool-cases, arith,
}
use fast_rules.Base.Int.{ℤ, ltb_ℤ, ℤ_eq}
use fast_rules.Base.Text.{Text_eq}
use fast_rules.Rule.{Rule}
use fast_rules.Workflow.Levels.{insert_by_priority, stable_sort}
use fast_rules.Workflow.Levels.Lists.{Has-cons}

-- The sort only reorders, and puts lower priorities first.
insert-perm : (r : Rule) (l : List Rule) → Perm (insert_by_priority r l) (r ∷ l)
insert-perm r [] = Perm.refl _
insert-perm r (q ∷ l) = elim (Bool-cases (ltb_ℤ q.priority r.priority)) [
  | inl t ↦ rw t (Perm.trans (Perm.cons q (insert-perm r l)) (Perm.swap r q l))
  | inr f ↦ rw f (Perm.refl _)
]

pub stable_sort-perm : (l : List Rule) → Perm (stable_sort l) l
unfolding stable_sort
stable_sort-perm [] = Perm.nil
stable_sort-perm (r ∷ l) =
    Perm.trans (insert-perm r (stable_sort l)) (Perm.cons r (stable_sort-perm l))

Has-insert : (r q : Rule) (l : List Rule) → Has q (r ∷ l) → Has q (insert_by_priority r l)
Has-insert r q [] h = h
Has-insert r q (x ∷ l) h = elim (Bool-cases (ltb_ℤ x.priority r.priority)) [
  | inl t ↦ rw t (elim (Has-cons q r (x ∷ l) h) [
    | inl e ↦ there (Has-insert r q l (rw e here))
    | inr h' ↦ elim (Has-cons q x l h') [
      | inl e ↦ rw e here
      | inr h'' ↦ there (Has-insert r q l (there h''))
    ]
  ])
  | inr f ↦ rw f h
]

insert-Has : (r q : Rule) (l : List Rule) → Has q (insert_by_priority r l) → Has q (r ∷ l)
insert-Has r q [] h = h
insert-Has r q (x ∷ l) h = elim (Bool-cases (ltb_ℤ x.priority r.priority)) [
  | inl t ↦ elim (Has-cons q x _ (rw t at h)) [
    | inl e ↦ rw e (there here)
    | inr h' ↦ elim (Has-cons q r l (insert-Has r q l h')) [
      | inl e ↦ rw e here
      | inr h'' ↦ there (there h'')
    ]
  ]
  | inr f ↦ rw f at h
]

pub Has-stable_sort : (q : Rule) (l : List Rule) → Has q l → Has q (stable_sort l)
unfolding stable_sort
Has-stable_sort q [] h = h
Has-stable_sort q (r ∷ l) h = elim (Has-cons q r l h) [
  | inl e ↦ Has-insert r q _ (rw e here)
  | inr h' ↦ Has-insert r q _ (there (Has-stable_sort q l h'))
]

pub stable_sort-Has : (q : Rule) (l : List Rule) → Has q (stable_sort l) → Has q l
unfolding stable_sort
stable_sort-Has q [] h = h
stable_sort-Has q (r ∷ l) h = elim (Has-cons q r _ (insert-Has r q _ h)) [
  | inl e ↦ rw e here
  | inr h' ↦ there (stable_sort-Has q l h')
]

-- Priorities do not fall along the list.
abbrev pub IsByPriority : List Rule → Type 0
IsByPriority [] = Unit {0}
IsByPriority (r ∷ l) = All (λ q. ltb_ℤ q.priority r.priority ≡ false) l × IsByPriority l

ltb_ℤ_trans : (a b c : ℤ) → ltb_ℤ b a ≡ false → ltb_ℤ c b ≡ false → ltb_ℤ c a ≡ false
ltb_ℤ_trans a b c h k = ground arith

ltb_ℤ_asym : (a b : ℤ) → ltb_ℤ a b ≡ true → ltb_ℤ b a ≡ false
ltb_ℤ_asym a b h = ground arith

All-at_least :
    (a b : ℤ) (l : List Rule)
    → ltb_ℤ b a ≡ false
    → All (λ q. ltb_ℤ q.priority b ≡ false) l
    → All (λ q. ltb_ℤ q.priority a ≡ false) l
All-at_least a b [] h k = tt
All-at_least a b (x ∷ l) h k = (ltb_ℤ_trans a b x.priority h k.0, All-at_least a b l h k.1)

All-insert :
    (a : ℤ) (r : Rule) (l : List Rule)
    → ltb_ℤ r.priority a ≡ false
    → All (λ q. ltb_ℤ q.priority a ≡ false) l
    → All (λ q. ltb_ℤ q.priority a ≡ false) (insert_by_priority r l)
All-insert a r [] h k = (h, tt)
All-insert a r (x ∷ l) h k = elim (Bool-cases (ltb_ℤ x.priority r.priority)) [
  | inl t ↦ rw t (k.0, All-insert a r l h k.1)
  | inr f ↦ rw f (h, k)
]

insert-IsByPriority :
    (r : Rule) (l : List Rule) → IsByPriority l → IsByPriority (insert_by_priority r l)
insert-IsByPriority r [] h = (tt, tt)
insert-IsByPriority r (x ∷ l) h = elim (Bool-cases (ltb_ℤ x.priority r.priority)) [
  | inl t ↦ rw t (
    All-insert x.priority r l (ltb_ℤ_asym x.priority r.priority t) h.0,
    insert-IsByPriority r l h.1,
  )
  | inr f ↦ rw f ((f, All-at_least r.priority x.priority l f h.0), h)
]

pub stable_sort-IsByPriority : (l : List Rule) → IsByPriority (stable_sort l)
unfolding stable_sort
stable_sort-IsByPriority [] = tt
stable_sort-IsByPriority (r ∷ l) =
    insert-IsByPriority r (stable_sort l) (stable_sort-IsByPriority l)

abbrev pub with_priority : ℤ → List Rule → List Rule
with_priority p l = keep (λ q. q.priority == p) l

insert_stable :
    (p : ℤ) (r : Rule) (l : List Rule)
    → with_priority p (insert_by_priority r l) ≡ with_priority p (r ∷ l)
insert_stable p r [] = refl
insert_stable p r (x ∷ l) = elim (Bool-cases (ltb_ℤ x.priority r.priority)) [
  | inl t ↦ ground (arith, insert_stable p r l, eq_iff x.priority p, eq_iff r.priority p)
  | inr f ↦ rw f
]

-- Rules of one priority stay in the order in which they are listed.
pub stable_sort_stable :
    (p : ℤ) (l : List Rule) → with_priority p (stable_sort l) ≡ with_priority p l
unfolding stable_sort
stable_sort_stable p [] = refl
stable_sort_stable p (r ∷ l) =
    insert_stable p r (stable_sort l) ∙ ground (arith, stable_sort_stable p l)

length-insert : (r : Rule) (l : List Rule) → length (insert_by_priority r l) ≡ suc (length l)
length-insert r [] = refl
length-insert r (x ∷ l) = ground (arith, length-insert r l)

pub length-stable_sort : (l : List Rule) → length (stable_sort l) ≡ length l
unfolding stable_sort
length-stable_sort [] = refl
length-stable_sort (r ∷ l) = length-insert r (stable_sort l) ∙ ap suc (length-stable_sort l)

All-insert_ne :
    (k : ℤ) (r : Rule) (l : List Rule)
    → k ≢ r.id
    → All (λ q. k ≢ q.id) l
    → All (λ q. k ≢ q.id) (insert_by_priority r l)
All-insert_ne k r [] h a = (h, tt)
All-insert_ne k r (x ∷ l) h a = elim (Bool-cases (ltb_ℤ x.priority r.priority)) [
  | inl t ↦ rw t (a.0, All-insert_ne k r l h a.1)
  | inr f ↦ rw f (h, a)
]

All-stable_sort_ne :
    (k : ℤ) (l : List Rule) → All (λ q. k ≢ q.id) l → All (λ q. k ≢ q.id) (stable_sort l)
unfolding stable_sort
All-stable_sort_ne k [] a = tt
All-stable_sort_ne k (r ∷ l) a = All-insert_ne k r (stable_sort l) a.0 (All-stable_sort_ne k l a.1)

insert-Distinct :
    (r : Rule) (l : List Rule)
    → All (λ q. r.id ≢ q.id) l
    → Distinct l
    → Distinct (insert_by_priority r l)
insert-Distinct r [] h d = (tt, tt)
insert-Distinct r (x ∷ l) h d = elim (Bool-cases (ltb_ℤ x.priority r.priority)) [
  | inl t ↦ rw t (All-insert_ne x.id r l (λ e. h.0 (sym e)) d.0, insert-Distinct r l h.1 d.1)
  | inr f ↦ rw f (h, d)
]

pub stable_sort-Distinct : (l : List Rule) → Distinct l → Distinct (stable_sort l)
unfolding stable_sort
stable_sort-Distinct [] d = tt
stable_sort-Distinct (r ∷ l) d =
    insert-Distinct r (stable_sort l) (All-stable_sort_ne r.id l d.0) (stable_sort-Distinct l d.1)
