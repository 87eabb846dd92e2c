-- ===== src/Json/Items.antt =====
-- The items of a JSON repository by their ids.
use fast_rules.Base.{
  ◌≡◌, refl, sym, inl, inr, List, [], ◌∷◌, Bool, false, not, Option, none, some, if◌then◌else◌,
  ◌==◌, eq_iff, any, keep, find, All, Bool-cases, arith,
}
use fast_rules.Base.Int.{ℤ, ℤ_eq}
use fast_rules.Base.Text.{codes}
use fast_rules.Json.{JsonLibrary}
use fast_rules.Json.Repository.{Repository, field, has_id, replace, upsert, remove, flush}

module _ (library : JsonLibrary) where
  open library use {Value, from_int, same_ints}

  -- Every item has an `int` as its id.
  abbrev pub IsIndexed : List Value → Type 0
  IsIndexed items = All (λ j. (n : ℤ) × (field library (codes "id") j ≡ some (from_int n))) items

  abbrev pub at_id : ℤ → List Value → Option Value
  at_id k items = find (has_id library (from_int k)) items

  has_id-eq :
      (j : Value) (n k : ℤ)
      → field library (codes "id") j ≡ some (from_int n)
      → has_id library (from_int k) j ≡ (n == k)
  has_id-eq j n k e = rw (e, has_id) (same_ints n k)

  pub at_id-replace :
      (k n : ℤ) (item : Value) (items : List Value)
      → field library (codes "id") item ≡ some (from_int n)
      → IsIndexed items
      → at_id k (replace library (from_int n) item items)
        ≡ (if n == k then some item else at_id k items)
  unfolding replace
  at_id-replace k n item [] e i = ground (arith, has_id-eq item n k e)
  at_id-replace k n item (j ∷ items) e ((m, f), i) = ground (
    arith,
    has_id-eq item n k e,
    has_id-eq j m k f,
    has_id-eq j m n f,
    at_id-replace k n item items e i,
    eq_iff m n,
    eq_iff m k,
    eq_iff n k,
  )

  pub replace-IsIndexed :
      (n : ℤ) (item : Value) (items : List Value)
      → field library (codes "id") item ≡ some (from_int n)
      → IsIndexed items
      → IsIndexed (replace library (from_int n) item items)
  unfolding replace
  replace-IsIndexed n item [] e i = ((n, e), tt)
  replace-IsIndexed n item (j ∷ items) e (h, i) =
      elim (Bool-cases (has_id library (from_int n) j)) [
        | inl t ↦ rw t ((n, e), i)
        | inr f ↦ rw f (h, replace-IsIndexed n item items e i)
      ]

  pub at_id-remove :
      (k n : ℤ) (items : List Value)
      → IsIndexed items
      → at_id k (keep (λ j. not (has_id library (from_int n) j)) items)
        ≡ (if n == k then none else at_id k items)
  at_id-remove k n [] i = ground arith
  at_id-remove k n (j ∷ items) ((m, f), i) = ground (
    arith,
    has_id-eq j m k f,
    has_id-eq j m n f,
    at_id-remove k n items i,
    eq_iff m n,
    eq_iff m k,
    eq_iff n k,
  )

  pub upsert-replace :
      (id item : Value) (items : List Value)
      → field library (codes "id") item ≡ some id
      → upsert library item items ≡ replace library id item items
  unfolding upsert
  upsert-replace id item items e = rw (e, upsert) refl

  pub keep-IsIndexed :
      (p : Value → Bool) (items : List Value) → IsIndexed items → IsIndexed (keep p items)
  keep-IsIndexed p [] i = tt
  keep-IsIndexed p (j ∷ items) i = elim (Bool-cases (p j)) [
    | inl t ↦ rw t (i.0, keep-IsIndexed p items i.1)
    | inr f ↦ rw f (keep-IsIndexed p items i.1)
  ]

  absent :
      (p : Value → Bool) (items : List Value)
      → any p items ≡ false
      → keep (λ j. not (p j)) items ≡ items
  absent p [] h = refl
  absent p (j ∷ items) h = ground (arith, absent p items)

  -- Where no item has the id, removing it changes no item.
  pub remove-items :
      (n : ℤ) (s : Repository library)
      → (remove library n s).items ≡ keep (λ j. not (has_id library (from_int n) j)) s.items
  unfolding remove
  remove-items n s = elim (Bool-cases (any (has_id library (from_int n)) s.items)) [
    | inl t ↦ rw t
    | inr f ↦ rw f (sym (absent (has_id library (from_int n)) s.items f))
  ]

  pub flush-items : (b : Bool) (s : Repository library) → (flush library b s).0.items ≡ s.items
  unfolding flush
  flush-items b s = ground arith
