-- ===== src/Base/Dict.antt =====
-- `std::unordered_map` as an association list, with one entry for a key. The code relies on no
-- iteration order; a new key goes to the end here.
use fast_rules.Base.Tests.{some_injective, Bool-cases, if◌then◌else◌}
use fast_rules.Base.Classes.{Eq, ◌==◌, eq_iff}
use fast_rules.Base.Lists.{length, All}
use Prim.Native.Nat.{◌+◌, ◌≤◌}
use mathlib.Core.Path.{◌≡◌, refl, subst}
use mathlib.Core.Option.{Option, none, some}
use mathlib.Core.List.{List, [], ◌∷◌}
use mathlib.Core.Bool.{Bool, true, false}
use mathlib.Core.Logic.{◌⊎◌, inl, inr}
use native.Mathlib.Omega.{arith}

abbrev pub Dict {ℓ κ} : Type ℓ → Type κ → Type (ℓ ⊔ κ)
Dict K V = List (K × V)

entry_path {ℓ κ} :
    {K : Type ℓ} {V : Type κ} (k : K) (v : V) (key : K) (value : V)
    → k ≡ key
    → v ≡ value
    → ◌≡◌ {A = K × V} (k, v) (key, value)
entry_path k v key value e f i = (e i, f i)

module _ {ℓ κ} {K : Type ℓ} {V : Type κ} ⦃c : Eq K⦄ where
  unfoldable pub lookup : (key : K) (d : Dict K V) → Option V
  lookup key [] = none
  lookup key (entry ∷ d) = if entry.0 == key then some entry.1 else lookup key d

  unfoldable pub insert : (key : K) (value : V) (d : Dict K V) → Dict K V
  insert key value [] = (key, value) ∷ []
  insert key value (entry ∷ d) =
      if entry.0 == key then (key, value) ∷ d else entry ∷ insert key value d

  unfoldable pub erase : (key : K) (d : Dict K V) → Dict K V
  erase key [] = []
  erase key (entry ∷ d) = if entry.0 == key then erase key d else entry ∷ erase key d

  pub lookup-insert :
      (key other : K) (value : V) (d : Dict K V)
      → lookup other (insert key value d) ≡ (if key == other then some value else lookup other d)
  unfolding lookup insert
  lookup-insert key other value [] = refl
  lookup-insert key other value (entry ∷ d) = ground (
    arith,
    lookup-insert key other value d,
    eq_iff entry.0 key,
    eq_iff entry.0 other,
    eq_iff key other,
  )

  pub lookup-insert_self :
      (key : K) (value : V) (d : Dict K V) → lookup key (insert key value d) ≡ some value
  lookup-insert_self key value d = ground (arith, lookup-insert key key value d, eq_iff key key)

  pub lookup-erase :
      (key other : K) (d : Dict K V)
      → lookup other (erase key d) ≡ (if key == other then none else lookup other d)
  unfolding lookup erase
  lookup-erase key other [] = ground arith
  lookup-erase key other (entry ∷ d) =
      ground (
        arith,
        lookup-erase key other d,
        eq_iff entry.0 key,
        eq_iff entry.0 other,
        eq_iff key other,
      )

  pub length-insert-le :
      (key : K) (value : V) (d : Dict K V) → length (insert key value d) ≤ length d + 1
  unfolding insert
  length-insert-le key value [] = omega arith
  length-insert-le key value (entry ∷ d) = ground (arith, length-insert-le key value d)

  pick-All {μ} :
      (P : K × V → Type μ) (b : Bool) (x y : Dict K V)
      → All P x
      → All P y
      → All P (if b then x else y)
  pick-All P true x y hx hy = hx
  pick-All P false x y hx hy = hy

  -- What holds of all entries.
  pub All-insert {μ} :
      (P : K × V → Type μ) (key : K) (value : V) (d : Dict K V)
      → All P d
      → P (key, value)
      → All P (insert key value d)
  unfolding insert
  All-insert P key value [] h p = (p, tt)
  All-insert P key value (entry ∷ d) h p =
      pick-All P (entry.0 == key) ((key, value) ∷ d) (entry ∷ insert key value d) (p, h.1)
        (h.0, All-insert P key value d h.1 p)

  found_or_later :
      (key : K) (value : V) (entry : K × V) (d : Dict K V)
      → lookup key (entry ∷ d) ≡ some value
      → (◌≡◌ {A = K × V} entry (key, value)) ⊎ (lookup key d ≡ some value)
  unfolding lookup
  found_or_later key value (k, v) d e = elim (Bool-cases (k == key)) [
    | inl t ↦ inl (entry_path k v key value ((eq_iff k key).0 t) (some_injective (rw t at e)))
    | inr f ↦ inr (rw f at e)
  ]

  pub All-lookup {μ} :
      (P : K × V → Type μ) (key : K) (value : V) (d : Dict K V)
      → All P d
      → lookup key d ≡ some value
      → P (key, value)
  unfolding lookup
  All-lookup P key value [] h e = absurd (ground arith)
  All-lookup P key value (entry ∷ d) h e = elim (found_or_later key value entry d e) [
    | inl same ↦ subst P same h.0
    | inr later ↦ All-lookup P key value d h.1 later
  ]
