-- ===== src/Dependency/Ends.antt =====
-- The loops end: the fuel is enough.
use fast_rules.Base.{
  ℕ, zero, suc, ◌+◌, ◌≤◌, ◌<◌, ◌≡◌, refl, List, [], ◌∷◌, Bool, true, false, none, some, arith,
  if◌then◌else◌, ◌==◌, length, inl, inr, Bool-cases, Option-cases, eq_iff,
}
use fast_rules.Base.Int.{ℤ, pos, ℤ_eq}
use fast_rules.Base.Dict.{Dict, lookup, insert, length-insert-le}
use fast_rules.Base.Text.{Text, Text_eq}
use fast_rules.Rule.{Info}
use fast_rules.Dependency.{
  rule_map, name_to_id, dependency_id, next_id, is_visited, circular_loop, chain_loop, fuel_for,
  has_circular_dependency, get_dependency_chain,
}

-- How many entries have a key that is not visited.
abbrev pub unvisited : List ℤ → Dict ℤ Info → ℕ
unvisited visited [] = 0
unvisited visited (entry ∷ d) =
    if is_visited entry.0 visited then unvisited visited d else suc (unvisited visited d)

pub unvisited-le :
    (c : ℤ) (visited : List ℤ) (d : Dict ℤ Info) → unvisited (c ∷ visited) d ≤ unvisited visited d
unvisited-le c visited [] = omega arith
unvisited-le c visited (entry ∷ d) = ground (arith, unvisited-le c visited d)

-- A visit of a rule of the map leaves fewer.
pub unvisited-lt :
    (c : ℤ) (r : Info) (visited : List ℤ) (d : Dict ℤ Info)
    → lookup c d ≡ some r
    → is_visited c visited ≡ false
    → unvisited (c ∷ visited) d < unvisited visited d
unfolding lookup
unvisited-lt c r visited [] found new = absurd (ground arith)
unvisited-lt c r visited (entry ∷ d) found new = ground (
  arith,
  unvisited-lt c r visited d,
  unvisited-le c visited d,
  eq_iff entry.0 c,
  eq_iff c entry.0,
)

pub unvisited-length : (d : Dict ℤ Info) → unvisited [] d ≤ length d
unvisited-length [] = omega arith
unvisited-length (entry ∷ d) = ground (arith, unvisited-length d)

pub length-rule_map :
    (rs : List Info) (d : Dict ℤ Info) → length (rule_map rs d) ≤ length d + length rs
unfolding rule_map
length-rule_map [] d = omega arith
length-rule_map (r ∷ rs) d =
    omega (arith, length-rule_map rs (insert r.id r d), length-insert-le r.id r d)

module _ (rules : Dict ℤ Info) (ids : Dict Text ℤ) where
  -- A step leads on only from a rule of the map.
  pub next_id-found :
      (c other : ℤ) → next_id rules ids c ≡ some other → (r : Info) × (lookup c rules ≡ some r)
  unfolding next_id
  next_id-found c other e = elim (Option-cases (lookup c rules)) [
    | inl none_there ↦ absurd (missing other (rw none_there at e))
    | inr found ↦ found
  ]
    where
      missing : (other : ℤ) → ¬ (none ≡ some other)
      missing other h = ground arith

  fewer :
      (fuel : ℕ) (visited : List ℤ) (c other : ℤ)
      → unvisited visited rules < suc fuel
      → is_visited c visited ≡ false
      → next_id rules ids c ≡ some other
      → unvisited (c ∷ visited) rules < fuel
  fewer fuel visited c other enough new e =
      let found = next_id-found c other e in
      omega (arith, unvisited-lt c found.0 visited rules found.1 new, enough)

  circular_loop-ends :
      (id : ℤ) (fuel : ℕ) (visited : List ℤ) (c : ℤ)
      → unvisited visited rules < fuel
      → (b : Bool) × (circular_loop (next_id rules ids) id fuel visited c ≡ some b)
  unfolding circular_loop
  circular_loop-ends id zero visited c enough = absurd (omega arith)
  circular_loop-ends id (suc fuel) visited c enough = elim (Bool-cases (c == pos 0)) [
    | inl e ↦ (false, rw (circular_loop, e) refl)
    | inr f₁ ↦ elim (Bool-cases (c == id)) [
      | inl e ↦ (true, rw (circular_loop, f₁, e) refl)
      | inr f₂ ↦ elim (Bool-cases (is_visited c visited)) [
        | inl e ↦ (true, rw (circular_loop, f₁, f₂, e) refl)
        | inr f₃ ↦ elim (Option-cases (next_id rules ids c)) [
          | inl e ↦ (false, rw (circular_loop, f₁, f₂, f₃, e) refl)
          | inr (other, e) ↦
              let rest =
                circular_loop-ends id fuel (c ∷ visited) other
                  (fewer fuel visited c other enough f₃ e) in
              (rest.0, rw (circular_loop, f₁, f₂, f₃, e) rest.1)
        ]
      ]
    ]
  ]

  chain_loop-ends :
      (fuel : ℕ) (visited : List ℤ) (c : ℤ)
      → unvisited visited rules < fuel
      → (chain : List ℤ) × (chain_loop (next_id rules ids) fuel visited c ≡ some chain)
  unfolding chain_loop
  chain_loop-ends zero visited c enough = absurd (omega arith)
  chain_loop-ends (suc fuel) visited c enough = elim (Bool-cases (c == pos 0)) [
    | inl e ↦ ([], rw (chain_loop, e) refl)
    | inr f₁ ↦ elim (Bool-cases (is_visited c visited)) [
      | inl e ↦ (c ∷ [], rw (chain_loop, f₁, e) refl)
      | inr f₂ ↦ elim (Option-cases (next_id rules ids c)) [
        | inl e ↦ (c ∷ [], rw (chain_loop, f₁, f₂, e) refl)
        | inr (other, e) ↦
            let rest =
              chain_loop-ends fuel (c ∷ visited) other (fewer fuel visited c other enough f₂ e) in
            (c ∷ rest.0, rw (chain_loop, f₁, f₂, e, rest.1) refl)
      ]
    ]
  ]

start_fuel : (rules : List Info) → unvisited [] (rule_map rules []) < fuel_for rules
start_fuel rules = omega (arith, unvisited-length (rule_map rules []), length-rule_map rules [])

pub has_circular_dependency-ends :
    (r : Info) (rules : List Info) → (b : Bool) × (has_circular_dependency r rules ≡ some b)
unfolding has_circular_dependency
has_circular_dependency-ends r rules =
    elim (Option-cases (dependency_id (name_to_id rules []) (some r))) [
      | inl e ↦ (false, rw (has_circular_dependency, e) refl)
      | inr (c, e) ↦
          let loop =
            circular_loop-ends (rule_map rules []) (name_to_id rules []) r.id (fuel_for rules) [] c
              (start_fuel rules) in
          (loop.0, rw (has_circular_dependency, e) loop.1)
    ]

pub get_dependency_chain-ends :
    (r : Info) (rules : List Info) → (chain : List ℤ) × (get_dependency_chain r rules ≡ some chain)
unfolding get_dependency_chain
get_dependency_chain-ends r rules =
    elim (Option-cases (dependency_id (name_to_id rules []) (some r))) [
      | inl e ↦ (r.id ∷ [], rw (get_dependency_chain, e) refl)
      | inr (c, e) ↦
          let loop =
            chain_loop-ends (rule_map rules []) (name_to_id rules []) (fuel_for rules) [] c
              (start_fuel rules) in
          (r.id ∷ loop.0, rw (get_dependency_chain, e, loop.1) refl)
    ]

-- Both questions end, for any rules, also for rules that depend on each other in a circle.
pub dependency_ends :
    (r : Info) (rules : List Info)
    → ((b : Bool) × (has_circular_dependency r rules ≡ some b))
      × (chain : List ℤ) × (get_dependency_chain r rules ≡ some chain)
dependency_ends r rules =
    let chain = get_dependency_chain-ends r rules in
    (has_circular_dependency-ends r rules, chain.0, chain.1)
