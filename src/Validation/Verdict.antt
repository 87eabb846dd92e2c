-- ===== src/Validation/Verdict.antt =====
-- What the search of a validation finds.
use fast_rules.Base.{
  ℕ, suc, ◌≤◌, ◌≡◌, ◌≢◌, refl, subst, inl, inr, ◌↔◌, List, [], ◌∷◌, Bool, true, false, Option, none,
  some, ◌==◌, eq_iff, length, Has, here, there, arith, Bool-cases, Option-cases,
}
use fast_rules.Base.Int.{ℤ, ℤ_eq}
use fast_rules.Base.Dict.{lookup}
use fast_rules.Validation.{
  Color, white, gray, black, Colors, Outcome, cycle, finished, out_of_fuel, dfs, search_all, search,
  keys,
}
use fast_rules.Validation.Graph.{Closed, Grounded, Grounded-open, last-node}
use fast_rules.Validation.Painting.{whites, stays_black, stays_gray, color-cases}
use fast_rules.Validation.Search.{
  Inv, Visited, Visited-from, Visited-and_then, Blackens, Blackens-cons, skipped, dfs-Visited,
}

abbrev is_some {ℓ} : {A : Type ℓ} → Option A → Bool
is_some none = false
is_some (some a) = true

-- The rules that have a colour.
abbrev pub is_known : Colors → ℤ → Bool
is_known c y = is_some (lookup y c)

module _ (next : ℤ → List ℤ) (is_node : ℤ → Bool) where
  search_all-Visited :
      (fuel : ℕ) (ns : List ℤ) (c : Colors)
      → Inv next is_node c
      → ((g : ℤ) → lookup g c ≢ some gray)
      → whites c ≤ fuel
      → Visited next is_node c (Blackens next is_node ns) (search_all next fuel ns c)
  unfolding search_all
  search_all-Visited fuel [] c i t w = (i, λ y. inl refl, omega arith, λ y h. elim h [ ])
  search_all-Visited fuel (m ∷ ns) c i t w = elim (color-cases (lookup m c)) [
    | inl e ↦
        rw (e, search_all)
          (skipped next is_node m ns c (search_all next fuel ns c)
            (λ d g t'. absurd (cc (i.known m e, t'))) (search_all-Visited fuel ns c i t w))
    | inr (inl e) ↦
        rw (e, search_all)
          (Visited-and_then next is_node c (λ d. lookup m d ≡ some black)
            (Blackens next is_node (m ∷ ns)) (dfs next fuel [] c m) (search_all next fuel ns)
            (dfs-Visited next is_node fuel [] c m i (λ g h. absurd (t g h)) e w)
            (λ d j g less b.
              Visited-from next is_node c d (Blackens next is_node ns)
                (Blackens next is_node (m ∷ ns)) (search_all next fuel ns d) g less
                (λ d' g' h. Blackens-cons next is_node m ns d' (λ t'. stays_black m d d' g' b) h)
                (search_all-Visited fuel ns d j (λ y h. t y (stays_gray y c d g h)) (omega arith))))
    | inr (inr (inl e)) ↦ absurd (t m e)
    | inr (inr (inr e)) ↦
        rw (e, search_all)
          (skipped next is_node m ns c (search_all next fuel ns c) (λ d g t'. stays_black m c d g e)
            (search_all-Visited fuel ns c i t w))
  ]

-- All rules are white before the search.
abbrev pub IsFresh : Colors → Type 0
IsFresh [] = Unit {0}
IsFresh (entry ∷ d) = (entry.1 ≡ white) × IsFresh d

fresh-lookup : (y : ℤ) (k : Color) (c : Colors) → IsFresh c → lookup y c ≡ some k → k ≡ white
unfolding lookup
fresh-lookup y k [] f e = absurd (ground arith)
fresh-lookup y k (entry ∷ c) f e = ground (arith, fresh-lookup y k c)

whites-le : (c : Colors) → whites c ≤ length c
whites-le [] = omega arith
whites-le ((k, white) ∷ c) = omega (arith, whites-le c)
whites-le ((k, gray) ∷ c) = omega (arith, whites-le c)
whites-le ((k, black) ∷ c) = omega (arith, whites-le c)

key-Has : (y : ℤ) (k : Color) (c : Colors) → lookup y c ≡ some k → Has y (keys c)
unfolding lookup
key-Has y k [] h = absurd (ground arith)
key-Has y k (entry ∷ c) h = elim (Bool-cases (entry.0 == y)) [
  | inl e ↦ subst (λ u. Has u (entry.0 ∷ keys c)) ((eq_iff entry.0 y).0 e) here
  | inr f ↦ there (key-Has y k c (rw f at h))
]

is_known-some : (c : Colors) (y : ℤ) (k : Color) → lookup y c ≡ some k → is_known c y ≡ true
is_known-some c y k e = rw e

known-color : (c : Colors) (y : ℤ) → is_known c y ≡ true → (k : Color) × (lookup y c ≡ some k)
known-color c y h = elim (Option-cases (lookup y c)) [
  | inl e ↦ absurd (cc (rw e at h))
  | inr found ↦ found
]

fresh-Inv : (next : ℤ → List ℤ) (c : Colors) → IsFresh c → Inv next (is_known c) c
fresh-Inv next c f = record {
  known = λ y e. rw e;
  real = λ y k e. is_known-some c y k e;
  done = λ y e. absurd (white_black (fresh-lookup y black c f e));
}
  where
    white_black : black ≢ white
    white_black h = ground arith

search-Visited :
    (next : ℤ → List ℤ) (c : Colors)
    → IsFresh c
    → Visited next (is_known c) c (Blackens next (is_known c) (keys c)) (search next c)
unfolding search
search-Visited next c f =
    search_all-Visited next (is_known c) (suc (length c)) (keys c) c (fresh-Inv next c f)
      (λ g e. gray_white (fresh-lookup g gray c f e)) (omega (arith, whites-le c))
  where
    gray_white : gray ≢ white
    gray_white h = ground arith

abbrev pub finds_cycle : Outcome → Bool
finds_cycle (cycle stack n) = true
finds_cycle (finished c) = false
finds_cycle out_of_fuel = false

-- Where the search ends with the colours of all rules, every walk between known rules ends.
pub finished-Grounded :
    (next : ℤ → List ℤ) (c d : Colors)
    → IsFresh c
    → search next c ≡ finished d
    → (x : ℤ) → is_known c x ≡ true
    → Grounded next (is_known c) x
finished-Grounded next c d f e x h =
    let v =
      subst (Visited next (is_known c) c (Blackens next (is_known c) (keys c))) e
        (search-Visited next c f) in
    let (k, found) = known-color c x h in v.0.done x (v.3 x (key-Has x k c found) h)

pub search-ne-out_of_fuel :
    (next : ℤ → List ℤ) (c : Colors) → IsFresh c → search next c ≢ out_of_fuel
search-ne-out_of_fuel next c f e =
    subst (Visited next (is_known c) c (Blackens next (is_known c) (keys c))) e
      (search-Visited next c f)

-- The search from all rules ends, and it finds a cycle exactly if a walk along the edges between the
-- known rules comes back to where it starts.
pub search_iff :
    (next : ℤ → List ℤ) (c : Colors)
    → IsFresh c
    → (search next c ≢ out_of_fuel)
      × ((finds_cycle (search next c) ≡ true) ↔ Closed next (is_known c))
search_iff next c f = (
  search-ne-out_of_fuel next c f,
  (λ h. found (search next c) h (search-Visited next c f), λ w. missed w (search next c) refl),
)
  where
    found :
        (r : Outcome)
        → finds_cycle r ≡ true
        → Visited next (is_known c) c (Blackens next (is_known c) (keys c)) r
        → Closed next (is_known c)
    found (cycle path n) h v = v
    found (finished d) h v = absurd (cc)
    found out_of_fuel h v = absurd v

    missed :
        Closed next (is_known c)
        → (r : Outcome) → search next c ≡ r
        → finds_cycle (search next c) ≡ true
    missed w (cycle path n) e = rw e
    missed w (finished d) e = absurd (
        Grounded-open next (is_known c)
          (finished-Grounded next c d f e w.0 (last-node next (is_known c) w.1)) w.1)
    missed w out_of_fuel e = absurd (search-ne-out_of_fuel next c f e)
