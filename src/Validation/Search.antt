-- ===== src/Validation/Search.antt =====
-- The search finds a cycle exactly where there is one, and it ends.
use mathlib.Core.WellFounded.{Acc}
use fast_rules.Base.{
  ℕ, zero, suc, ◌≤◌, ◌≡◌, refl, sym, subst, ◌⊎◌, inl, inr, List, [], ◌∷◌, ◌++◌, Bool, true, false,
  none, some, ◌==◌, eq_iff, Has, here, there, arith, Bool-cases, some_injective,
}
use fast_rules.Base.Int.{ℤ, ℤ_eq}
use fast_rules.Base.Dict.{lookup, insert, lookup-insert, lookup-insert_self}
use fast_rules.Validation.{
  Color, white, gray, black, Colors, Outcome, and_then, cycle, finished, out_of_fuel, colored, scan,
  dfs,
}
use fast_rules.Validation.Graph.{Edge, Leads, one, more, Closed, Grounded}
use fast_rules.Validation.Painting.{
  whites, whites-visit, whites-blacken, Grows, Grows-trans, Grows-around, stays_black, stays_gray,
  color-cases,
}

module _ (next : ℤ → List ℤ) (is_node : ℤ → Bool) where
  -- Every known rule has a colour, and from a black one every walk ends.
  pub record Inv (c : Colors) : Type 0 where
    pub known : (y : ℤ) → lookup y c ≡ none → is_node y ≡ false
    pub real : (y : ℤ) (k : Color) → lookup y c ≡ some k → is_node y ≡ true
    pub done : (y : ℤ) → lookup y c ≡ some black → Grounded next is_node y

  -- The gray rules lead to the rule `n`.
  abbrev Trail : Colors → ℤ → Type 0
  Trail c n = (g : ℤ) → lookup g c ≡ some gray → (g ≡ n) ⊎ Leads next is_node g n

  -- Where a search from `n` ends that starts with the colours `c`.
  abbrev pub Visited : Colors → (Colors → Type 0) → Outcome → Type 0
  Visited c P (cycle path m) = Closed next is_node
  Visited c P (finished d) = Inv d × Grows c d × (whites d ≤ whites c) × P d
  Visited c P out_of_fuel = ⊥

  pub Visited-from :
      (c d : Colors) (P Q : Colors → Type 0) (r : Outcome)
      → Grows c d
      → whites d ≤ whites c
      → ((e : Colors) → Grows d e → P e → Q e)
      → Visited d P r
      → Visited c Q r
  Visited-from c d P Q (cycle path m) g w h v = v
  Visited-from c d P Q (finished e) g w h v =
      let fewer = v.2 in (v.0, Grows-trans c d e g v.1, omega arith, h e v.1 v.3)
  Visited-from c d P Q out_of_fuel g w h v = v

  pub Visited-and_then :
      (c : Colors) (P Q : Colors → Type 0) (r : Outcome) (k : Colors → Outcome)
      → Visited c P r
      → ((d : Colors) → Inv d → Grows c d → whites d ≤ whites c → P d → Visited c Q (k d))
      → Visited c Q (and_then r k)
  Visited-and_then c P Q (cycle path m) k v h = v
  Visited-and_then c P Q (finished d) k v h = h d v.0 v.1 v.2 v.3
  Visited-and_then c P Q out_of_fuel k v h = v

  abbrev pub Blackens : List ℤ → Colors → Type 0
  Blackens ns d = (y : ℤ) → Has y ns → is_node y ≡ true → lookup y d ≡ some black

  pub Blackens-cons :
      (m : ℤ) (ns : List ℤ) (d : Colors)
      → (is_node m ≡ true → lookup m d ≡ some black)
      → Blackens ns d
      → Blackens (m ∷ ns) d
  Blackens-cons m ns d b h y here t = b t
  Blackens-cons m ns d b h y (there i) t = h y i t

  closed :
      {n : ℤ} (m : ℤ)
      → (m ≡ n) ⊎ Leads next is_node m n
      → Edge next is_node n m
      → Closed next is_node
  closed {n} m (inl e) edge = (n, one (subst (λ k. Edge next is_node n k) e edge))
  closed m (inr l) edge = (m, more l edge)

  onward :
      (g n m : ℤ)
      → (g ≡ n) ⊎ Leads next is_node g n
      → Edge next is_node n m
      → Leads next is_node g m
  onward g n m (inl e) edge = one (subst (λ k. Edge next is_node k m) (sym e) edge)
  onward g n m (inr l) edge = more l edge

  -- A rule that is passed over.
  pub skipped :
      (m : ℤ) (ns : List ℤ) (c : Colors) (r : Outcome)
      → ((d : Colors) → Grows c d → is_node m ≡ true → lookup m d ≡ some black)
      → Visited c (Blackens ns) r
      → Visited c (Blackens (m ∷ ns)) r
  skipped m ns c r h v =
      Visited-from c c (Blackens ns) (Blackens (m ∷ ns)) r (λ y. inl refl) (omega arith)
        (λ d g b. Blackens-cons m ns d (h d g) b) v

  module _ (fuel : ℕ) (n : ℤ) (stack : List ℤ) (visit : Colors → ℤ → Outcome)
      (visits : (c : Colors) (m : ℤ)
        → Inv c
        → Trail c n
        → Edge next is_node n m
        → lookup m c ≡ some white
        → whites c ≤ fuel
        → Visited c (λ d. lookup m d ≡ some black) (visit c m)) where
    scan-Visited :
        (ns : List ℤ) (c : Colors)
        → ((y : ℤ) → Has y ns → Has y (next n))
        → Inv c
        → Trail c n
        → whites c ≤ fuel
        → Visited c (Blackens ns) (scan visit stack ns c)
    unfolding scan
    scan-Visited [] c sub i t w = (i, λ y. inl refl, omega arith, λ y h. elim h [ ])
    scan-Visited (m ∷ ns) c sub i t w =
        let rest = λ (y : ℤ) (h : Has y ns). sub y (there h) in
        elim (color-cases (lookup m c)) [
          | inl e ↦
              rw (e, scan)
                (skipped m ns c (scan visit stack ns c) (λ d g t'. absurd (cc (i.known m e, t')))
                  (scan-Visited ns c rest i t w))
          | inr (inl e) ↦
              let edge : Edge next is_node n m = (sub m here, i.real m white e) in
              rw (e, scan)
                (Visited-and_then c (λ d. lookup m d ≡ some black) (Blackens (m ∷ ns)) (visit c m)
                  (scan visit stack ns) (visits c m i t edge e w)
                  (λ d j g less b.
                    Visited-from c d (Blackens ns) (Blackens (m ∷ ns)) (scan visit stack ns d) g
                      less (λ d' g' h. Blackens-cons m ns d' (λ t'. stays_black m d d' g' b) h)
                      (scan-Visited ns d rest j (λ y h. t y (stays_gray y c d g h)) (omega arith))))
          | inr (inr (inl e)) ↦ rw (e, scan) (closed m (t m e) (sub m here, i.real m gray e))
          | inr (inr (inr e)) ↦
              rw (e, scan)
                (skipped m ns c (scan visit stack ns c) (λ d g t'. stays_black m c d g e)
                  (scan-Visited ns c rest i t w))
        ]

  paint-Inv :
      (n : ℤ) (color : Color) (c : Colors)
      → is_node n ≡ true
      → (color ≡ black → Grounded next is_node n)
      → Inv c
      → Inv (insert n color c)
  paint-Inv n color c real ends i = record {
    known = λ y h. elim (Bool-cases (n == y)) [
      | inl f ↦ absurd (cc (h, lookup-insert n y color c, f))
      | inr f ↦ i.known y (rw (lookup-insert n y color c, f) at h)
    ];
    real = λ y k h. elim (Bool-cases (n == y)) [
      | inl f ↦ subst (λ u. is_node u ≡ true) ((eq_iff n y).0 f) real
      | inr f ↦ i.real y k (rw (lookup-insert n y color c, f) at h)
    ];
    done = λ y h. elim (Bool-cases (n == y)) [
      | inl f ↦
          subst (Grounded next is_node) ((eq_iff n y).0 f)
            (ends (some_injective (rw (lookup-insert n y color c, f) at h)))
      | inr f ↦ i.done y (rw (lookup-insert n y color c, f) at h)
    ];
  }

  colored-Visited :
      (n : ℤ) (c : Colors) (r : Outcome)
      → lookup n c ≡ some white
      → Inv c
      → Visited (insert n gray c) (Blackens (next n)) r
      → Visited c (λ d. lookup n d ≡ some black) (colored black n r)
  colored-Visited n c (cycle path m) e i v = v
  colored-Visited n c (finished d) e i v =
      let (j, g, less, all_black) = v in
      let ends = Acc.intro n (λ y edge. j.done y (all_black y edge.0 edge.1)) in
      (
        paint-Inv n black d (i.real n white e) (λ _. ends) j,
        Grows-around n c d e g,
        omega (arith, whites-visit n c e, whites-blacken n d),
        lookup-insert_self n black d,
      )
  colored-Visited n c out_of_fuel e i v = v

  pub dfs-Visited :
      (fuel : ℕ) (stack : List ℤ) (c : Colors) (n : ℤ)
      → Inv c
      → ((g : ℤ) → lookup g c ≡ some gray → Leads next is_node g n)
      → lookup n c ≡ some white
      → whites c ≤ fuel
      → Visited c (λ d. lookup n d ≡ some black) (dfs next fuel stack c n)
  unfolding dfs
  dfs-Visited zero stack c n i t e w = absurd (omega (arith, whites-visit n c e))
  dfs-Visited (suc fuel) stack c n i t e w =
      let path = stack ++ n ∷ [] in
      colored-Visited n c (scan (dfs next fuel path) path (next n) (insert n gray c)) e i (
        scan-Visited fuel n path (dfs next fuel path)
          (λ d m j trail edge e' w'.
            dfs-Visited fuel path d m j (λ g h. onward g n m (trail g h) edge) e' w')
          (next n) (insert n gray c) (λ y h. h)
          (paint-Inv n gray c (i.real n white e) (λ h. absurd (ground arith)) i)
          (λ g h. elim (Bool-cases (n == g)) [
            | inl f ↦ inl (sym ((eq_iff n g).0 f))
            | inr f ↦ inr (t g (rw (lookup-insert n g gray c, f) at h))
          ])
          (omega (arith, whites-visit n c e)))
