-- ===== src/Queue/Range.antt =====
-- The items of a circular buffer from a position on.
use Prim.Native.Nat.{bit_and}
use fast_rules.Base.{
  ℕ, zero, suc, ◌+◌, ◌-◌, ◌*◌, ◌≤◌, ◌<◌, ◌≡◌, refl, subst, sym, ap, ◌∙◌, List, [], ◌∷◌, ◌++◌, arith,
  length,
}
use fast_rules.Queue.{nth, store, replicate, split_last, copy_items}
use fast_rules.Queue.Mask.{ones, power, ones-power, bit_and-ones-lt, bit_and-ones-ne}

module _ {T : Type 0} (initial : T) where
  abbrev pub range : List T → ℕ → ℕ → ℕ → List T
  range b mask h zero = []
  range b mask h (suc n) = nth initial b (bit_and h mask) ∷ range b mask (suc h) n

  nth-store_same : (i : ℕ) (x : T) (b : List T) → i < length b → nth initial (store i x b) i ≡ x
  nth-store_same i x [] h = absurd (omega arith)
  nth-store_same zero x (y ∷ b) h = refl
  nth-store_same (suc i) x (y ∷ b) h = nth-store_same i x b (omega arith)

  nth-store_other :
      (i j : ℕ) (x : T) (b : List T) → ¬ (i ≡ j) → nth initial (store i x b) j ≡ nth initial b j
  nth-store_other i j x [] h = refl
  nth-store_other zero zero x (y ∷ b) h = absurd (h refl)
  nth-store_other zero (suc j) x (y ∷ b) h = refl
  nth-store_other (suc i) zero x (y ∷ b) h = refl
  nth-store_other (suc i) (suc j) x (y ∷ b) h = nth-store_other i j x b (λ e. h (ap suc e))

  pub length-store : (i : ℕ) (x : T) (b : List T) → length (store i x b) ≡ length b
  length-store i x [] = refl
  length-store zero x (y ∷ b) = refl
  length-store (suc i) x (y ∷ b) = ap suc (length-store i x b)

  pub length-replicate : (n : ℕ) → length (replicate n initial) ≡ n
  length-replicate zero = refl
  length-replicate (suc n) = ap suc (length-replicate n)

  -- An item is stored at a position behind the range, less than a buffer away from its start.
  pub range-store :
      (k : ℕ) (b : List T) (x : T) (t h n : ℕ)
      → h + n ≤ t
      → t < h + power k
      → range (store (bit_and t (ones k)) x b) (ones k) h n ≡ range b (ones k) h n
  range-store k b x t h zero le near = refl
  range-store k b x t h (suc n) le near =
      rw
        (
          nth-store_other (bit_and t (ones k)) (bit_and h (ones k)) x b
              (λ e. bit_and-ones-ne k h t (omega arith) near (sym e)),
          range-store k b x t (suc h) n (omega arith) (omega arith),
        )
        refl

  pub range-snoc :
      (b : List T) (mask h n : ℕ)
      → range b mask h (suc n) ≡ range b mask h n ++ nth initial b (bit_and (h + n) mask) ∷ []
  range-snoc b mask h zero =
      let e : h ≡ h + 0 = omega arith in ap (λ i. nth initial b (bit_and i mask) ∷ []) e
  range-snoc b mask h (suc n) =
      let e : suc h + n ≡ h + suc n = omega arith in
      ap (◌∷◌ (nth initial b (bit_and h mask))) (
        range-snoc b mask (suc h) n
        ∙ ap (λ i. range b mask (suc h) n ++ nth initial b (bit_and i mask) ∷ []) e)

  -- Storing an item directly behind a range makes the range longer.
  pub range-store_next :
      (k : ℕ) (b : List T) (x : T) (h n : ℕ)
      → length b ≡ power k
      → n < power k
      → range (store (bit_and (h + n) (ones k)) x b) (ones k) h (suc n)
        ≡ range b (ones k) h n ++ x ∷ []
  range-store_next k b x h n size room =
      let i = bit_and (h + n) (ones k) in
      range-snoc (store i x b) (ones k) h n
      ∙ rw
          (
            range-store k b x (h + n) h n (omega arith) (omega (arith, room)),
            nth-store_same i x b (omega (arith, bit_and-ones-lt (h + n) k, size)),
          )
          refl

  pub split_last-range :
      (b : List T) (mask h n : ℕ)
      → split_last (nth initial b (bit_and h mask)) (range b mask (suc h) n)
        ≡ (nth initial b (bit_and (h + n) mask), range b mask h n)
  split_last-range b mask h zero =
      let e : h ≡ h + 0 = omega arith in ap (λ i. (nth initial b (bit_and i mask), [])) e
  split_last-range b mask h (suc n) =
      let e : suc h + n ≡ h + suc n = omega arith in
      ap (λ r. (r.0, nth initial b (bit_and h mask) ∷ r.1)) (split_last-range b mask (suc h) n)
      ∙ ap (λ i. (nth initial b (bit_and i mask), range b mask h (suc n))) e

  -- One round of the copying loop, with the masks written as they are computed.
  copy_step :
      (k : ℕ) (old new : List T) (i : ℕ)
      → store (bit_and i (power k * 2 - 1)) (nth initial old (bit_and i (power k - 1))) new
        ≡ store (bit_and i (ones (suc k))) (nth initial old (bit_and i (ones k))) new
  copy_step k old new i =
      let wide : power k * 2 - 1 ≡ ones (suc k) = omega (arith, ones-power k) in
      let narrow : power k - 1 ≡ ones k = omega (arith, ones-power k) in
      ap (λ m. store (bit_and i m) (nth initial old (bit_and i (power k - 1))) new) wide
      ∙ ap (λ m. store (bit_and i (ones (suc k))) (nth initial old (bit_and i m)) new) narrow

  -- The loop keeps what it has copied, the items at the first `done` positions from `h` on.
  pub copy_items-range :
      (k : ℕ) (old : List T) (h count : ℕ) (new : List T) (done total : ℕ)
      → length new ≡ power (suc k)
      → total ≡ done + count
      → total ≤ power k
      → range new (ones (suc k)) h done ≡ range old (ones k) h done
      → (length (copy_items initial old (power k) count (h + done) new) ≡ power (suc k))
        × (range (copy_items initial old (power k) count (h + done) new) (ones (suc k)) h total
            ≡ range old (ones k) h total)
  unfolding copy_items
  copy_items-range k old h zero new done total size t fits e =
      let same : done ≡ total = omega (arith, t) in
      (size, subst (λ n. range new (ones (suc k)) h n ≡ range old (ones k) h n) same e)
  copy_items-range k old h (suc count) new done total size t fits e =
      let x = nth initial old (bit_and (h + done) (ones k)) in
      let new' = store (bit_and (h + done) (ones (suc k))) x new in
      let longer : range new' (ones (suc k)) h (suc done) ≡ range old (ones k) h (suc done) =
        range-store_next (suc k) new x h done size (omega (arith, t, fits))
        ∙ ap (λ xs. xs ++ x ∷ []) e
        ∙ sym (range-snoc old (ones k) h done) in
      let next : h + suc done ≡ suc (h + done) = omega arith in
      rw (copy_step k old new (h + done), ← next)
        (copy_items-range k old h count new' (suc done) total
          (length-store (bit_and (h + done) (ones (suc k))) x new ∙ size) (omega (arith, t)) fits
          longer)
