-- ===== src/Queue/Take.antt =====
-- A pop takes the last of the represented items, a steal the first.
use Prim.Native.Nat.{bit_and}
use fast_rules.Base.{
  suc, ◌+◌, ◌-◌, ◌≤◌, ◌<◌, ◌≡◌, refl, subst, sym, ap, ◌∙◌, inl, inr, List, [], Option, none, some,
  arith, leb, ltb, nat_eq, Bool-cases,
}
use fast_rules.Queue.{WorkStealingQueue, nth, pop_back, steal_front, pop, steal}
use fast_rules.Queue.Mask.{ones, ones-power}
use fast_rules.Queue.Range.{range, split_last-range}
use fast_rules.Queue.Layout.{Represents}

module _ {T : Type 0} (initial : T) where
  -- The last item of a queue that is not empty, and the items before it.
  pop_back-items :
      (q : WorkStealingQueue T) (items : List T) (r : Represents initial q items)
      → q.head < q.tail
      → pop_back items ≡ (
        some (nth initial q.buffer (bit_and (q.tail - 1) q.mask)),
        range initial q.buffer (ones r.bits) q.head (q.tail - 1 - q.head),
      )
  pop_back-items q items r lt =
      let k = r.bits in
      let n = q.tail - 1 - q.head in
      let count : q.tail - q.head ≡ suc n = omega (arith, lt) in
      let last : q.head + n ≡ q.tail - 1 = omega (arith, lt) in
      ap pop_back (sym r.content)
      ∙ ap (λ c. pop_back (range initial q.buffer (ones k) q.head c)) count
      ∙ ap (λ p. (some p.0, p.1)) (split_last-range initial q.buffer (ones k) q.head n)
      ∙ ap
          (λ i. (
            some (nth initial q.buffer (bit_and i (ones k))),
            range initial q.buffer (ones k) q.head n,
          ))
          last
      ∙ ap
          (λ m. (
            some (nth initial q.buffer (bit_and (q.tail - 1) m)),
            range initial q.buffer (ones k) q.head n,
          ))
          (sym r.masked)

  -- A queue whose head has reached its tail holds nothing.
  no_items :
      (q : WorkStealingQueue T) (items : List T)
      → Represents initial q items
      → q.tail ≤ q.head
      → items ≡ []
  no_items q items r le =
      let none_left : q.tail - q.head ≡ 0 = omega (arith, le) in
      sym r.content ∙ ap (range initial q.buffer (ones r.bits) q.head) none_left

  abbrev Agrees : Option T × WorkStealingQueue T → Option T × List T → Type 0
  Agrees p d = (p.0 ≡ d.0) × Represents initial p.1 d.1

  Agrees-none :
      (f : List T → Option T × List T) (q : WorkStealingQueue T) (items : List T)
      → f [] ≡ (none, [])
      → Represents initial q items
      → q.tail ≤ q.head
      → Agrees (none, q) (f items)
  Agrees-none f q items e r le =
      let nothing = no_items q items r le in
      subst (λ xs. Agrees (none, q) (f xs)) (sym nothing)
        (subst (Agrees (none, q)) (sym e) (refl, subst (Represents initial q) nothing r))

  pop_more :
      (q : WorkStealingQueue T) (items : List T) (r : Represents initial q items)
      → q.head < q.tail - 1
      → Represents initial
          (record q { tail = q.tail - 1 })
          (range initial q.buffer (ones r.bits) q.head (q.tail - 1 - q.head))
  pop_more q items r lt = record {
    bits = r.bits;
    sized = r.sized;
    masked = r.masked;
    ordered = omega (arith, lt);
    room = omega (arith, r.room);
    content = refl;
  }

  pop_one :
      (q : WorkStealingQueue T) (items : List T) (r : Represents initial q items)
      → q.tail - 1 ≡ q.head
      → Represents initial
          (record q { head = q.tail })
          (range initial q.buffer (ones r.bits) q.head (q.tail - 1 - q.head))
  pop_one q items r e =
      let rest : q.tail - 1 - q.head ≡ 0 = omega (arith, e) in
      let empty : q.tail - q.tail ≡ 0 = omega arith in
      record {
        bits = r.bits;
        sized = r.sized;
        masked = r.masked;
        ordered = omega arith;
        room = omega (arith, ones-power r.bits);
        content =
            ap (range initial q.buffer (ones r.bits) q.tail) empty
            ∙ sym (ap (range initial q.buffer (ones r.bits) q.head) rest);
      }

  pub pop-Represents :
      (q : WorkStealingQueue T) (items : List T)
      → Represents initial q items
      → Agrees (pop initial q) (pop_back items)
  unfolding pop
  pop-Represents q items r = elim (Bool-cases (nat_eq q.tail 0)) [
    | inl e ↦ rw e (Agrees-none pop_back q items refl r (ground arith))
    | inr e ↦ elim (Bool-cases (ltb q.head (q.tail - 1))) [
      | inl f ↦
          let last = pop_back-items q items r (ground arith) in
          rw (e, f, last) (refl, pop_more q items r (ground arith))
      | inr f ↦ elim (Bool-cases (nat_eq (q.tail - 1) q.head)) [
        | inl g ↦
            let last = pop_back-items q items r (ground arith) in
            rw (e, f, g, last) (refl, pop_one q items r (ground arith))
        | inr g ↦ rw (e, f, g) (Agrees-none pop_back q items refl r (ground arith))
      ]
    ]
  ]

  steal_front-items :
      (q : WorkStealingQueue T) (items : List T) (r : Represents initial q items)
      → q.head < q.tail
      → steal_front items ≡ (
        some (nth initial q.buffer (bit_and q.head q.mask)),
        range initial q.buffer (ones r.bits) (q.head + 1) (q.tail - (q.head + 1)),
      )
  steal_front-items q items r lt =
      let k = r.bits in
      let n = q.tail - (q.head + 1) in
      let count : q.tail - q.head ≡ suc n = omega (arith, lt) in
      let next : suc q.head ≡ q.head + 1 = omega arith in
      ap steal_front (sym r.content)
      ∙ ap (λ c. steal_front (range initial q.buffer (ones k) q.head c)) count
      ∙ ap
          (λ h. (
            some (nth initial q.buffer (bit_and q.head (ones k))),
            range initial q.buffer (ones k) h n,
          ))
          next
      ∙ ap
          (λ m. (
            some (nth initial q.buffer (bit_and q.head m)),
            range initial q.buffer (ones k) (q.head + 1) n,
          ))
          (sym r.masked)

  steal_one :
      (q : WorkStealingQueue T) (items : List T) (r : Represents initial q items)
      → q.head < q.tail
      → Represents initial
          (record q { head = q.head + 1 })
          (range initial q.buffer (ones r.bits) (q.head + 1) (q.tail - (q.head + 1)))
  steal_one q items r lt = record {
    bits = r.bits;
    sized = r.sized;
    masked = r.masked;
    ordered = omega (arith, lt);
    room = omega (arith, r.room);
    content = refl;
  }

  pub steal-Represents :
      (q : WorkStealingQueue T) (items : List T)
      → Represents initial q items
      → Agrees (steal initial q) (steal_front items)
  unfolding steal
  steal-Represents q items r = elim (Bool-cases (leb q.tail q.head)) [
    | inl e ↦ rw e (Agrees-none steal_front q items refl r (ground arith))
    | inr e ↦
        let first = steal_front-items q items r (ground arith) in
        rw (e, first) (refl, steal_one q items r (ground arith))
  ]
