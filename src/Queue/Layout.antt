-- ===== src/Queue/Layout.antt =====
-- How a circular buffer represents the items of a deque, and that a push keeps it so.
use Prim.Native.Nat.{bit_and}
use fast_rules.Base.{
  ℕ, suc, ◌+◌, ◌-◌, ◌*◌, ◌≤◌, ◌<◌, ◌≡◌, refl, subst, sym, ap, ◌∙◌, inl, inr, List, [], ◌∷◌, ◌++◌,
  false, arith, length, leb, Bool-cases,
}
use fast_rules.Queue.{
  WorkStealingQueue, store, replicate, push_back, new_queue, copy_items, resize_buffer, put_item,
  push,
}
use fast_rules.Queue.Mask.{ones, power, ones-power}
use fast_rules.Queue.Range.{
  range, range-store_next, length-store, length-replicate, copy_items-range,
}

module _ {T : Type 0} (initial : T) where
  -- The buffer has the size of a power of two, with its mask, and room for one more item; it holds
  -- the items from the head up to the tail.
  pub record Represents (q : WorkStealingQueue T) (items : List T) : Type 0 where
    pub bits : ℕ
    pub sized : length q.buffer ≡ power bits
    pub masked : q.mask ≡ ones bits
    pub ordered : q.head ≤ q.tail
    pub room : q.tail < q.head + power bits
    pub content : range initial q.buffer (ones bits) q.head (q.tail - q.head) ≡ items

  pub new_queue-Represents : Represents (new_queue initial) []
  unfolding new_queue
  new_queue-Represents = record {
    bits = 10;
    sized = length-replicate initial 1024;
    masked = refl;
    ordered = omega arith;
    room = omega arith;
    content = refl;
  }

  stored :
      (item : T) (q : WorkStealingQueue T) (items : List T) (r : Represents q items)
      → range initial
          (store (bit_and q.tail q.mask) item q.buffer)
          (ones r.bits)
          q.head
          (q.tail + 1 - q.head)
        ≡ items ++ item ∷ []
  stored item q items r =
      let k = r.bits in
      let n = q.tail - q.head in
      let last : q.tail ≡ q.head + n = omega (arith, r.ordered) in
      let longer : q.tail + 1 - q.head ≡ suc n = omega (arith, r.ordered) in
      rw (r.masked, longer)
        (ap (λ t. range initial (store (bit_and t (ones k)) item q.buffer) (ones k) q.head (suc n))
            last
          ∙ range-store_next initial k q.buffer item q.head n r.sized
              (omega (arith, r.room, r.ordered))
          ∙ ap (λ xs. xs ++ item ∷ []) r.content)

  put_item-Represents :
      (item : T) (q : WorkStealingQueue T) (items : List T) (r : Represents q items)
      → q.tail + 1 < q.head + power r.bits
      → Represents (put_item initial item q) (items ++ item ∷ [])
  put_item-Represents item q items r more = record {
    bits = r.bits;
    sized = length-store initial (bit_and q.tail q.mask) item q.buffer ∙ r.sized;
    masked = r.masked;
    ordered = omega (arith, r.ordered);
    room = more;
    content = stored item q items r;
  }

  -- What the copying loop makes of a buffer of the size `size`, started at the position `from`.
  abbrev IsCopied : WorkStealingQueue T → List T → ℕ → ℕ → ℕ → Type 0
  IsCopied q items k size from =
      let copied =
        copy_items initial q.buffer size (q.tail - q.head) from (replicate (size * 2) initial) in
      (length copied ≡ power (suc k))
      × (range initial copied (ones (suc k)) q.head (q.tail - q.head) ≡ items)

  copied :
      (q : WorkStealingQueue T) (items : List T) (r : Represents q items)
      → IsCopied q items r.bits (length q.buffer) q.head
  copied q items r =
      let k = r.bits in
      let n = q.tail - q.head in
      let loop =
        copy_items-range initial k q.buffer q.head n (replicate (power k * 2) initial) 0 n
          (length-replicate initial (power k * 2)) (omega arith) (omega (arith, r.room, r.ordered))
          refl in
      let start : q.head + 0 ≡ q.head = omega arith in
      subst (λ size. IsCopied q items k size q.head) (sym r.sized)
        (subst (IsCopied q items k (power k)) start (loop.0, loop.1 ∙ r.content))

  resize_buffer-Represents :
      (q : WorkStealingQueue T) (items : List T) (r : Represents q items)
      → (s : Represents (resize_buffer initial q) items) × (s.bits ≡ suc r.bits)
  unfolding resize_buffer
  resize_buffer-Represents q items r = (
    record {
      bits = suc r.bits;
      sized = (copied q items r).0;
      masked = omega (arith, r.sized, ones-power r.bits);
      ordered = r.ordered;
      room = omega (arith, r.room);
      content = (copied q items r).1;
    },
    refl,
  )

  room_left :
      (q : WorkStealingQueue T) (items : List T) (r : Represents q items)
      → leb (length q.buffer - 1) (q.tail - q.head) ≡ false
      → q.tail + 1 < q.head + power r.bits
  room_left q items r free = ground (arith, r.sized, r.room, r.ordered)

  room_grown :
      (q : WorkStealingQueue T) (items : List T) (r : Represents q items)
      → let s = resize_buffer-Represents q items r in
        (resize_buffer initial q).tail + 1 < (resize_buffer initial q).head + power s.0.bits
  unfolding resize_buffer resize_buffer-Represents
  room_grown q items r = omega (arith, r.room, ones-power r.bits)

  pub push-Represents :
      (item : T) (q : WorkStealingQueue T) (items : List T)
      → Represents q items
      → Represents (push initial item q) (push_back item items)
  unfolding push push_back
  push-Represents item q items r = elim (Bool-cases (leb (length q.buffer - 1) (q.tail - q.head))) [
    | inl full ↦ rw full (
        put_item-Represents item (resize_buffer initial q) items
          (resize_buffer-Represents q items r).0 (room_grown q items r))
    | inr free ↦ rw free (put_item-Represents item q items r (room_left q items r free))
  ]
