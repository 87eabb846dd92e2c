-- ===== src/Queue.antt =====
-- include/fastrules/simple_work_stealing_queue.hpp, the deque of tasks that the thread pool uses, and
-- include/fastrules/work_stealing_queue.hpp, the circular buffer that is to replace it. The operations
-- of the circular buffer are those of one thread at a time, so that each exchange of the head
-- succeeds; head and tail are positions, which wrap around only after 2 ^ 64 pushes.
pub mod Mask
pub mod Range
pub mod Layout
pub mod Take
pub mod Refinement
use Prim.Native.Nat.{bit_and}
use fast_rules.Base.{
  ℕ, zero, suc, ◌+◌, ◌-◌, ◌*◌, List, [], ◌∷◌, ◌++◌, Bool, true, false, Option, none, some,
  if◌then◌else◌, ltb, leb, nat_eq, length, is_empty,
}

-- The operations of the simple queue on its deque, front first: the `std::optional` of an item with
-- the deque after the call.
module _ {T : Type 0} where
  unfoldable pub push_back : T → List T → List T
  push_back item q = q ++ item ∷ []

  -- The last item behind `x`, and the rest.
  abbrev pub split_last : T → List T → T × List T
  split_last x [] = (x, [])
  split_last x (y ∷ ys) = ((split_last y ys).0, x ∷ (split_last y ys).1)

  abbrev pub pop_back : List T → Option T × List T
  pop_back [] = (none, [])
  pop_back (x ∷ xs) = (some (split_last x xs).0, (split_last x xs).1)

  abbrev pub steal_front : List T → Option T × List T
  steal_front [] = (none, [])
  steal_front (x ∷ xs) = (some x, xs)

-- An item of a buffer; the index is within the buffer.
abbrev pub nth : {T : Type 0} → T → List T → ℕ → T
nth default [] i = default
nth default (x ∷ xs) zero = x
nth default (x ∷ xs) (suc i) = nth default xs i

abbrev pub store : {T : Type 0} → ℕ → T → List T → List T
store i x [] = []
store zero x (y ∷ ys) = x ∷ ys
store (suc i) x (y ∷ ys) = y ∷ store i x ys

abbrev pub replicate : {T : Type 0} → ℕ → T → List T
replicate zero x = []
replicate (suc n) x = x ∷ replicate n x

pub record WorkStealingQueue (T : Type 0) : Type 0 where
  pub buffer : List T
  pub head : ℕ
  pub tail : ℕ
  pub mask : ℕ

-- `initial` is `T{}`.
module _ {T : Type 0} (initial : T) where
  unfoldable pub new_queue : WorkStealingQueue T
  new_queue = record { buffer = replicate 1024 initial; head = 0; tail = 0; mask = 1023 }

  -- The loop of `resize` over `count` positions from `i` on.
  unfoldable pub copy_items : List T → ℕ → ℕ → ℕ → List T → List T
  copy_items old old_size zero i new = new
  copy_items old old_size (suc count) i new =
      copy_items old old_size count (suc i)
        (store (bit_and i (old_size * 2 - 1)) (nth initial old (bit_and i (old_size - 1))) new)

  unfoldable pub resize_buffer : WorkStealingQueue T → WorkStealingQueue T
  unfolding copy_items
  resize_buffer q =
      let old_size = length q.buffer in
      record q {
        buffer =
            copy_items q.buffer old_size (q.tail - q.head) q.head
              (replicate (old_size * 2) initial);
        mask = old_size * 2 - 1;
      }

  abbrev pub put_item : T → WorkStealingQueue T → WorkStealingQueue T
  put_item item q = record q {
    buffer = store (bit_and q.tail q.mask) item q.buffer;
    tail = q.tail + 1;
  }

  unfoldable pub push : T → WorkStealingQueue T → WorkStealingQueue T
  unfolding resize_buffer
  push item q =
      if leb (length q.buffer - 1) (q.tail - q.head)
      then put_item item (resize_buffer q)
      else put_item item q

  -- The head is below the tail: an exchange takes the last item for the head's side.
  unfoldable pub pop : WorkStealingQueue T → Option T × WorkStealingQueue T
  pop q =
      if nat_eq q.tail 0
      then (none, q)
      else if ltb q.head (q.tail - 1)
      then (
        some (nth initial q.buffer (bit_and (q.tail - 1) q.mask)),
        record q { tail = q.tail - 1 },
      )
      else if nat_eq (q.tail - 1) q.head
      then (some (nth initial q.buffer (bit_and (q.tail - 1) q.mask)), record q { head = q.tail })
      else (none, q)

  unfoldable pub steal : WorkStealingQueue T → Option T × WorkStealingQueue T
  steal q =
      if leb q.tail q.head
      then (none, q)
      else (some (nth initial q.buffer (bit_and q.head q.mask)), record q { head = q.head + 1 })

abbrev pub size : {T : Type 0} → WorkStealingQueue T → ℕ
size q = if ltb q.head q.tail then q.tail - q.head else 0

abbrev pub empty : {T : Type 0} → WorkStealingQueue T → Bool
empty q = leb q.tail q.head
