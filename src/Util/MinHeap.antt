-- ===== src/Util/MinHeap.antt =====
-- packages/basics/util/c_src/min_heap.h: `april_utils::min_heap`, a binary heap in an array whose
-- first position is 1. The element type and its comparison are parameters, as in the template.
-- An `int` is a number: sizes stay far below 2 ^ 30, so that `pos<<1` cannot overflow.
pub mod Order
pub mod Sink
pub mod Rise
pub mod Remove
mod Tests
use april_ann.Prelude.{
  ℕ, zero, suc, ◌+◌, ◌-◌, ◌*◌, ◌/◌, ◌≤◌, Bool, ◌&&◌, Option, none, some, ltb, leb, ◌==◌,
  if◌then◌else◌,
}
use april_ann.Prelude.Array.{update}
use april_ann.Prelude.Int.{ℤ, pos, pos_part, ltb_ℤ}
use april_ann.Prelude.Loop.{◌>>=◌}

-- `vec` is the C pointer `vec`, so that `vec 1` is the first element of the block of
-- `vector_size` elements.
pub record MinHeap (T : Type 0) : Type 0 where
  pub vec : ℕ → T
  pub vector_size : ℕ
  pub the_size : ℕ

abbrev pub parent : ℕ → ℕ
parent position = position / 2

abbrev pub left_child : ℕ → ℕ
left_child position = position * 2

pub empty : {T : Type 0} → MinHeap T → Bool
empty h = h.the_size == 0

pub clear : {T : Type 0} → MinHeap T → MinHeap T
clear h = record h { the_size = 0 }

pub top : {T : Type 0} → MinHeap T → T
top h = h.vec 1

-- The constructor; `blank` is what `new T[n]` puts into a fresh block.
unfoldable pub min_heap : {T : Type 0} (blank : T) → ℤ → MinHeap T
min_heap blank initial_max_size = record {
  vec = λ _. blank;
  vector_size = if ltb_ℤ (pos 0) initial_max_size then pos_part initial_max_size else 2;
  the_size = 0;
}

-- The block is doubled when it is full, and the old elements are copied.
unfoldable pub incr_size : {T : Type 0} (blank : T) → MinHeap T → MinHeap T
incr_size blank h =
    if leb h.vector_size h.the_size
    then record {
      vec = λ i. if leb 1 i && leb i h.vector_size then h.vec i else blank;
      vector_size = 2 * h.vector_size;
      the_size = h.the_size + 1;
    }
    else record h { the_size = h.the_size + 1 }

unfoldable pub push_back : {T : Type 0} (blank : T) → MinHeap T → T → MinHeap T
push_back blank h elemento =
    let grown = incr_size blank h in record grown { vec = update grown.vec grown.the_size elemento }

module _ {T : Type 0} (cmpless : T → T → Bool) where
  -- `child` after the first two statements of the loop of `heapify`.
  unfoldable pub smaller_child : (ℕ → T) → ℕ → ℕ → ℕ
  smaller_child vec the_size position =
      let child = left_child position in
      if ltb child the_size && cmpless (vec (child + 1)) (vec child) then child + 1 else child

  -- The loop of `heapify` with the write that follows it.
  unfoldable pub sink : ℕ → (ℕ → T) → ℕ → ℕ → T → Option (ℕ → T)
  sink zero vec the_size position tmp = none
  sink (suc fuel) vec the_size position tmp =
      let child = smaller_child vec the_size position in
      let deeper = sink fuel (update vec position (vec child)) the_size child tmp in
      let stop = some (update vec position tmp) in
      if leb (left_child position) the_size
      then (if cmpless (vec child) tmp then deeper else stop)
      else stop

  unfoldable pub heapify : MinHeap T → ℕ → Option (MinHeap T)
  heapify h position = do
    vec ← sink (h.the_size + 1) h.vec h.the_size position (h.vec position)
    some (record h { vec = vec })

  unfoldable pub pop : MinHeap T → Option (MinHeap T)
  pop h =
      if ltb 0 h.the_size
      then heapify (record h { vec = update h.vec 1 (h.vec h.the_size); the_size = h.the_size - 1 })
          1
      else some h

  -- The loop of `push` with the write that follows it.
  unfoldable pub rise : ℕ → (ℕ → T) → ℕ → T → Option (ℕ → T)
  rise zero vec position elemento = none
  rise (suc fuel) vec position elemento =
      let higher =
        rise fuel (update vec position (vec (parent position))) (parent position) elemento in
      if ltb 1 position && cmpless elemento (vec (parent position))
      then higher
      else some (update vec position elemento)

  unfoldable pub push : (blank : T) → MinHeap T → T → Option (MinHeap T)
  push blank h elemento = do
    let grown = incr_size blank h
    vec ← rise (grown.the_size + 1) grown.vec grown.the_size elemento
    some (record grown { vec = vec })

  -- The loop of `buildheap`, counting down from `i` to 1.
  unfoldable pub build_from : ℕ → MinHeap T → Option (MinHeap T)
  build_from zero h = some h
  build_from (suc i) h = do next ← heapify h (suc i); build_from i next

  unfoldable pub buildheap : MinHeap T → Option (MinHeap T)
  buildheap h = build_from (h.the_size / 2) h

  -- `del` at the iterator that stands on position `idx`.
  unfoldable pub del : MinHeap T → ℕ → Option (MinHeap T)
  del h idx =
      heapify (record h { vec = update h.vec idx (h.vec h.the_size); the_size = h.the_size - 1 })
        idx
