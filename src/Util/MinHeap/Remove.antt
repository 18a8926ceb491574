-- ===== src/Util/MinHeap/Remove.antt =====
-- min_heap.h: `pop` removes the root, and `del` an element that an iterator stands on.
use april_ann.Prelude.{
  ℕ, zero, suc, ◌+◌, ◌-◌, ◌≤◌, ◌<◌, ◌≡◌, Bool, true, false, ◌&&◌, arith, Bool-cases, Option-cases,
  inl, inr, ltb, leb, some, if◌then◌else◌,
}
use april_ann.Prelude.Array.{update, count, count-fill}
use april_ann.Prelude.Loop.{Ends, Ends-if, Ends-map}
use april_ann.Util.MinHeap.{
  MinHeap, parent, left_child, smaller_child, sink, heapify, pop, del, top,
}
use april_ann.Util.MinHeap.Order.{IsWeakOrder, IsValid, root_least}
use april_ann.Util.MinHeap.Sink.{heapify_restores}

module _ {T : Type 0} (cmpless : T → T → Bool) where
  -- What a removal leaves: a valid heap of the other elements.
  pub record Removed (h : MinHeap T) (v : T) (r : MinHeap T) : Type 0 where
    pub valid : IsValid cmpless r
    pub size : r.the_size + 1 ≡ h.the_size
    pub elements :
        (p : T → Bool)
        → count p r.vec r.the_size + (if p v then 1 else 0) ≡ count p h.vec h.the_size

  -- `pop` on a valid heap that is not empty ends, with a valid heap of the elements but the root:
  -- and no element of the heap is before that root.
  pub pop_correct :
      (h : MinHeap T)
      → IsWeakOrder cmpless
      → IsValid cmpless h
      → 0 < h.the_size
      → Ends (Removed h (top h)) (pop cmpless h)
        × ((i : ℕ) → 1 ≤ i → i ≤ h.the_size → cmpless (h.vec i) (top h) ≡ false)
  unfolding pop top
  pop_correct h w v some_left =
      let n = h.the_size in
      (
        Ends-if (ltb 0 h.the_size)
            (λ e.
              Ends-map
                (heapify_restores cmpless w 1
                  (record h { vec = update h.vec 1 (h.vec h.the_size); the_size = h.the_size - 1 })
                  1 (omega arith)
                  (record {
                    edges = λ c p q r s. ground (arith, v.ordered c);
                    bridged = λ c p q r s t. absurd (omega arith);
                  }))
                λ r (ordered, same, size, room). record {
                  valid = record {
                    ordered = rw size ordered;
                    room = omega arith;
                    some_room = omega arith;
                  };
                  size = omega arith;
                  elements = λ p. ground (arith, size, same p, count-fill p h.vec n 1);
                })
            (λ e. absurd (ground arith)),
        λ i p q. root_least cmpless h.vec h.the_size i w v.ordered p q,
      )

  child_below :
      (vec : ℕ → T) (n position : ℕ)
      → 1 ≤ position
      → position < smaller_child cmpless vec n position
  unfolding smaller_child
  child_below vec n position p = ground arith

  -- What the loop of `heapify` does at and above the position that it starts from.
  sink_head :
      (fuel : ℕ) (vec : ℕ → T) (n position : ℕ) (tmp : T) (b : ℕ → T)
      → IsWeakOrder cmpless
      → 1 ≤ position
      → sink cmpless fuel vec n position tmp ≡ some b
      → ((i : ℕ) → i < position → b i ≡ vec i) × (cmpless tmp (b position) ≡ false)
  unfolding sink
  sink_head zero vec n position tmp b w p e = cc
  sink_head (suc fuel) vec n position tmp b w p e =
      let m = smaller_child cmpless vec n position in
      let below = child_below vec n position p in
      elim (Bool-cases (leb (left_child position) n && cmpless (vec m) tmp)) [
        | inl t ↦
            let ih =
              sink_head fuel (update vec position (vec m)) n m tmp b w (omega arith)
                (ground arith) in
            (λ i q. ground (arith, ih.0 i), ground (arith, ih.0 position, w.asymm (vec m) tmp))
        | inr f ↦
            let e' : update vec position tmp ≡ b = ground arith in
            rw (← e') (λ i q. ground arith, ground (arith, w.asymm tmp tmp))
      ]

  -- `del` of the element at `idx` ends, with a valid heap of the others, if the last element, which
  -- takes its place, is not before the element above that place.
  del_correct :
      (h : MinHeap T) (idx : ℕ)
      → IsWeakOrder cmpless
      → IsValid cmpless h
      → 1 ≤ idx
      → idx ≤ h.the_size
      → (1 < idx → cmpless (h.vec h.the_size) (h.vec (parent idx)) ≡ false)
      → Ends (Removed h (h.vec idx)) (del cmpless h idx)
  unfolding del
  del_correct h idx w v low high above =
      let n = h.the_size in
      Ends-map
        (heapify_restores cmpless w 1
          (record h { vec = update h.vec idx (h.vec h.the_size); the_size = h.the_size - 1 }) idx
          low
          (record {
            edges = λ c p q r s. ground (arith, v.ordered c, above);
            bridged = λ c p q r s t. ground (
              arith,
              v.ordered c,
              v.ordered idx,
              w.trans (h.vec (parent idx)) (h.vec idx) (h.vec c),
            );
          }))
        λ r (ordered, same, size, room). record {
          valid = record { ordered = rw size ordered; room = omega arith; some_room = omega arith };
          size = omega arith;
          elements = λ p. ground (arith, size, same p, count-fill p h.vec n idx);
        }

  -- `del` of an element below the root breaks the heap whenever the last element, which takes its
  -- place, is before the element above that place: the element at `idx` is then before its parent.
  pub del_breaks :
      (h r : MinHeap T) (idx : ℕ)
      → IsWeakOrder cmpless
      → 1 < idx
      → idx < h.the_size
      → cmpless (h.vec h.the_size) (h.vec (parent idx)) ≡ true
      → del cmpless h idx ≡ some r
      → ¬ IsValid cmpless r
  unfolding del heapify
  del_breaks h r idx w low high above e v =
      let n = h.the_size in
      let vec = update h.vec idx (h.vec n) in
      elim (Option-cases (sink cmpless (n - 1 + 1) vec (n - 1) idx (vec idx))) [
        | inl q ↦ cc (rw q at e)
        | inr (b, q) ↦
            let (kept, placed) =
              sink_head (n - 1 + 1) vec (n - 1) idx (vec idx) b w (omega arith) q in
            ground (
              arith,
              q,
              e,
              kept (parent idx),
              placed,
              v.ordered idx,
              w.trans (h.vec (parent idx)) (b idx) (h.vec n),
            )
      ]
