-- ===== src/Util/MinHeap/Sink.antt =====
-- min_heap.h: `heapify` moves one element down to its place, and `buildheap` repeats it.
use april_ann.Prelude.{
  ℕ, zero, suc, ◌+◌, ◌-◌, ◌*◌, ◌/◌, ◌≤◌, ◌<◌, ◌≡◌, ◌≢◌, ◌⊎◌, Bool, true, false, arith, Bool-cases,
  inl, inr, leb, refl, ◌∙◌,
}
use april_ann.Prelude.Array.{update, count, count-update, count_cong}
use april_ann.Prelude.Loop.{Ends, ends, Ends-if, Ends-map, Ends-bind}
use april_ann.Util.MinHeap.{
  MinHeap, parent, left_child, smaller_child, sink, heapify, build_from, buildheap,
}
use april_ann.Util.MinHeap.Order.{IsWeakOrder, IsHeapFrom}

-- The same elements at the positions 1, …, n, each as often.
abbrev pub SameElements : {T : Type 0} → ℕ → (ℕ → T) → (ℕ → T) → Type 0
SameElements {T} n a b = (p : T → Bool) → count p a n ≡ count p b n

module _ {T : Type 0} (cmpless : T → T → Bool) where
  -- Only the edges below `position` may be out of order.
  pub record SinkInv (lo : ℕ) (a : ℕ → T) (n position : ℕ) : Type 0 where
    pub edges :
        (c : ℕ)
        → 1 < c
        → c ≤ n
        → lo ≤ parent c
        → parent c ≢ position
        → cmpless (a c) (a (parent c)) ≡ false
    pub bridged :
        (c : ℕ)
        → 1 < c
        → c ≤ n
        → parent c ≡ position
        → 1 < position
        → lo ≤ parent position
        → cmpless (a c) (a (parent position)) ≡ false

  record IsSmallerChild (vec : ℕ → T) (n position m : ℕ) : Type 0 where
    inside : m ≤ n
    child : (m ≡ position * 2) ⊎ (m ≡ position * 2 + 1)
    least : (c : ℕ) → c ≤ n → parent c ≡ position → cmpless (vec c) (vec m) ≡ false

  irrefl : IsWeakOrder cmpless → (a : T) → cmpless a a ≡ false
  irrefl w a = elim (Bool-cases (cmpless a a)) [ inl e ↦ w.asymm a a e | inr e ↦ e ]

  smaller_child-IsSmallerChild :
      (vec : ℕ → T) (n position : ℕ)
      → IsWeakOrder cmpless
      → position * 2 ≤ n
      → IsSmallerChild vec n position (smaller_child cmpless vec n position)
  unfolding smaller_child
  smaller_child-IsSmallerChild vec n position w h = record {
    inside = ground arith;
    child = ground arith;
    least = λ c q e. ground (
      arith,
      irrefl w (vec (position * 2)),
      irrefl w (vec (position * 2 + 1)),
      w.asymm (vec (position * 2 + 1)) (vec (position * 2)),
      split c e,
    );
  }
    where
      split : (c : ℕ) → parent c ≡ position → (c ≡ position * 2) ⊎ (c ≡ position * 2 + 1)
      split c e = omega arith

  module _ (w : IsWeakOrder cmpless) (n : ℕ) where
    -- One round of the loop, in terms of the array with `tmp` put into the gap.
    step-SinkInv :
        (lo : ℕ) (vec : ℕ → T) (position m : ℕ) (tmp : T)
        → 1 ≤ position
        → SinkInv lo (update vec position tmp) n position
        → IsSmallerChild vec n position m
        → cmpless (vec m) tmp ≡ true
        → SinkInv lo (update (update vec position (vec m)) m tmp) n m
    step-SinkInv lo vec position m tmp pos1 v s below = record {
      edges = λ c p q r t.
          ground (arith, v.edges c, v.bridged m, s.least c, w.asymm (vec m) tmp, s.child);
      bridged = λ c p q r t u. ground (arith, v.edges c, s.child);
    }

    step-SameElements :
        (vec : ℕ → T) (position m : ℕ) (tmp : T)
        → 1 ≤ position
        → position ≤ n
        → IsSmallerChild vec n position m
        → SameElements n (update (update vec position (vec m)) m tmp) (update vec position tmp)
    step-SameElements vec position m tmp p q s t = ground (
      arith,
      s.child,
      count-update t (update vec position (vec m)) n m tmp,
      count-update t vec n position (vec m),
      count-update t vec n position tmp,
    )

    pub sink_restores :
        (fuel lo : ℕ) (vec : ℕ → T) (position : ℕ) (tmp : T)
        → n - position < fuel
        → 1 ≤ position
        → SinkInv lo (update vec position tmp) n position
        → Ends
            (λ b. IsHeapFrom cmpless lo b n × SameElements n b (update vec position tmp))
            (sink cmpless fuel vec n position tmp)
    unfolding sink
    sink_restores zero lo vec position tmp f pos1 v = absurd (omega arith)
    sink_restores (suc fuel) lo vec position tmp f pos1 v =
        let m = smaller_child cmpless vec n position in
        Ends-if (leb (left_child position) n)
          (λ e.
            let s = smaller_child-IsSmallerChild vec n position w (ground arith) in
            Ends-if (cmpless (vec m) tmp)
              (λ below.
                Ends-map
                  (sink_restores fuel lo (update vec position (vec m)) m tmp
                    (ground (arith, s.child)) (ground (arith, s.child))
                    (step-SinkInv lo vec position m tmp pos1 v s below))
                  λ b (ordered, same). (
                    ordered,
                    λ t. same t ∙ step-SameElements vec position m tmp pos1 (omega arith) s t,
                  ))
              (λ settled. ends (
                λ c p q r. ground (arith, v.edges c, s.least c, w.trans tmp (vec m) (vec c)),
                λ t. refl,
              )))
          (λ e. ends (λ c p q r. ground (arith, v.edges c), λ t. refl))

  module _ (w : IsWeakOrder cmpless) where
    pub heapify_restores :
        (lo : ℕ) (h : MinHeap T) (position : ℕ)
        → 1 ≤ position
        → SinkInv lo h.vec h.the_size position
        → Ends
            (λ r.
              IsHeapFrom cmpless lo r.vec h.the_size
              × SameElements h.the_size r.vec h.vec
              × (r.the_size ≡ h.the_size)
              × (r.vector_size ≡ h.vector_size))
            (heapify cmpless h position)
    unfolding heapify
    heapify_restores lo h position pos1 v =
        Ends-bind
          (sink_restores w h.the_size (h.the_size + 1) lo h.vec position (h.vec position)
            (omega arith) pos1 start)
          λ b (ordered, same). ends (ordered, λ p. same p ∙ back p, refl, refl)
      where
        start : SinkInv lo (update h.vec position (h.vec position)) h.the_size position
        start = record {
          edges = λ c p q r t. ground (arith, v.edges c);
          bridged = λ c p q r t u. ground (arith, v.bridged c);
        }

        back : SameElements h.the_size (update h.vec position (h.vec position)) h.vec
        back p =
            count_cong p (update h.vec position (h.vec position)) h.vec h.the_size
              (λ i q r. ground arith)

    build_from_restores :
        (i : ℕ) (h : MinHeap T)
        → IsHeapFrom cmpless (suc i) h.vec h.the_size
        → Ends
            (λ r.
              IsHeapFrom cmpless 1 r.vec r.the_size
              × SameElements h.the_size r.vec h.vec
              × (r.the_size ≡ h.the_size)
              × (r.vector_size ≡ h.vector_size))
            (build_from cmpless i h)
    unfolding build_from
    build_from_restores zero h v = ends (v, λ p. refl, refl, refl)
    build_from_restores (suc i) h v =
        Ends-bind
          (heapify_restores (suc i) h (suc i) (omega arith) (record {
            edges = λ c p q r t. v c p q (omega arith);
            bridged = λ c p q r t u. absurd (omega arith);
          }))
          λ next (ordered, same, size, room).
            Ends-map (build_from_restores i next (rw size ordered))
              λ r (ordered', same', size', room').
                (ordered', λ p. (rw size at same') p ∙ same p, size' ∙ size, room' ∙ room)

    -- `buildheap` ends, whatever the array held before, with the elements in heap order and the
    -- size, the block and, for each test, the number of elements that pass it unchanged.
    pub buildheap_restores :
        (h : MinHeap T)
        → Ends
            (λ r.
              IsHeapFrom cmpless 1 r.vec r.the_size
              × SameElements h.the_size r.vec h.vec
              × (r.the_size ≡ h.the_size)
              × (r.vector_size ≡ h.vector_size))
            (buildheap cmpless h)
    unfolding buildheap
    buildheap_restores h = build_from_restores (h.the_size / 2) h (λ c p q r. absurd (omega arith))
