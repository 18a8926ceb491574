-- ===== src/Util/MinHeap/Rise.antt =====
-- min_heap.h: `push` grows the block if it must, and moves the new element up to its place.
use april_ann.Prelude.{
  ℕ, zero, suc, ◌+◌, ◌≤◌, ◌<◌, ◌≡◌, ◌≢◌, Bool, true, false, ◌&&◌, arith, ltb, refl, ◌∙◌,
  if◌then◌else◌,
}
use april_ann.Prelude.Array.{update, count, count-update, count-extend}
use april_ann.Prelude.Loop.{Ends, ends, Ends-if, Ends-map, Ends-bind}
use april_ann.Util.MinHeap.{MinHeap, parent, incr_size, rise, push}
use april_ann.Util.MinHeap.Order.{IsWeakOrder, IsHeapFrom, IsValid}
use april_ann.Util.MinHeap.Sink.{SameElements}

module _ {T : Type 0} (cmpless : T → T → Bool) where
  -- Only the edge above `position` may be out of order.
  record RiseInv (a : ℕ → T) (n position : ℕ) : Type 0 where
    edges : (c : ℕ) → 1 < c → c ≤ n → c ≢ position → cmpless (a c) (a (parent c)) ≡ false
    bridged :
        (c : ℕ)
        → 1 < c
        → c ≤ n
        → parent c ≡ position
        → 1 < position
        → cmpless (a c) (a (parent position)) ≡ false

  module _ (w : IsWeakOrder cmpless) (n : ℕ) where
    step-RiseInv :
        (vec : ℕ → T) (position : ℕ) (elemento : T)
        → 1 < position
        → position ≤ n
        → RiseInv (update vec position elemento) n position
        → cmpless elemento (vec (parent position)) ≡ true
        → RiseInv
            (update (update vec position (vec (parent position))) (parent position) elemento)
            n
            (parent position)
    step-RiseInv vec position elemento p q v below =
        let m = parent position in
        record {
          edges = λ c p' q' r. ground (
            arith,
            v.edges c,
            v.bridged c,
            v.edges position,
            v.edges (parent c),
            w.asymm elemento (vec m),
            w.trans elemento (vec m) (vec c),
          );
          bridged = λ c p' q' r t.
              ground (arith, v.edges c, v.edges m, w.trans (vec (parent m)) (vec m) (vec c));
        }

    step-SameElements :
        (vec : ℕ → T) (position : ℕ) (elemento : T)
        → 1 < position
        → position ≤ n
        → SameElements n
            (update (update vec position (vec (parent position))) (parent position) elemento)
            (update vec position elemento)
    step-SameElements vec position elemento p q t =
        let m = parent position in
        ground (
          arith,
          count-update t (update vec position (vec m)) n m elemento,
          count-update t vec n position (vec m),
          count-update t vec n position elemento,
        )

    rise_restores :
        (fuel : ℕ) (vec : ℕ → T) (position : ℕ) (elemento : T)
        → position < fuel
        → 1 ≤ position
        → position ≤ n
        → RiseInv (update vec position elemento) n position
        → Ends
            (λ b. IsHeapFrom cmpless 1 b n × SameElements n b (update vec position elemento))
            (rise cmpless fuel vec position elemento)
    unfolding rise
    rise_restores zero vec position elemento f p q v = absurd (omega arith)
    rise_restores (suc fuel) vec position elemento f p q v =
        Ends-if (ltb 1 position && cmpless elemento (vec (parent position)))
          (λ e.
            Ends-map
              (rise_restores fuel (update vec position (vec (parent position))) (parent position)
                elemento (ground arith) (ground arith) (ground arith)
                (step-RiseInv vec position elemento (ground arith) q v (ground arith)))
              λ b (ordered, same).
                (ordered, λ t. same t ∙ step-SameElements vec position elemento (ground arith) q t))
          (λ e. ends (λ c p' q' r. ground (arith, v.edges c), λ t. refl))

  -- Growing keeps the elements, and makes room for one more.
  incr_size_keeps :
      (blank : T) (h : MinHeap T)
      → IsValid cmpless h
      → ((i : ℕ) → 1 ≤ i → i ≤ h.the_size → (incr_size blank h).vec i ≡ h.vec i)
        × ((incr_size blank h).the_size ≡ h.the_size + 1)
        × ((incr_size blank h).the_size ≤ (incr_size blank h).vector_size)
  unfolding incr_size
  incr_size_keeps blank h v = (λ i p q. ground arith, ground arith, ground arith)

  -- What `push` leaves: a valid heap of the old elements and the new one.
  pub record Pushed (h : MinHeap T) (elemento : T) (r : MinHeap T) : Type 0 where
    pub valid : IsValid cmpless r
    pub size : r.the_size ≡ h.the_size + 1
    pub elements :
        (p : T → Bool)
        → count p r.vec r.the_size ≡ count p h.vec h.the_size + (if p elemento then 1 else 0)

  -- `push` on a valid heap ends, with a valid heap that holds one element more: for each test, the
  -- elements that pass it are those that passed before, and the new one if it passes.
  pub push_correct :
      (blank : T) (h : MinHeap T) (elemento : T)
      → IsWeakOrder cmpless
      → IsValid cmpless h
      → Ends (Pushed h elemento) (push cmpless blank h elemento)
  unfolding push
  push_correct blank h elemento w v =
      let (kept, size, room) = incr_size_keeps blank h v in
      let g = incr_size blank h in
      let n = g.the_size in
      Ends-bind
        (rise_restores w n (n + 1) g.vec n elemento (omega arith) (omega arith) (omega arith)
          (record {
            edges = λ c p q r. ground (arith, v.ordered c, kept c, kept (parent c));
            bridged = λ c p q r t. absurd (omega arith);
          }))
        λ b (ordered, same). ends (record {
          valid = record { ordered = ordered; room = room; some_room = omega arith };
          size = size;
          elements = λ p.
              same p
              ∙ count-extend p (update g.vec n elemento) h.vec h.the_size n elemento size
                  (ground arith) (λ i q r. ground (arith, kept i q r));
        })
