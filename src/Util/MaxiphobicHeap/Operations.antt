-- ===== src/Util/MaxiphobicHeap/Operations.antt =====
-- What `merge`, `insert` and `extract_min` give in packages/basics/util/c_src/maxiphobic_minheap.h.
use mathlib.Core.Path.{subst, sym}
use april_ann.Prelude.{
  inl, inr, ℕ, suc, ◌+◌, ◌≡◌, refl, Bool, false, arith, if◌then◌else◌, Bool-cases,
}
use april_ann.Prelude.Loop.{Ends, ends, Ends-map, Ends-bind, Ends-if}
use april_ann.Util.MinHeap.Order.{IsWeakOrder}
use april_ann.Util.MaxiphobicHeap.{Tree, tip, node, size_of, merge_loop, merge, insert, extract_min}
use april_ann.Util.MaxiphobicHeap.Heap.{tally, From, IsHeap, heap_tip, heap_node, From-root}
use april_ann.Util.MaxiphobicHeap.Rounds.{Enough-linear}
use april_ann.Util.MaxiphobicHeap.Merge.{merge_loop-Hung}
use april_ann.Util.MaxiphobicHeap.Arrange.{Hung, Below}

module _ {T : Type 0} (less : T → T → Bool) (w : IsWeakOrder less) where
  -- A heap with the values of two trees.
  pub record Merged (t1 t2 t : Tree T) : Type 0 where
    pub heap : IsHeap less t
    pub tallied : (p : T → Bool) → tally p t ≡ tally p t1 + tally p t2

  start :
      (n s : ℕ) (d : T) (a b c : Tree T)
      → Below less w s d a b c
      → size_of a + size_of b + size_of c ≡ n
      → s ≡ suc n
      → Ends (Hung less w d a b c) (merge_loop less s s d a b c)
  start n s d a b c o sizes e =
      subst (λ x. Ends (Hung less w d a b c) (merge_loop less x s d a b c)) (sym e)
        (merge_loop-Hung less w n n (Enough-linear n) s d a b c o sizes)

  merge-Merged :
      (t1 t2 : Tree T) → IsHeap less t1 → IsHeap less t2 → Ends (Merged t1 t2) (merge less t1 t2)
  unfolding merge tally size_of
  merge-Merged tip t h1 h2 = ends (record { heap = h2; tallied = λ p. omega arith })
  merge-Merged (node s1 d1 l1 r1) tip h1 h2 =
      ends (record { heap = h1; tallied = λ p. omega arith })
  merge-Merged (node s1 d1 l1 r1) (node s2 d2 l2 r2) (heap_node e1 f1 g1 hl1 hr1)
        (heap_node e2 f2 g2 hl2 hr2) =
      Ends-if (less d1 d2)
        (λ before.
          Ends-map
            (start (size_of l1 + size_of r1 + s2) (s1 + s2) d1 l1 r1 (node s2 d2 l2 r2)
              (record {
                size = omega arith;
                from_a = f1;
                from_b = g1;
                from_c = From-root less w d1 (w.asymm d1 d2 before) (heap_node e2 f2 g2 hl2 hr2);
                heap_a = hl1;
                heap_b = hr1;
                heap_c = heap_node e2 f2 g2 hl2 hr2;
              })
              refl (omega arith))
            (λ r h. record { heap = h.heap; tallied = λ p. omega (arith, h.tallied p) }))
        (λ after.
          Ends-map
            (start (size_of l2 + size_of r2 + s1) (s2 + s1) d2 l2 r2 (node s1 d1 l1 r1)
              (record {
                size = omega arith;
                from_a = f2;
                from_b = g2;
                from_c = From-root less w d2 after (heap_node e1 f1 g1 hl1 hr1);
                heap_a = hl2;
                heap_b = hr2;
                heap_c = heap_node e1 f1 g1 hl1 hr1;
              })
              refl (omega arith))
            (λ r h. record { heap = h.heap; tallied = λ p. omega (arith, h.tallied p) }))

  -- What `insert` makes of `root`.
  pub record Inserted (root : Tree T) (data_ : T) (t : Tree T) : Type 0 where
    pub heap : IsHeap less t
    pub tallied : (p : T → Bool) → tally p t ≡ (if p data_ then 1 else 0) + tally p root

  -- `insert` on a heap ends, with a heap that holds the value more often by one and each other value as
  -- often as before, when `<` on the values is a weak order.
  pub heap_insert_correct :
      (root : Tree T) (data_ : T)
      → IsHeap less root
      → Ends (Inserted root data_) (insert less root data_)
  unfolding insert tally size_of
  heap_insert_correct root data_ h =
      Ends-map
        (merge-Merged root (node 1 data_ tip tip) h (heap_node refl refl refl heap_tip heap_tip))
        (λ t m. record { heap = m.heap; tallied = λ p. omega (arith, m.tallied p) })

  irrefl : (d : T) → less d d ≡ false
  irrefl d = elim (Bool-cases (less d d)) [ inl e ↦ w.asymm d d e | inr e ↦ e ]

  -- What `extract_min` takes off `root`.
  pub record Extracted (root : Tree T) (r : T × Tree T) : Type 0 where
    pub heap : IsHeap less r.1
    pub least : From less r.0 root
    pub tallied : (p : T → Bool) → tally p root ≡ (if p r.0 then 1 else 0) + tally p r.1

  -- `extract_min` on a heap that is not empty ends; no value of the heap is before the one it gives, and
  -- what is left is a heap with exactly the other values, when `<` on the values is a weak order.
  pub heap_extract_min_correct :
      (s : ℕ) (d : T) (l r : Tree T)
      → IsHeap less (node s d l r)
      → Ends (Extracted (node s d l r)) (extract_min less (node s d l r))
  unfolding extract_min tally
  heap_extract_min_correct s d l r (heap_node e f g hl hr) =
      Ends-bind (merge-Merged l r hl hr) (λ t m. ends (record {
        heap = m.heap;
        least = From-root less w d (irrefl d) (heap_node e f g hl hr);
        tallied = λ p. omega (arith, m.tallied p);
      }))
