-- ===== src/Util/MaxiphobicHeap/Heap.antt =====
-- What the trees of packages/basics/util/c_src/maxiphobic_minheap.h keep: no value is before the one
-- above it, and every node knows its size.
use april_ann.Prelude.{ℕ, ◌+◌, ◌≡◌, refl, Bool, true, false, arith, if◌then◌else◌}
use april_ann.Util.MinHeap.Order.{IsWeakOrder}
use april_ann.Util.MaxiphobicHeap.{Tree, tip, node, size_of}

module _ {T : Type 0} where
  -- How many values of a tree pass a test.
  unfoldable pub tally : (T → Bool) → Tree T → ℕ
  tally p tip = 0
  tally p (node s d l r) = (if p d then 1 else 0) + tally p l + tally p r

  module _ (less : T → T → Bool) where
    -- No value of the tree is before `a`.
    abbrev pub From : T → Tree T → Type 0
    From a t = tally (λ x. less x a) t ≡ 0

    pub data IsHeap : Tree T → Type 0 where
      heap_tip : IsHeap tip
      heap_node :
          {s : ℕ} {d : T} {l r : Tree T}
          → s ≡ 1 + size_of l + size_of r
          → From d l
          → From d r
          → IsHeap l
          → IsHeap r
          → IsHeap (node s d l r)

    module _ (w : IsWeakOrder less) where
      -- What is from `b` on is from `a` on when `b` is.
      pub From-trans : (a b : T) (t : Tree T) → less b a ≡ false → From b t → From a t
      unfolding tally
      From-trans a b tip h f = refl
      From-trans a b (node s d l r) h f =
          let from_b : less d b ≡ false = ground arith in
          let from_a : less d a ≡ false = w.trans a b d h from_b in
          let left : From a l = From-trans a b l h (ground arith) in
          let right : From a r = From-trans a b r h (ground arith) in rw from_a (omega arith)

      pub From-root :
          {s : ℕ} {d : T} {l r : Tree T} (a : T)
          → less d a ≡ false
          → IsHeap (node s d l r)
          → From a (node s d l r)
      unfolding tally
      From-root a h (heap_node {d = d} {l = l} {r = r} e f g hl hr) =
          let left : From a l = From-trans a d l h f in
          let right : From a r = From-trans a d r h g in rw h (omega arith)

  -- The number of values is the size.
  pub all_counted :
      (less : T → T → Bool) (t : Tree T) → IsHeap less t → tally (λ _. true) t ≡ size_of t
  unfolding tally size_of
  all_counted less _ heap_tip = refl
  all_counted less _ (heap_node {l = l} {r = r} e f g hl hr) =
      omega (arith, all_counted less l hl, all_counted less r hr)
