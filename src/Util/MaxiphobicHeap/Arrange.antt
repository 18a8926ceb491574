-- ===== src/Util/MaxiphobicHeap/Arrange.antt =====
-- The two choices of the loop of `merge` in packages/basics/util/c_src/maxiphobic_minheap.h: how it hangs
-- three trees of which one is empty, and how it puts the largest first.
use april_ann.Prelude.{
  ℕ, ◌+◌, ◌≤◌, ◌≡◌, refl, Bool, true, false, ◌||◌, arith, inl, inr, ltb, if◌then◌else◌, Bool-cases,
  ◌∙◌,
}
use april_ann.Util.MinHeap.Order.{IsWeakOrder}
use april_ann.Util.MaxiphobicHeap.{Tree, tip, node, size_of, hang, larger_first, is_tip}
use april_ann.Util.MaxiphobicHeap.Heap.{tally, From, IsHeap, heap_node}

module _ {T : Type 0} (less : T → T → Bool) (w : IsWeakOrder less) where
  -- What the loop makes of the value `d` and three trees.
  pub record Hung (d : T) (a b c u : Tree T) : Type 0 where
    pub heap : IsHeap less u
    pub tallied :
        (p : T → Bool) → tally p u ≡ (if p d then 1 else 0) + tally p a + tally p b + tally p c

  -- Three heaps below a value.
  pub record Below (s : ℕ) (d : T) (a b c : Tree T) : Type 0 where
    pub size : s ≡ 1 + size_of a + size_of b + size_of c
    pub from_a : From less d a
    pub from_b : From less d b
    pub from_c : From less d c
    pub heap_a : IsHeap less a
    pub heap_b : IsHeap less b
    pub heap_c : IsHeap less c

  pub hang-Hung :
      (s : ℕ) (d : T) (a b c : Tree T)
      → Below s d a b c
      → is_tip a || is_tip b || is_tip c ≡ true
      → Hung d a b c (hang s d a b c)
  unfolding hang size_of tally
  hang-Hung s d tip b c o e = record {
    heap = heap_node (o.size ∙ omega arith) o.from_b o.from_c o.heap_b o.heap_c;
    tallied = λ p. omega arith;
  }
  hang-Hung s d (node s1 d1 l1 r1) tip c o e = record {
    heap = heap_node (o.size ∙ omega arith) o.from_a o.from_c o.heap_a o.heap_c;
    tallied = λ p. omega arith;
  }
  hang-Hung s d (node s1 d1 l1 r1) (node s2 d2 l2 r2) tip o e = record {
    heap = heap_node (o.size ∙ omega arith) o.from_a o.from_b o.heap_a o.heap_b;
    tallied = λ p. omega arith;
  }
  hang-Hung s d (node s1 d1 l1 r1) (node s2 d2 l2 r2) (node s3 d3 l3 r3) o e = absurd (ground arith)

  -- The three trees with the largest first.
  pub record Arranged (s : ℕ) (d : T) (a b c a' b' c' : Tree T) : Type 0 where
    pub below : Below s d a' b' c'
    pub large_b : size_of b' ≤ size_of a'
    pub large_c : size_of c' ≤ size_of a'
    pub tallied :
        (p : T → Bool) → tally p a' + tally p b' + tally p c' ≡ tally p a + tally p b + tally p c
    pub some_b : is_tip b' ≡ false
    pub some_c : is_tip c' ≡ false

  pub larger_first-Arranged :
      (s : ℕ) (d : T) (a b c : Tree T)
      → Below s d a b c
      → is_tip a ≡ false
      → is_tip b ≡ false
      → is_tip c ≡ false
      → Arranged s d a b c
          (larger_first (larger_first a b).0 c).0
          (larger_first a b).1
          (larger_first (larger_first a b).0 c).1
  unfolding larger_first
  larger_first-Arranged s d a b c o na nb nc = elim (Bool-cases (ltb (size_of a) (size_of b))) [
    | inl b_larger ↦ rw b_larger (elim (Bool-cases (ltb (size_of b) (size_of c))) [
      | inl c_larger ↦ rw c_larger (record {
        below = record {
          size = o.size ∙ omega arith;
          from_a = o.from_c;
          from_b = o.from_a;
          from_c = o.from_b;
          heap_a = o.heap_c;
          heap_b = o.heap_a;
          heap_c = o.heap_b;
        };
        large_b = ground arith;
        large_c = ground arith;
        tallied = λ p. omega arith;
        some_b = na;
        some_c = nb;
      })
      | inr c_smaller ↦ rw c_smaller (record {
        below = record {
          size = o.size ∙ omega arith;
          from_a = o.from_b;
          from_b = o.from_a;
          from_c = o.from_c;
          heap_a = o.heap_b;
          heap_b = o.heap_a;
          heap_c = o.heap_c;
        };
        large_b = ground arith;
        large_c = ground arith;
        tallied = λ p. omega arith;
        some_b = na;
        some_c = nc;
      })
    ])
    | inr b_smaller ↦ rw b_smaller (elim (Bool-cases (ltb (size_of a) (size_of c))) [
      | inl c_larger ↦ rw c_larger (record {
        below = record {
          size = o.size ∙ omega arith;
          from_a = o.from_c;
          from_b = o.from_b;
          from_c = o.from_a;
          heap_a = o.heap_c;
          heap_b = o.heap_b;
          heap_c = o.heap_a;
        };
        large_b = ground arith;
        large_c = ground arith;
        tallied = λ p. omega arith;
        some_b = nb;
        some_c = na;
      })
      | inr c_smaller ↦ rw c_smaller (record {
        below = o;
        large_b = ground arith;
        large_c = ground arith;
        tallied = λ p. refl;
        some_b = nb;
        some_c = nc;
      })
    ])
  ]
