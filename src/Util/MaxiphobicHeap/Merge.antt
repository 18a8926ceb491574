-- ===== src/Util/MaxiphobicHeap/Merge.antt =====
-- `merge`, `insert` and `extract_min` of packages/basics/util/c_src/maxiphobic_minheap.h.
use mathlib.Core.Path.{subst}
use april_ann.Prelude.{
  ℕ, zero, suc, ◌+◌, ◌≤◌, ◌≡◌, Bool, true, false, ◌||◌, Option, some, arith, sym, ◌∙◌,
}
use april_ann.Prelude.Loop.{◌>>=◌, Ends, ends, Ends-bind, Ends-map, Ends-if}
use april_ann.Util.MinHeap.Order.{IsWeakOrder}
use april_ann.Util.MaxiphobicHeap.{Tree, tip, node, size_of, is_tip, merge_below, merge_loop}
use april_ann.Util.MaxiphobicHeap.Heap.{tally, From, IsHeap, heap_node, all_counted, From-root}
use april_ann.Util.MaxiphobicHeap.Rounds.{Enough, fewer_rounds}
use april_ann.Util.MaxiphobicHeap.Arrange.{Hung, Below, Arranged, hang-Hung, larger_first-Arranged}

module _ {T : Type 0} (less : T → T → Bool) (w : IsWeakOrder less) where
  -- `go` is right below any node with three trees of `m` values.
  abbrev pub Right : (ℕ → T → Tree T → Tree T → Tree T → Option (Tree T)) → ℕ → Type 0
  Right go m =
      (s : ℕ) (d : T) (a b c : Tree T)
      → Below less w s d a b c
      → size_of a + size_of b + size_of c ≡ m
      → Ends (Hung less w d a b c) (go s d a b c)

  -- What comes below: a heap with the values of both trees.
  record Joined (b c r : Tree T) : Type 0 where
    heap : IsHeap less r
    tallied : (p : T → Bool) → tally p r ≡ tally p b + tally p c

  merge_below-Joined :
      (go : ℕ → T → Tree T → Tree T → Tree T → Option (Tree T)) (m : ℕ) (b c : Tree T)
      → Right go m
      → IsHeap less b
      → IsHeap less c
      → is_tip b ≡ false
      → is_tip c ≡ false
      → size_of b + size_of c ≡ 1 + m
      → Ends (Joined b c) (merge_below less go b c)
  unfolding merge_below size_of tally
  merge_below-Joined go m tip c right hb hc nb nc sizes = absurd (ground arith)
  merge_below-Joined go m (node sb db lb rb) tip right hb hc nb nc sizes = absurd (ground arith)
  merge_below-Joined go m (node sb db lb rb) (node sc dc lc rc) right (heap_node eb fb gb hlb hrb)
        (heap_node ec fc gc hlc hrc) nb nc sizes =
      Ends-if (less db dc)
        (λ before.
          Ends-map
            (right (sb + sc) db lb rb (node sc dc lc rc)
              (record {
                size = omega arith;
                from_a = fb;
                from_b = gb;
                from_c = From-root less w db (w.asymm db dc before) (heap_node ec fc gc hlc hrc);
                heap_a = hlb;
                heap_b = hrb;
                heap_c = heap_node ec fc gc hlc hrc;
              })
              (omega arith))
            (λ r h. record { heap = h.heap; tallied = λ p. omega (arith, h.tallied p) }))
        (λ after.
          Ends-map
            (right (sc + sb) dc lc (node sb db lb rb) rc
              (record {
                size = omega arith;
                from_a = fc;
                from_b = From-root less w dc after (heap_node eb fb gb hlb hrb);
                from_c = gc;
                heap_a = hlc;
                heap_b = heap_node eb fb gb hlb hrb;
                heap_c = hrc;
              })
              (omega arith))
            (λ r h. record { heap = h.heap; tallied = λ p. omega (arith, h.tallied p) }))

  nonempty-size : (t : Tree T) → IsHeap less t → is_tip t ≡ false → 1 ≤ size_of t
  unfolding size_of
  nonempty-size tip h n = absurd (ground arith)
  nonempty-size (node s d l r) (heap_node e f g hl hr) n = omega arith

  less_left :
      (a b c k : ℕ)
      → b ≤ a
      → c ≤ a
      → 1 ≤ b
      → 1 ≤ c
      → Enough (a + b + c) (suc k)
      → (m : ℕ) × (b + c ≡ 1 + m) × Enough m k
  less_left a zero c k ba ca pb pc enough = absurd (omega arith)
  less_left a (suc b) c k ba ca pb pc enough =
      (b + c, omega arith, fewer_rounds (a + suc b + c) (b + c) k (omega arith) enough)

  From-Joined :
      (d : T) (b c r : Tree T) → Joined b c r → From less d b → From less d c → From less d r
  From-Joined d b c r j fb fc = let e = j.tallied (λ x. less x d) in omega arith

  size-Joined :
      (b c r : Tree T)
      → IsHeap less b
      → IsHeap less c
      → Joined b c r
      → size_of r ≡ size_of b + size_of c
  size-Joined b c r hb hc j = omega (
    arith,
    all_counted less b hb,
    all_counted less c hc,
    all_counted less r j.heap,
    j.tallied (λ _. true),
  )

  joined-Hung :
      (s : ℕ) (d : T) (a b c a' b' c' r : Tree T)
      → Arranged less w s d a b c a' b' c'
      → Joined b' c' r
      → Hung less w d a b c (node s d a' r)
  unfolding tally
  joined-Hung s d a b c a' b' c' r o j =
      let size = size-Joined b' c' r o.below.heap_b o.below.heap_c j in
      let whole = o.below.size in
      record {
        heap =
            heap_node (omega arith) o.below.from_a
              (From-Joined d b' c' r j o.below.from_b o.below.from_c) o.below.heap_a j.heap;
        tallied = λ p. omega (arith, j.tallied p, o.tallied p);
      }

  one_round :
      (go : ℕ → T → Tree T → Tree T → Tree T → Option (Tree T)) (k s : ℕ) (d : T)
      (a b c a' b' c' : Tree T)
      → Arranged less w s d a b c a' b' c'
      → Enough (size_of a' + size_of b' + size_of c') (suc k)
      → ((m : ℕ) → Enough m k → Right go m)
      → Ends (Hung less w d a b c) (merge_below less go b' c' >>= λ r. some (node s d a' r))
  one_round go k s d a b c a' b' c' o enough rest =
      let (m, sizes, left) =
        less_left (size_of a') (size_of b') (size_of c') k o.large_b o.large_c
          (nonempty-size b' o.below.heap_b o.some_b) (nonempty-size c' o.below.heap_c o.some_c)
          enough in
      Ends-bind
        (merge_below-Joined go m b' c' (rest m left) o.below.heap_b o.below.heap_c o.some_b o.some_c
          sizes)
        (λ r j. ends (joined-Hung s d a b c a' b' c' r o j))

  none_empty :
      (a b c : Tree T)
      → is_tip a || is_tip b || is_tip c ≡ false
      → (is_tip a ≡ false) × (is_tip b ≡ false) × (is_tip c ≡ false)
  none_empty a b c h = (ground arith, ground arith, ground arith)

  Arranged-sizes :
      (s : ℕ) (d : T) (a b c a' b' c' : Tree T)
      → Below less w s d a b c
      → Arranged less w s d a b c a' b' c'
      → size_of a + size_of b + size_of c ≡ size_of a' + size_of b' + size_of c'
  Arranged-sizes s d a b c a' b' c' o r = let x = o.size in let y = r.below.size in omega arith

  round :
      (k : ℕ)
      → ((m : ℕ) → Enough m k → Right (merge_loop less (suc k)) m)
      → (m : ℕ) → Enough m (suc k)
      → Right (merge_loop less (suc (suc k))) m
  unfolding merge_loop
  round k rest m enough s d a b c o e =
      Ends-if (is_tip a || is_tip b || is_tip c)
        (λ empty. ends (hang-Hung less w s d a b c o empty))
        (λ full.
          let (na, nb, nc) = none_empty a b c full in
          let r = larger_first-Arranged less w s d a b c o na nb nc in
          one_round (merge_loop less (suc k)) k s d a b c _ _ _ r
            (subst (λ x. Enough x (suc k)) (sym e ∙ Arranged-sizes s d a b c _ _ _ o r) enough)
            rest)

  pub merge_loop-Hung : (k m : ℕ) → Enough m k → Right (merge_loop less (suc k)) m
  unfolding merge_loop
  merge_loop-Hung zero m enough s d a b c o e =
      Ends-if (is_tip a || is_tip b || is_tip c)
        (λ empty. ends (hang-Hung less w s d a b c o empty))
        (λ full.
          let (na, _, _) = none_empty a b c full in
          let some_a = nonempty-size a o.heap_a na in absurd (omega arith))
  merge_loop-Hung (suc k) m enough s d a b c o e =
      round k (λ m' enough'. merge_loop-Hung k m' enough') m enough s d a b c o e
