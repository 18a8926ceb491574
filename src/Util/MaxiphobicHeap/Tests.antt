-- ===== src/Util/MaxiphobicHeap/Tests.antt =====
-- Runs of the maxiphobic heap, and the conditions of its theorems.
use april_ann.Prelude.{ℕ, ◌≡◌, refl, some, arith, ltb}
use april_ann.Prelude.Loop.{◌>>=◌, Ends}
use april_ann.Util.MinHeap.Order.{IsWeakOrder}
use april_ann.Util.MaxiphobicHeap.{
  Tree, tip, node, size_of, hang, larger_first, merge_below, merge_loop, merge, insert, extract_min,
}
use april_ann.Util.MaxiphobicHeap.Heap.{IsHeap, tally, heap_tip, heap_node}
use april_ann.Util.MaxiphobicHeap.Operations.{
  Inserted, Extracted, heap_insert_correct, heap_extract_min_correct,
}

ltb-IsWeakOrder : IsWeakOrder ltb
ltb-IsWeakOrder = record { asymm = λ a b e. ground arith; trans = λ a b c e f. ground arith }

abbrev leaf : ℕ → Tree ℕ
leaf d = node 1 d tip tip

-- Four below two and five, all below one.
abbrev four_values : Tree ℕ
four_values = node 4 1 (node 2 2 (leaf 4) tip) (leaf 5)

four_values-IsHeap : IsHeap ltb four_values
unfolding tally size_of
four_values-IsHeap =
    heap_node refl refl refl
      (heap_node refl refl refl (heap_node refl refl refl heap_tip heap_tip) heap_tip)
      (heap_node refl refl refl heap_tip heap_tip)

heap_insert_correct_example :
    Ends (Inserted ltb ltb-IsWeakOrder four_values 3) (insert ltb four_values 3)
heap_insert_correct_example =
    heap_insert_correct ltb ltb-IsWeakOrder four_values 3 four_values-IsHeap

heap_extract_min_correct_example :
    Ends (Extracted ltb ltb-IsWeakOrder four_values) (extract_min ltb four_values)
heap_extract_min_correct_example =
    heap_extract_min_correct ltb ltb-IsWeakOrder 4 1 (node 2 2 (leaf 4) tip) (leaf 5)
      four_values-IsHeap

-- Three is hung below one beside the larger tree, then the smallest is taken out.
without_one :
    (insert ltb four_values 3 >>= λ t. extract_min ltb t)
    ≡ some (1, node 4 2 (leaf 4) (node 2 3 (leaf 5) tip))
unfolding merge_loop extract_min insert hang larger_first merge_below merge size_of
without_one = refl
