-- ===== src/Util/Qsort/Tests.antt =====
-- Runs of sorting and selection, and the conditions of their theorems.
use april_ann.Prelude.{ℕ, ◌+◌, ◌*◌, ◌%◌, ◌≡◌, refl, some, arith, ltb}
use april_ann.Prelude.Loop.{◌>>=◌, Ends}
use april_ann.Util.MinHeap.Order.{IsWeakOrder}
use april_ann.Util.Qsort.{
  sort, selection, select_range, partition, part_loop, scan_up, scan_down, med3, put_in_order, swap,
  insertion_sort, insert_all, shift,
}
use april_ann.Util.Qsort.Select.{Ranked, selection_correct}
use april_ann.Util.Qsort.Sort.{SortedFrom, sort_correct}

ltb-IsWeakOrder : IsWeakOrder ltb
ltb-IsWeakOrder = record { asymm = λ a b e. ground arith; trans = λ a b c e f. ground arith }

-- Eleven different numbers out of order.
abbrev shuffled : ℕ → ℕ
shuffled i = (i * 7 + 3) % 11

sort_correct_example : Ends (SortedFrom ltb 0 10 shuffled) (sort ltb shuffled 11)
sort_correct_example = sort_correct ltb ltb-IsWeakOrder shuffled 11

selection_correct_example :
    Ends (λ r. Ranked ltb 0 10 4 shuffled r.0 × (r.1 ≡ r.0 4)) (selection ltb shuffled 11 4)
selection_correct_example = selection_correct ltb ltb-IsWeakOrder shuffled 11 4 (omega arith)

-- The fourth of the numbers from 0 to 10.
fourth : (selection ltb shuffled 11 4 >>= λ r. some r.1) ≡ some 4
unfolding selection select_range partition part_loop scan_up scan_down med3 put_in_order swap
    insertion_sort insert_all shift
fourth = refl
