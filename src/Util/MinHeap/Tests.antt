-- ===== src/Util/MinHeap/Tests.antt =====
-- min_heap.h at numbers: runs, and the theorems at concrete heaps.
use april_ann.Prelude.{
  ℕ, ◌≤◌, ◌≡◌, false, arith, ltb, refl, Option, none, some, if◌then◌else◌, ◌==◌,
}
use april_ann.Prelude.Array.{update}
use april_ann.Prelude.Int.{pos, negsuc}
use april_ann.Prelude.Loop.{Ends}
use april_ann.Util.MinHeap.{
  MinHeap, min_heap, incr_size, sink, smaller_child, heapify, pop, rise, push, push_back, buildheap,
  build_from, del, top,
}
use april_ann.Util.MinHeap.Order.{IsWeakOrder, IsHeapFrom, IsValid}
use april_ann.Util.MinHeap.Sink.{SameElements, buildheap_restores}
use april_ann.Util.MinHeap.Rise.{Pushed, push_correct}
use april_ann.Util.MinHeap.Remove.{Removed, pop_correct}

ltb-IsWeakOrder : IsWeakOrder ltb
ltb-IsWeakOrder = record { asymm = λ a b h. ground arith; trans = λ a b c p q. ground arith }

-- 1 over 5 and 2; 5 over 6 and 7; 2 over 3.
abbrev six : MinHeap ℕ
six = record {
  vec = λ i.
      if i == 1
      then 1
      else if i == 2
      then 5
      else if i == 3
      then 2
      else if i == 4
      then 6
      else if i == 5
      then 7
      else 3;
  vector_size = 6;
  the_size = 6;
}

six-IsValid : IsValid ltb six
six-IsValid = record {
  ordered = λ c p q r. ground arith;
  room = omega arith;
  some_room = omega arith;
}

firsts : ℕ → Option (MinHeap ℕ) → ℕ
firsts i none = 0
firsts i (some h) = if ltb h.the_size i then 0 else h.vec i

push_runs : (firsts 1 (push ltb 0 six 0) ≡ 0) × (firsts 7 (push ltb 0 six 0) ≡ 2)
unfolding firsts push incr_size rise
push_runs = (refl, refl)

pop_runs : (firsts 1 (pop ltb six) ≡ 2) × (firsts 3 (pop ltb six) ≡ 3)
unfolding firsts pop heapify sink smaller_child
pop_runs = (refl, refl)

constructor_runs :
    ((min_heap {T = ℕ} 0 (negsuc 4)).vector_size ≡ 2)
    × ((min_heap {T = ℕ} 0 (pos 9)).vector_size ≡ 9)
unfolding min_heap
constructor_runs = (refl, refl)

build_runs : firsts 1 (buildheap ltb (push_back 0 (push_back 0 (min_heap 0 (pos 1)) 8) 3)) ≡ 3
unfolding firsts buildheap build_from push_back min_heap incr_size heapify sink smaller_child
build_runs = refl

buildheap_restores_example :
    Ends
      (λ r.
        IsHeapFrom ltb 1 r.vec r.the_size
        × SameElements 6 r.vec six.vec
        × (r.the_size ≡ 6)
        × (r.vector_size ≡ 6))
      (buildheap ltb six)
buildheap_restores_example = buildheap_restores ltb ltb-IsWeakOrder six

push_correct_example : Ends (Pushed ltb six 0) (push ltb 0 six 0)
push_correct_example = push_correct ltb 0 six 0 ltb-IsWeakOrder six-IsValid

pop_correct_example :
    Ends (Removed ltb six (top six)) (pop ltb six)
    × ((i : ℕ) → 1 ≤ i → i ≤ 6 → ltb (six.vec i) (top six) ≡ false)
pop_correct_example = pop_correct ltb six ltb-IsWeakOrder six-IsValid (omega arith)

-- deleting position 5 moves the last element, 3, below 5
abbrev broken : MinHeap ℕ
broken = record { vec = update (update six.vec 5 3) 5 3; vector_size = 6; the_size = 5 }

del_breaks_run : del ltb six 5 ≡ some broken
unfolding del heapify sink smaller_child
del_breaks_run = refl
