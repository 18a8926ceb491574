-- ===== src/Util/BinarySearch/Tests.antt =====
-- binary_search.h: runs, and the theorems at concrete vectors.
use april_ann.Prelude.{ℕ, ◌*◌, ◌≡◌, ltb, ◌==◌, arith, refl, none, some, if◌then◌else◌}
use april_ann.Prelude.Int.{pos}
use april_ann.Prelude.Loop.{Ends}
use april_ann.Util.BinarySearch.{binary_search, search_loop, binary_search_first, first_loop}
use april_ann.Util.BinarySearch.Found.{IsSorted, Answers, binary_search_correct}

abbrev evens : ℕ → ℕ
evens i = 2 * i

found_runs : binary_search (λ v. v == 6) (λ v. ltb v 6) evens 9 ≡ some (pos 3)
unfolding binary_search search_loop
found_runs = refl

evens-IsSorted : IsSorted (λ v. v == 6) (λ v. ltb v 6) evens 9
evens-IsSorted = record {
  less_down = λ i j q l h. ground arith;
  less_other = λ i l h. ground arith;
  after = λ i j q l h h'. ground arith;
}

-- A descending vector has a step at 1, and the search turns away from it.
descending_runs :
    binary_search_first (λ v. ltb v 4) (λ i. if i == 0 then 9 else if i == 1 then 5 else 1) 3
    ≡ some none
unfolding binary_search_first first_loop
descending_runs = refl

binary_search_correct_example :
    Ends
      (Answers (λ v. v == 6) (λ v. ltb v 6) evens 9)
      (binary_search (λ v. v == 6) (λ v. ltb v 6) evens 9)
binary_search_correct_example =
    binary_search_correct (λ v. v == 6) (λ v. ltb v 6) evens 9 evens-IsSorted
