-- ===== src/Matrix/Tests.antt =====
-- matrix.h: runs, and the theorems at concrete matrices.
use april_ann.Prelude.{
  ℕ, ◌*◌, ◌<◌, ◌≡◌, true, false, List, [], ◌∷◌, arith, refl, some, ◌==◌, if◌then◌else◌,
}
use mathlib.Core.List.{reverse}
use april_ann.Prelude.Int.{pos}
use april_ann.Prelude.Loop.{Ends}
use april_ann.Matrix.{
  Matrix, row_strides, initialize, make, compute_raw_pos, begin, advance, at_end, clone, transpose,
}
use april_ann.Matrix.SubMatrix.{fits, product_from, sub_matrix, shifted}
use april_ann.Matrix.Columns.{get_col, put_col}
use april_ann.Matrix.Rank.{InRange, row_rank}
use april_ann.Matrix.Layout.{IsLaid, make_correct}
use april_ann.Matrix.Iterate.{Standing, place, iterated, visits_in_order}
use april_ann.Matrix.Copy.{Cloned, clone_correct}
use april_ann.Matrix.SubMatrix.Correct.{sub_matrix_correct}
use april_ann.Matrix.Transpose.{Transposed, transpose_correct}
use april_ann.Matrix.Columns.{put_col_correct}

-- two rows of three
abbrev wide : Matrix
wide = record {
  stride = 3 ∷ 1 ∷ [];
  is_submatrix = false;
  offset = 0;
  matrix_size = 2 ∷ 3 ∷ [];
  total_size = 6;
  last_raw_pos = 5;
  row_major = true;
}

-- its last two columns
abbrev part : Matrix
part = record {
  stride = 3 ∷ 1 ∷ [];
  is_submatrix = true;
  offset = 1;
  matrix_size = 2 ∷ 2 ∷ [];
  total_size = 4;
  last_raw_pos = 5;
  row_major = true;
}

abbrev block : ℕ → ℕ
block i = i * 10

make-wide : make (2 ∷ 3 ∷ []) true ≡ some wide
unfolding make initialize row_strides
make-wide = refl

sub_part : sub_matrix wide (0 ∷ 1 ∷ []) (2 ∷ 2 ∷ []) ≡ some part
unfolding sub_matrix fits product_from compute_raw_pos
sub_part = refl

made :
    IsLaid wide
    × (wide.matrix_size ≡ 2 ∷ 3 ∷ [])
    × ((coords : List ℕ)
        → InRange (2 ∷ 3 ∷ []) coords
        → compute_raw_pos wide coords ≡ row_rank (2 ∷ 3 ∷ []) coords)
made = make_correct (2 ∷ 3 ∷ []) true wide (omega arith) make-wide

visits_in_order_example :
    (4 < 6
      → Standing wide (iterated 4 (advance wide) (begin wide)) 4
        × (at_end wide (iterated 4 (advance wide) (begin wide)) ≡ false))
    × (◌≡◌ {A = ℕ} 4 6 → at_end wide (iterated 4 (advance wide) (begin wide)) ≡ true)
visits_in_order_example = visits_in_order wide 4 made.0 (omega arith)

clone_correct_example : Ends (Cloned wide block) (clone block wide block)
clone_correct_example = clone_correct block wide block made.0 (omega arith)

sub_matrix_correct_example :
    IsLaid part
    × (part.matrix_size ≡ 2 ∷ 2 ∷ [])
    × ((inner : List ℕ)
        → InRange (2 ∷ 2 ∷ []) inner
        → place part inner ≡ place wide (shifted (0 ∷ 1 ∷ []) inner))
sub_matrix_correct_example =
    sub_matrix_correct wide (0 ∷ 1 ∷ []) (2 ∷ 2 ∷ []) part made.0 (refl, refl) (omega arith)
      sub_part

part-IsLaid : IsLaid part
part-IsLaid =
    (sub_matrix_correct wide (0 ∷ 1 ∷ []) (2 ∷ 2 ∷ []) part made.0 (refl, refl) (omega arith)
      sub_part).0

fits_corner : fits (1 ∷ 1 ∷ []) (1 ∷ 0 ∷ []) (2 ∷ 2 ∷ []) ≡ true
unfolding fits
fits_corner = refl

transposed : Matrix
transposed = initialize (3 ∷ 2 ∷ []) true

make-transposed : make (reverse (2 ∷ 3 ∷ [])) true ≡ some transposed
unfolding make transposed
make-transposed = refl

transpose_correct_example : Ends (Transposed wide block) (transpose 0 wide block)
transpose_correct_example =
    transpose_correct 0 wide transposed block made.0 (omega arith) (omega arith) make-transposed

put_col_correct_example :
    let (done, after) = put_col wide block (pos 1) (λ i. i) 2 in
    (done ≡ true)
    × ((i j : ℕ)
        → i < 2
        → j < 3
        → after (compute_raw_pos wide (i ∷ j ∷ []))
          ≡ (if j == 1 then i else block (compute_raw_pos wide (i ∷ j ∷ []))))
    × ((get_col wide after (pos 1) block 2).0 ≡ true)
    × ((i : ℕ) → i < 2 → (get_col wide after (pos 1) block 2).1 i ≡ i)
put_col_correct_example = put_col_correct wide 2 3 made.0 refl block 1 (λ i. i) block (omega arith)
