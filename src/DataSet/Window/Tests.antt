-- ===== src/DataSet/Window/Tests.antt =====
-- dataset.cc, `MatrixDataSet`: runs, and the theorem at a window that leaves its matrix.
use april_ann.Prelude.{
  ℕ, zero, suc, ◌+◌, ◌<◌, ◌≤◌, ◌≡◌, ◌⊎◌, arith, refl, true, false, List, [], ◌∷◌,
}
use april_ann.Prelude.Int.{pos, negsuc, ◌+ℤ◌, ◌*ℤ◌, ◌-ℤ◌}
use april_ann.DataSet.Window.{
  Axis, MatrixDataSet, width, window_get, index2coordinate, aux_get_pattern, mod_ℤ, repeat,
}
use april_ann.DataSet.Window.Shown.{InWindow, position, shown, element}
use april_ann.DataSet.Window.Steps.{IsOrder, times, steps_index}
use april_ann.DataSet.Window.Correct.{window_get_correct}

abbrev counted : ℕ → ℕ
counted i = 100 + i

abbrev sheet : ℕ → ℕ
sheet i = 0

-- A window of 2 by 3 over a matrix of 3 by 4, whose columns are circular.
abbrev rows : Axis
rows = record {
  dim_size = 3;
  offset = negsuc 0;
  sub_matrix_size = 2;
  circular = false;
  step = pos 1;
  num_steps = 4;
}

abbrev columns : Axis
columns = record {
  dim_size = 4;
  offset = pos 3;
  sub_matrix_size = 3;
  circular = true;
  step = pos 2;
  num_steps = 2;
}

abbrev pane : MatrixDataSet ℕ
pane = record {
  axes = rows ∷ columns ∷ [];
  default_value = 9;
  order_step = 1 ∷ 0 ∷ [];
  num_patternsv = 8;
  pattern_sizev = 6;
}

-- The first window starts above the matrix, and its second row wraps around.
pane_runs : (window_get 9 counted pane (pos 0) sheet 0).1 3 ≡ 103
unfolding window_get index2coordinate aux_get_pattern width repeat mod_ℤ ◌+ℤ◌ ◌*ℤ◌ ◌-ℤ◌
pane_runs = refl

pane_wraps : (window_get 9 counted pane (pos 0) sheet 0).1 4 ≡ 100
unfolding window_get index2coordinate aux_get_pattern width repeat mod_ℤ ◌+ℤ◌ ◌*ℤ◌ ◌-ℤ◌
pane_wraps = refl

-- Two circular dimensions of different lengths behind the first: the second row is read from the place
-- of the third.
abbrev deep : MatrixDataSet ℕ
deep = record {
  axes =
      record {
        dim_size = 2;
        offset = pos 0;
        sub_matrix_size = 2;
        circular = false;
        step = pos 1;
        num_steps = 1;
      }
      ∷ record {
        dim_size = 2;
        offset = pos 0;
        sub_matrix_size = 1;
        circular = true;
        step = pos 1;
        num_steps = 1;
      }
      ∷ record {
        dim_size = 3;
        offset = pos 0;
        sub_matrix_size = 1;
        circular = false;
        step = pos 1;
        num_steps = 1;
      }
      ∷ [];
  default_value = 9;
  order_step = 2 ∷ 1 ∷ 0 ∷ [];
  num_patternsv = 1;
  pattern_sizev = 2;
}

deep_goes_astray : (window_get 9 counted deep (pos 0) sheet 0).1 1 ≡ 109
unfolding window_get index2coordinate aux_get_pattern width repeat mod_ℤ ◌+ℤ◌ ◌*ℤ◌ ◌-ℤ◌
deep_goes_astray = refl

pane-IsOrder : IsOrder pane.axes pane.order_step
unfolding times
pane-IsOrder zero h = refl
pane-IsOrder (suc zero) h = refl
pane-IsOrder (suc (suc j)) h = absurd (omega arith)

-- Two steps down and one to the right.
abbrev pane_steps : List ℕ
pane_steps = 2 ∷ 1 ∷ []

window_get_correct_example :
    ((window_get 9 counted pane (pos 5) sheet 2).0 ≡ 6)
    × ((ks : List ℕ)
        → InWindow pane.axes ks
        → (window_get 9 counted pane (pos 5) sheet 2).1 (2 + position pane.axes ks)
          ≡ element 9 counted pane.axes 0 (shown pane.axes (pos 1 ∷ pos 5 ∷ []) ks))
    × ((j : ℕ)
        → (j < 2) ⊎ (2 + width pane.axes ≤ j)
        → (window_get 9 counted pane (pos 5) sheet 2).1 j ≡ 0)
unfolding steps_index ◌+ℤ◌ ◌*ℤ◌
window_get_correct_example =
    window_get_correct 9 counted pane pane_steps sheet 2 (omega arith) (omega arith) pane-IsOrder
      (omega arith, (omega arith, omega arith))
