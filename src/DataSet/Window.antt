-- ===== src/DataSet/Window.antt =====
-- dataset.cc, dataset.h: `MatrixDataSet`, the windows of a matrix as patterns. The blocks with one entry
-- per dimension are one list of records; `order_step` and the coordinate are lists beside it. The
-- matrix is simple, so that its elements are `elements` in row-major order.
pub mod Repeat
pub mod Shown
pub mod Steps
pub mod Correct
mod Tests
use april_ann.Prelude.{
  ℕ, zero, suc, ◌+◌, ◌-◌, ◌*◌, ◌/◌, ◌%◌, Bool, true, false, ltb, leb, ◌==◌, if◌then◌else◌, ◌||◌,
  not, Option, none, some, List, [], ◌∷◌, length, get_elem?, set, replicate, map,
}
use april_ann.Prelude.Array.{update}
use april_ann.Prelude.Int.{ℤ, pos, negsuc, ◌+ℤ◌, ◌*ℤ◌, ◌-ℤ◌, ltb_ℤ, pos_part}
use april_ann.Prelude.Loop.{◌>>=◌}
use april_ann.Matrix.{Matrix, is_simple}

-- The remainder and the quotient of the language, rounded towards 0.
abbrev pub rem_ℤ : ℤ → ℕ → ℤ
rem_ℤ (pos n) k = pos (n % k)
rem_ℤ (negsuc n) k = pos 0 -ℤ pos (suc n % k)

abbrev pub quot_ℤ : ℤ → ℕ → ℤ
quot_ℤ (pos n) k = pos (n / k)
quot_ℤ (negsuc n) k = pos 0 -ℤ pos (suc n / k)

-- mod.h: the remainder that is not negative.
unfoldable pub mod_ℤ : ℤ → ℕ → ℕ
mod_ℤ (pos n) y = n % y
mod_ℤ (negsuc n) y = if suc n % y == 0 then 0 else y - suc n % y

pub record Axis : Type 0 where
  pub dim_size : ℕ
  pub offset : ℤ
  pub sub_matrix_size : ℕ
  pub circular : Bool
  pub step : ℤ
  pub num_steps : ℕ

pub record MatrixDataSet (T : Type 0) : Type 0 where
  pub axes : List Axis
  pub default_value : T
  pub order_step : List ℕ
  pub num_patternsv : ℕ
  pub pattern_sizev : ℕ

unfoldable pub steps_product : List Axis → ℕ
steps_product [] = 1
steps_product (x ∷ xs) = x.num_steps * steps_product xs

unfoldable pub width : List Axis → ℕ
width [] = 1
width (x ∷ xs) = x.sub_matrix_size * width xs

-- What the constructor's loop gives a dimension of size `n`.
abbrev pub whole_axis : ℕ → Axis
whole_axis n = record {
  dim_size = n;
  offset = pos 0;
  sub_matrix_size = n;
  circular = false;
  step = pos 1;
  num_steps = 1;
}

abbrev pub first_axis : ℕ → Axis
first_axis n = record {
  dim_size = n;
  offset = pos 0;
  sub_matrix_size = 1;
  circular = false;
  step = pos 1;
  num_steps = n;
}

unfoldable pub axes_of : List ℕ → List Axis
axes_of [] = []
axes_of (n ∷ ns) = first_axis n ∷ map whole_axis ns

-- `d - 1`, …, `0`
unfoldable pub downwards : ℕ → List ℕ
downwards zero = []
downwards (suc n) = n ∷ downwards n

-- The constructor; `none` is the exit on a matrix that is not simple.
unfoldable pub make_window : {T : Type 0} → T → Matrix → Option (MatrixDataSet T)
make_window zero_value m =
    if is_simple m
    then some (record {
      axes = axes_of m.matrix_size;
      default_value = zero_value;
      order_step = downwards (length m.matrix_size);
      num_patternsv = steps_product (axes_of m.matrix_size);
      pattern_sizev = width (axes_of m.matrix_size);
    })
    else none

unfoldable pub set_num_steps_values : List Axis → List ℕ → Option (List Axis)
set_num_steps_values [] v = some []
set_num_steps_values (x ∷ xs) [] = none
set_num_steps_values (x ∷ xs) (n ∷ v) =
    let rest = set_num_steps_values xs v in
    if n == 0 then none else rest >>= λ ys. some (record x { num_steps = n } ∷ ys)

-- `none` is the exit on a number of steps of 0. The block `v` has an entry for each dimension.
unfoldable pub set_num_steps : {T : Type 0} → MatrixDataSet T → List ℕ → Option (MatrixDataSet T)
set_num_steps w v = set_num_steps_values w.axes v >>= λ xs.
    some (record w { axes = xs; num_patternsv = steps_product xs })

unfoldable pub set_sizes : List Axis → List ℕ → List Axis
set_sizes (x ∷ xs) (n ∷ v) = record x { sub_matrix_size = n } ∷ set_sizes xs v
set_sizes xs _ = xs

unfoldable pub set_sub_matrix_size : {T : Type 0} → MatrixDataSet T → List ℕ → MatrixDataSet T
set_sub_matrix_size w v =
    let xs = set_sizes w.axes v in record w { axes = xs; pattern_sizev = width xs }

-- `index2coordinate`, over what is left of `orderStep`.
unfoldable pub index2coordinate : List Axis → List ℕ → List ℤ → ℤ → List ℤ
index2coordinate axes [] coordinate index = coordinate
index2coordinate axes (j ∷ order) coordinate index = elim (get_elem? axes j) [
  | none ↦ index2coordinate axes order coordinate index
  | some x ↦
      index2coordinate axes order
        (set coordinate j (x.offset +ℤ (rem_ℤ index x.num_steps *ℤ x.step)))
        (quot_ℤ index x.num_steps)
]

-- The corner of the window with a given index, from a coordinate that is all zeros.
abbrev pub corner : {T : Type 0} → MatrixDataSet T → ℤ → List ℤ
corner w index = index2coordinate w.axes w.order_step (map (λ x. pos 0) w.axes) index

-- A vector that is filled from front to back: `pattern` and `offsetpat`.
pub record Filling (T : Type 0) : Type 0 where
  pub pattern : ℕ → T
  pub offsetpat : ℕ

abbrev pub append : {T : Type 0} → T → Filling T → Filling T
append v o = record { pattern = update o.pattern o.offsetpat v; offsetpat = o.offsetpat + 1 }

unfoldable pub repeat : {A : Type 0} → ℕ → (ℕ → A → A) → A → A
repeat zero f a = a
repeat (suc n) f a = f n (repeat n f a)

-- `c < 0 || c >= t`
abbrev pub is_out : ℤ → ℕ → Bool
is_out c t = ltb_ℤ c (pos 0) || not (ltb_ℤ c (pos t))

module _ {T : Type 0} (default_value : T) (elements : ℕ → T) where
  -- An element of the last dimension.
  abbrev pub cell : Axis → ℤ → ℕ → T
  cell x c offsetmatrix =
      if x.circular
      then elements (offsetmatrix * x.dim_size + mod_ℤ c x.dim_size)
      else if is_out c x.dim_size
      then default_value
      else elements (offsetmatrix * x.dim_size + pos_part c)

  unfoldable pub aux_get_pattern : List Axis → List ℤ → ℕ → Filling T → Filling T
  aux_get_pattern (x ∷ []) (c ∷ cs) offsetmatrix o =
      repeat x.sub_matrix_size (λ i o'. append (cell x (c +ℤ pos i) offsetmatrix) o') o
  aux_get_pattern (x ∷ y ∷ rest) (c ∷ cs) offsetmatrix o =
      let inner = aux_get_pattern (y ∷ rest) cs in
      repeat x.sub_matrix_size
        (λ i o'.
          let c' = c +ℤ pos i in
          if x.circular
          then inner (offsetmatrix * y.dim_size + mod_ℤ c' x.dim_size) o'
          else if is_out c' x.dim_size
          then repeat (width (y ∷ rest)) (λ _ o''. append default_value o'') o'
          else inner (offsetmatrix * x.dim_size + pos_part c') o')
        o
  aux_get_pattern _ _ offsetmatrix o = o

  unfoldable pub window_get : MatrixDataSet T → ℤ → (ℕ → T) → ℕ → ℕ × (ℕ → T)
  window_get w index pat p =
      let o = aux_get_pattern w.axes (corner w index) 0 (record { pattern = pat; offsetpat = p }) in
      (w.pattern_sizev, o.pattern)
