-- ===== src/Matrix.antt =====
-- packages/basics/matrix/c_src/matrix.h: how a `Matrix` lays its elements out in a block of memory,
-- and how its iterators walk over it. A `Matrix` here is the layout alone. The block, which several
-- matrices may share, is an argument of the functions that read it and a result of those that write.
-- An `int` is a number: sizes and strides are not negative, and products stay below 2 ^ 31.
pub mod Rank
pub mod Layout
pub mod Simple
pub mod Coords
pub mod Iterate
pub mod Copy
pub mod SubMatrix
pub mod Transpose
pub mod Columns
mod Tests
use april_ann.Prelude.{
  ℕ, zero, suc, ◌+◌, ◌-◌, ◌*◌, ◌%◌, ◌≤◌, ◌<◌, Bool, true, false, ◌&&◌, ◌||◌, not, List, [], ◌∷◌,
  Option, none, some, ltb, leb, ◌==◌, if◌then◌else◌, length, get_or, replicate,
}
use april_ann.Prelude.Array.{update}
use mathlib.Core.List.{reverse, map}
use Prim.Native.Nat.{pred}
use april_ann.Prelude.Int.{ℤ, pos, pos_part, ltb_ℤ}

-- `numDim` is the length of `matrix_size`; `row_major` says that `major_order` is CblasRowMajor.
pub record Matrix : Type 0 where
  pub stride : List ℕ
  pub is_submatrix : Bool
  pub offset : ℕ
  pub matrix_size : List ℕ
  pub total_size : ℕ
  pub last_raw_pos : ℕ
  pub row_major : Bool

-- The first loop of `initialize`, from the last dimension to the first: the strides and the total.
unfoldable pub row_strides : List ℕ → List ℕ × ℕ
row_strides [] = ([], 1)
row_strides (d ∷ dim) = let (stride, total) = row_strides dim in (total ∷ stride, total * d)

-- The second loop of `initialize`, from the first dimension to the last.
unfoldable pub col_strides : ℕ → List ℕ → List ℕ × ℕ
col_strides total [] = ([], total)
col_strides total (d ∷ dim) =
    let (stride, product) = col_strides (total * d) dim in (total ∷ stride, product)

-- `initialize` on a fresh matrix: it owns a block from its start.
unfoldable pub initialize : List ℕ → Bool → Matrix
initialize dim row_major =
    let (stride, total) = if row_major then row_strides dim else col_strides 1 dim in
    record {
      stride = stride;
      is_submatrix = false;
      offset = 0;
      matrix_size = dim;
      total_size = total;
      last_raw_pos = total - 1;
      row_major = row_major;
    }

-- The constructor from sizes; `none` is the exit of the program.
unfoldable pub make : List ℕ → Bool → Option Matrix
make dim row_major =
    if not row_major && ltb 2 (length dim) then none else some (initialize dim row_major)

-- The sum of the products of strides and coordinates.
abbrev pub dot : List ℕ → List ℕ → ℕ
dot (s ∷ stride) (c ∷ coords) = s * c + dot stride coords
dot _ _ = 0

-- `computeRawPos` by the number of dimensions. The coordinates are asserted to be in range.
unfoldable pub compute_raw_pos : Matrix → List ℕ → ℕ
compute_raw_pos m (c0 ∷ []) = c0 + m.offset
compute_raw_pos m (c0 ∷ c1 ∷ []) = c0 * get_or m.stride 0 0 + c1 * get_or m.stride 1 0 + m.offset
compute_raw_pos m coords = dot m.stride coords + m.offset

-- `isSimple`, from the last dimension: whether each stride is the product of the sizes behind it.
unfoldable pub simple_strides : List ℕ → List ℕ → Bool × ℕ
simple_strides (s ∷ stride) (d ∷ size) =
    let (is_simple, aux) = simple_strides stride size in (is_simple && s == aux, aux * d)
simple_strides _ _ = (true, 1)

unfoldable pub is_simple : Matrix → Bool
is_simple m =
    not m.is_submatrix
    && (m.offset == 0 && (m.row_major && (simple_strides m.stride m.matrix_size).0))

-- `nextCoordVectorRowOrder`: the loop from the last dimension down, with whether every coordinate
-- handled so far came back to 0. The function returns false when all of them did.
unfoldable pub next_row : List ℕ → List ℕ → List ℕ × Bool
next_row (d ∷ sizes) (c ∷ coords) =
    let (rest, wrapped) = next_row sizes coords in
    let c' = (c + 1) % d in if wrapped then (c' ∷ rest, c' == 0) else (c ∷ rest, false)
next_row _ _ = ([], true)

unfoldable pub next_coord_vector_row_order : List ℕ → List ℕ → List ℕ × Bool
unfolding next_row
next_coord_vector_row_order sizes coords =
    let (coords', wrapped) = next_row sizes coords in (coords', not wrapped)

-- `nextCoordVectorColOrder`: when a coordinate does not come back to 0, `j++` has moved on to the
-- next dimension all the same, and the test behind the loop looks at that one.
unfoldable pub next_coord_vector_col_order : List ℕ → List ℕ → List ℕ × Bool
next_coord_vector_col_order (d ∷ []) (c ∷ []) = let c' = (c + 1) % d in (c' ∷ [], not (c' == 0))
next_coord_vector_col_order (d0 ∷ d1 ∷ []) (c0 ∷ c1 ∷ []) =
    let c0' = (c0 + 1) % d0 in
    let c1' = (c1 + 1) % d1 in
    if c0' == 0 then (c0' ∷ c1' ∷ [], not (c1' == 0)) else (c0' ∷ c1 ∷ [], not (c1 == 0))
next_coord_vector_col_order (d0 ∷ d1 ∷ d2 ∷ sizes) (c0 ∷ coords) =
    let c0' = (c0 + 1) % d0 in
    let (rest, more) = next_coord_vector_col_order (d1 ∷ d2 ∷ sizes) coords in
    if c0' == 0 then (c0' ∷ rest, more) else (c0' ∷ coords, true)
next_coord_vector_col_order _ coords = (coords, true)

-- An iterator stands at a place of the block; the coordinates are kept only where they are needed.
pub record Iterator : Type 0 where
  pub raw_pos : ℕ
  pub coords : List ℕ

unfoldable pub begin : Matrix → Iterator
begin m = record { raw_pos = m.offset; coords = replicate (length m.matrix_size) 0 }

-- `operator++`
unfoldable pub advance : Matrix → Iterator → Iterator
advance m it =
    let (coords, more) = next_coord_vector_row_order m.matrix_size it.coords in
    if m.is_submatrix || not m.row_major
    then record {
      raw_pos = if more then compute_raw_pos m coords else m.last_raw_pos + 1;
      coords = coords;
    }
    else record it { raw_pos = it.raw_pos + 1 }

-- `it != end()`
unfoldable pub at_end : Matrix → Iterator → Bool
at_end m it = it.raw_pos == m.last_raw_pos + 1

module _ {T S : Type 0} (m : Matrix) (read : S → T) (next : S → S) where
  -- The loops `for (it = begin(); it != end(); ++it) *it = …` of this file: what the right side
  -- reads, and how it moves on, are parameters.
  unfoldable pub fill_loop : ℕ → S → (ℕ → T) → Iterator → Option (ℕ → T)
  fill_loop zero s data_block it = none
  fill_loop (suc fuel) s data_block it =
      let rest = fill_loop fuel (next s) (update data_block it.raw_pos (read s)) (advance m it) in
      if at_end m it then some data_block else rest

module _ {T : Type 0} where
  -- The copy constructor with `clone`: a block of its own, filled by two iterators.
  unfoldable pub clone : (fresh : ℕ → T) → Matrix → (ℕ → T) → Option (Matrix × (ℕ → T))
  clone fresh other block =
      let m = initialize other.matrix_size other.row_major in
      elim (fill_loop m (λ (it : Iterator). block it.raw_pos) (advance other) (m.total_size + 1)
        (begin other) fresh (begin m)) [ none ↦ none | some r ↦ some (m, r) ]

  -- `transpose`: the result is walked over in row order, the source in column order.
  unfoldable pub transpose : (blank : T) → Matrix → (ℕ → T) → Option (Matrix × (ℕ → T))
  transpose blank m block = elim (make (reverse m.matrix_size) m.row_major) [
    | none ↦ none
    | some resul ↦
        elim (fill_loop resul (λ coords. block (compute_raw_pos m coords))
          (λ coords. (next_coord_vector_col_order m.matrix_size coords).0) (resul.total_size + 1)
          (replicate (length m.matrix_size) 0) (λ _. blank) (begin resul)) [
            | none ↦ none
            | some r ↦ some (resul, r)
          ]
  ]
