-- ===== src/Matrix/Simple.antt =====
-- matrix.h: `isSimple`, from the strides and the offset of a matrix.
use april_ann.Prelude.{ℕ, ◌*◌, ◌≡◌, true, false, List, [], ◌∷◌, arith, refl, ap, length}
use april_ann.Prelude.{◌↔◌}
use april_ann.Matrix.{Matrix, row_strides, simple_strides, is_simple}

simple_strides_lem :
    (dim stride : List ℕ)
    → length stride ≡ length dim
    → (simple_strides stride dim).1 ≡ (row_strides dim).1
unfolding simple_strides row_strides
simple_strides_lem [] [] l = refl
simple_strides_lem (d ∷ dim) (s ∷ stride) l =
    ap (λ t. t * d) (simple_strides_lem dim stride (omega arith))
simple_strides_lem [] (s ∷ stride) l = absurd (omega arith)
simple_strides_lem (d ∷ dim) [] l = absurd (omega arith)

simple_strides_iff :
    (dim stride : List ℕ)
    → length stride ≡ length dim
    → ((simple_strides stride dim).0 ≡ true) ↔ (stride ≡ (row_strides dim).0)
unfolding simple_strides row_strides
simple_strides_iff [] [] l = ((λ e. refl), λ e. refl)
simple_strides_iff (d ∷ dim) (s ∷ stride) l =
    let (there, back) = simple_strides_iff dim stride (omega arith) in
    let total = simple_strides_lem dim stride (omega arith) in
    (λ e. ground (arith, there, total), λ e. ground (arith, back, total))
simple_strides_iff [] (s ∷ stride) l = absurd (omega arith)
simple_strides_iff (d ∷ dim) [] l = absurd (omega arith)

-- `isSimple` holds of exactly the matrices that are no sub-matrix, start at the block's start, are
-- in row order, and have the strides that `initialize` gives to their sizes in row order.
pub is_simple_iff :
    (m : Matrix)
    → length m.stride ≡ length m.matrix_size
    → (is_simple m ≡ true) ↔ (
        (m.is_submatrix ≡ false)
        × (m.offset ≡ 0)
        × (m.row_major ≡ true)
        × (m.stride ≡ (row_strides m.matrix_size).0))
unfolding is_simple
is_simple_iff m l =
    let (there, back) = simple_strides_iff m.matrix_size m.stride l in
    (
      λ e. (ground arith, ground arith, ground arith, there (ground arith)),
      λ e. ground (arith, back),
    )
