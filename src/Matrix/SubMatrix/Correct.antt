-- ===== src/Matrix/SubMatrix/Correct.antt =====
-- matrix.h: what the two sub-matrix constructors give.
use april_ann.Prelude.{ℕ, zero, suc, ◌+◌, ◌<◌, ◌≡◌, true, List, arith, refl, ap, ◌∙◌, some}
use mathlib.Core.Path.{subst}
use mathlib.Core.List.{map}
use Prim.Native.Nat.{pred}
use april_ann.Prelude.Loop.{Ends, ends, Ends-inv}
use april_ann.Matrix.{Matrix, dot, compute_raw_pos, next_coord_vector_row_order, initialize}
use april_ann.Matrix.Rank.{InRange, product, row_rank, row_rank-lt, row_rank-injective}
use april_ann.Matrix.Layout.{IsLaid, initialize-IsLaid}
use april_ann.Matrix.Coords.{next_row_correct}
use april_ann.Matrix.Iterate.{place, zeros, zeros-InRange, row_rank-zeros, iterated}
use april_ann.Matrix.Copy.{fill_loop-Ends}
use april_ann.Matrix.SubMatrix.{
  fits, product_from, sub_matrix, sub_clone, shifted, SameLength, shifted-InRange, inner-InRange,
  dot-shifted, length-InRange, raw-offset, top-InRange, dot-le-top, shifted-zeros, product_from_lem,
}

module _ (other : Matrix) (coords sizes : List ℕ) (laid : IsLaid other)
    (same : SameLength sizes coords other.matrix_size) (some_size : 0 < product sizes)
    (inside : fits sizes coords other.matrix_size ≡ true) where
  coords-InRange : InRange other.matrix_size coords
  coords-InRange =
      subst (λ x. InRange other.matrix_size x) (shifted-zeros coords sizes (omega arith))
        (shifted-InRange sizes coords other.matrix_size (zeros sizes) same inside
          (zeros-InRange sizes some_size))

  -- A matrix with the strides and sizes of the part has its places where the whole has them.
  part-linear :
      (m : Matrix) (inner : List ℕ)
      → m.stride ≡ other.stride
      → InRange sizes inner
      → compute_raw_pos m inner ≡ dot other.stride inner + m.offset
  part-linear m inner e r =
      let whole =
        laid.linear inner (inner-InRange sizes coords other.matrix_size inner same inside r) in
      omega (arith, raw-offset m other inner e, whole)

  place-shifted :
      (inner : List ℕ)
      → InRange sizes inner
      → dot other.stride (shifted coords inner) ≡ dot other.stride coords + dot other.stride inner
  place-shifted inner r =
      dot-shifted other.stride coords inner (omega (arith, length-InRange sizes inner r))

  abbrev part : ℕ → ℕ → ℕ → Matrix
  part offset last total = record {
    stride = other.stride;
    is_submatrix = true;
    offset = offset;
    matrix_size = sizes;
    total_size = total;
    last_raw_pos = last;
    row_major = other.row_major;
  }

  part-IsLaid :
      (offset last total : ℕ)
      → total ≡ product sizes
      → last ≡ dot other.stride (map pred sizes) + offset
      → IsLaid (part offset last total)
  part-IsLaid offset last total t l = record {
    linear = λ inner r. part-linear (part offset last total) inner refl r;
    distinct = λ a b p q e.
        laid.distinct a b (inner-InRange sizes coords other.matrix_size a same inside p)
          (inner-InRange sizes coords other.matrix_size b same inside q) e;
    total = t;
    last = λ inner r. omega (arith, l, dot-le-top other.stride sizes inner r);
    plain = λ e f. absurd (cc);
  }

-- The sub-matrix that shares the block, where the constructor accepts its bounds, is laid out as
-- its parent is: its element at some coordinates is the parent's element at those coordinates
-- shifted by the corner.
pub sub_matrix_correct :
    (other : Matrix) (coords sizes : List ℕ) (m : Matrix)
    → IsLaid other
    → SameLength sizes coords other.matrix_size
    → 0 < product sizes
    → sub_matrix other coords sizes ≡ some m
    → IsLaid m
      × (m.matrix_size ≡ sizes)
      × ((inner : List ℕ)
          → InRange sizes inner
          → place m inner ≡ place other (shifted coords inner))
unfolding sub_matrix
sub_matrix_correct other coords sizes m laid same some_size e =
    let inside : fits sizes coords other.matrix_size ≡ true = ground (arith, e) in
    let corner =
      laid.linear coords (coords-InRange other coords sizes laid same some_size inside) in
    let offset = compute_raw_pos other coords in
    let bare = part other coords sizes laid same some_size inside offset 0 (product_from 1 sizes) in
    let last = compute_raw_pos bare (map pred sizes) in
    let whole =
      part other coords sizes laid same some_size inside offset last (product_from 1 sizes) in
    let built : whole ≡ m = ground (arith, e, inside) in
    subst
      (λ x.
        IsLaid x
        × (x.matrix_size ≡ sizes)
        × ((inner : List ℕ)
            → InRange sizes inner
            → place x inner ≡ place other (shifted coords inner)))
      built
      (
        part-IsLaid other coords sizes laid same some_size inside offset last (product_from 1 sizes)
            (omega (arith, product_from_lem 1 sizes))
            (part-linear other coords sizes laid same some_size inside bare (map pred sizes) refl
              (top-InRange sizes some_size)),
        refl,
        λ inner r.
            omega
              (arith, corner, place-shifted other coords sizes laid same some_size inside inner r),
      )

-- The coordinates that `nextCoordVectorRowOrder` reaches from the first ones.
walk-row :
    (sizes : List ℕ) (k : ℕ)
    → 0 < product sizes
    → k < product sizes
    → let coords = iterated k (λ aux. (next_coord_vector_row_order sizes aux).0) (zeros sizes) in
      InRange sizes coords × (row_rank sizes coords ≡ k)
walk-row sizes zero h p = (zeros-InRange sizes h, row_rank-zeros sizes)
walk-row sizes (suc k) h p =
    let (inside, ranked) = walk-row sizes k h (omega arith) in
    let coords = iterated k (λ aux. (next_coord_vector_row_order sizes aux).0) (zeros sizes) in
    let (inside', on, over) = next_row_correct sizes coords inside in
    (inside', omega (arith, ranked, (on (omega arith)).1))

walk-row_reaches :
    (sizes inner : List ℕ)
    → InRange sizes inner
    → iterated
        (row_rank sizes inner)
        (λ aux. (next_coord_vector_row_order sizes aux).0)
        (zeros sizes)
      ≡ inner
walk-row_reaches sizes inner r =
    let below = row_rank-lt sizes inner r in
    let (inside, ranked) = walk-row sizes (row_rank sizes inner) (omega arith) below in
    row_rank-injective sizes _ inner inside r ranked

marked-IsLaid : (m : Matrix) → IsLaid m → IsLaid (record m { is_submatrix = true })
marked-IsLaid m laid = record {
  linear = λ inner r.
      omega
        (arith, raw-offset (record m { is_submatrix = true }) m inner refl, laid.linear inner r);
  distinct = laid.distinct;
  total = laid.total;
  last = laid.last;
  plain = λ e f. absurd (cc);
}

-- What a sub-matrix with a block of its own is given.
pub record Taken {T : Type 0} (other : Matrix) (block : ℕ → T) (coords sizes : List ℕ)
    (r : Matrix × (ℕ → T)) : Type 0 where
  pub laid : IsLaid r.0
  pub sized : r.0.matrix_size ≡ sizes
  pub elements :
      (inner : List ℕ)
      → InRange sizes inner
      → r.1 (place r.0 inner) ≡ block (place other (shifted coords inner) + other.offset)

-- The sub-matrix constructor with `clone`, where it accepts the bounds, ends with a matrix of the
-- sizes in a block of its own. Its elements are read at the places of the shifted coordinates plus
-- the offset of the source once more: these are the source's elements exactly if that offset is 0.
sub_clone_correct :
    {T : Type 0} (fresh : ℕ → T) (other : Matrix) (block : ℕ → T) (coords sizes : List ℕ)
    → IsLaid other
    → SameLength sizes coords other.matrix_size
    → 0 < product sizes
    → fits sizes coords other.matrix_size ≡ true
    → Ends (Taken other block coords sizes) (sub_clone fresh other block coords sizes)
unfolding sub_clone initialize
sub_clone_correct fresh other block coords sizes laid same some_size inside =
    let corner =
      laid.linear coords (coords-InRange other coords sizes laid same some_size inside) in
    let m = record (initialize sizes other.row_major) { is_submatrix = true } in
    let own =
      marked-IsLaid (initialize sizes other.row_major)
        (initialize-IsLaid sizes other.row_major some_size) in
    let (r, e, done) = Ends-inv (
      fill_loop-Ends m own (λ aux. block (compute_raw_pos other coords + compute_raw_pos other aux))
        (λ aux. (next_coord_vector_row_order sizes aux).0) (zeros sizes) fresh some_size) in
    rw (inside, e, sub_clone)
      (ends (record {
        laid = own;
        sized = refl;
        elements = λ inner q.
            done.filled inner q (omega arith)
            ∙ ap block (
                rw (walk-row_reaches sizes inner q) (
                  omega (
                    arith,
                    corner,
                    part-linear other coords sizes laid same some_size inside other inner refl q,
                    place-shifted other coords sizes laid same some_size inside inner q,
                  )));
      }))
