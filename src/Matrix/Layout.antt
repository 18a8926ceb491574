-- ===== src/Matrix/Layout.antt =====
-- matrix.h: the places that `initialize` gives to the elements.
use april_ann.Prelude.{
  ℕ, suc, ◌+◌, ◌-◌, ◌*◌, ◌≤◌, ◌<◌, ◌≡◌, Bool, true, false, List, [], ◌∷◌, arith, refl, ap, sym, ◌∙◌,
  some, length, if◌then◌else◌,
}
use mathlib.Core.Path.{subst}
use april_ann.Matrix.{Matrix, row_strides, col_strides, initialize, make, dot, compute_raw_pos}
use april_ann.Matrix.Rank.{
  InRange, product, row_rank, col_rank, row_rank-lt, col_rank-lt, row_rank-injective,
  col_rank-injective,
}

row_strides-product : (dim : List ℕ) → (row_strides dim).1 ≡ product dim
unfolding row_strides
row_strides-product [] = refl
row_strides-product (d ∷ dim) = rw (row_strides-product dim) (omega arith)

dot-row_strides :
    (dim coords : List ℕ)
    → InRange dim coords
    → dot (row_strides dim).0 coords ≡ row_rank dim coords
unfolding row_strides
dot-row_strides [] [] r = refl
dot-row_strides (d ∷ dim) (c ∷ coords) r =
    rw (row_strides-product dim, dot-row_strides dim coords r.1) (grind arith)
dot-row_strides [] (c ∷ coords) r = absurd r
dot-row_strides (d ∷ dim) [] r = absurd r

col_strides-product : (t : ℕ) (dim : List ℕ) → (col_strides t dim).1 ≡ t * product dim
unfolding col_strides
col_strides-product t [] = omega arith
col_strides-product t (d ∷ dim) = grind (arith, col_strides-product (t * d) dim)

dot-col_strides :
    (t : ℕ) (dim coords : List ℕ)
    → InRange dim coords
    → dot (col_strides t dim).0 coords ≡ t * col_rank dim coords
unfolding col_strides
dot-col_strides t [] [] r = omega arith
dot-col_strides t (d ∷ dim) (c ∷ coords) r =
    rw (dot-col_strides (t * d) dim coords r.1) (grind arith)
dot-col_strides t [] (c ∷ coords) r = absurd r
dot-col_strides t (d ∷ dim) [] r = absurd r

length-row_strides : (dim : List ℕ) → length (row_strides dim).0 ≡ length dim
unfolding row_strides
length-row_strides [] = refl
length-row_strides (d ∷ dim) = ap suc (length-row_strides dim)

length-col_strides : (t : ℕ) (dim : List ℕ) → length (col_strides t dim).0 ≡ length dim
unfolding col_strides
length-col_strides t [] = refl
length-col_strides t (d ∷ dim) = ap suc (length-col_strides (t * d) dim)

-- What every way to build a matrix gives: `computeRawPos` is the sum of strides and offset, no two
-- elements share a place, no place lies past the last one, and a matrix that is walked over
-- without its coordinates has its elements in row order from the start of the block.
pub record IsLaid (m : Matrix) : Type 0 where
  pub linear :
      (coords : List ℕ)
      → InRange m.matrix_size coords
      → compute_raw_pos m coords ≡ dot m.stride coords + m.offset
  pub distinct :
      (a b : List ℕ)
      → InRange m.matrix_size a
      → InRange m.matrix_size b
      → dot m.stride a ≡ dot m.stride b
      → a ≡ b
  pub total : m.total_size ≡ product m.matrix_size
  pub last :
      (coords : List ℕ)
      → InRange m.matrix_size coords
      → dot m.stride coords + m.offset ≤ m.last_raw_pos
  pub plain :
      m.is_submatrix ≡ false
      → m.row_major ≡ true
      → ((coords : List ℕ)
          → InRange m.matrix_size coords
          → dot m.stride coords + m.offset ≡ row_rank m.matrix_size coords)
        × (m.offset ≡ 0)
        × (m.last_raw_pos + 1 ≡ product m.matrix_size)

raw_by_cases :
    (m : Matrix) (stride dim coords : List ℕ)
    → m.stride ≡ stride
    → length stride ≡ length dim
    → ((s : ℕ) → stride ≡ s ∷ [] → s ≡ 1)
    → InRange dim coords
    → compute_raw_pos m coords ≡ dot stride coords + m.offset
unfolding compute_raw_pos
raw_by_cases m [] [] [] e l u r = rw e refl
raw_by_cases m (s ∷ []) (d ∷ []) (c ∷ []) e l u r = rw (u s refl) (omega arith)
raw_by_cases m (s ∷ t ∷ []) (d ∷ d' ∷ []) (c ∷ c' ∷ []) e l u r = rw e (grind arith)
raw_by_cases m (s ∷ t ∷ v ∷ st) (d ∷ d' ∷ d'' ∷ dim) (c ∷ c' ∷ c'' ∷ coords) e l u r = rw e refl
raw_by_cases m [] (d ∷ dim) coords e l u r = absurd (omega arith)
raw_by_cases m (s ∷ st) [] coords e l u r = absurd (omega arith)
raw_by_cases m (s ∷ []) (d ∷ d' ∷ dim) coords e l u r = absurd (omega arith)
raw_by_cases m (s ∷ t ∷ st) (d ∷ []) coords e l u r = absurd (omega arith)
raw_by_cases m (s ∷ t ∷ []) (d ∷ d' ∷ d'' ∷ dim) coords e l u r = absurd (omega arith)
raw_by_cases m (s ∷ t ∷ v ∷ st) (d ∷ d' ∷ []) coords e l u r = absurd (omega arith)
raw_by_cases m [] [] (c ∷ coords) e l u r = absurd r
raw_by_cases m (s ∷ st) (d ∷ dim) [] e l u r = absurd r
raw_by_cases m (s ∷ []) (d ∷ []) (c ∷ c' ∷ coords) e l u r = absurd r.1
raw_by_cases m (s ∷ t ∷ st) (d ∷ d' ∷ dim) (c ∷ []) e l u r = absurd r.1
raw_by_cases m (s ∷ t ∷ []) (d ∷ d' ∷ []) (c ∷ c' ∷ c'' ∷ coords) e l u r = absurd r.1.1
raw_by_cases m (s ∷ t ∷ v ∷ st) (d ∷ d' ∷ d'' ∷ dim) (c ∷ c' ∷ []) e l u r = absurd r.1.1

-- The three cases of `computeRawPos` are one, if the only stride of a single dimension is 1.
pub compute_raw_pos-dot :
    (m : Matrix) (coords : List ℕ)
    → length m.stride ≡ length m.matrix_size
    → ((s : ℕ) → m.stride ≡ s ∷ [] → s ≡ 1)
    → InRange m.matrix_size coords
    → compute_raw_pos m coords ≡ dot m.stride coords + m.offset
compute_raw_pos-dot m coords l u r = raw_by_cases m m.stride m.matrix_size coords refl l u r

row_unit : (dim : List ℕ) (s : ℕ) → (row_strides dim).0 ≡ s ∷ [] → s ≡ 1
unfolding row_strides
row_unit [] s e = cc
row_unit (d ∷ []) s e = ground arith
row_unit (d ∷ d' ∷ dim) s e = ground arith

col_unit : (dim : List ℕ) (s : ℕ) → (col_strides 1 dim).0 ≡ s ∷ [] → s ≡ 1
unfolding col_strides
col_unit [] s e = cc
col_unit (d ∷ dim) s e = ground arith

row-IsLaid :
    (dim : List ℕ)
    → 0 < product dim
    → IsLaid (record {
      stride = (row_strides dim).0;
      is_submatrix = false;
      offset = 0;
      matrix_size = dim;
      total_size = (row_strides dim).1;
      last_raw_pos = (row_strides dim).1 - 1;
      row_major = true;
    })
row-IsLaid dim h = record {
  linear = λ coords r. compute_raw_pos-dot _ coords (length-row_strides dim) (row_unit dim) r;
  distinct = λ a b p q e.
      row_rank-injective dim a b p q (sym (dot-row_strides dim a p) ∙ e ∙ dot-row_strides dim b q);
  total = row_strides-product dim;
  last = λ coords r.
      omega
        (arith, row_strides-product dim, dot-row_strides dim coords r, row_rank-lt dim coords r);
  plain = λ s t. (
    (λ coords r. omega (arith, dot-row_strides dim coords r)),
    refl,
    omega (arith, row_strides-product dim),
  );
}

col-IsLaid :
    (dim : List ℕ)
    → 0 < product dim
    → IsLaid (record {
      stride = (col_strides 1 dim).0;
      is_submatrix = false;
      offset = 0;
      matrix_size = dim;
      total_size = (col_strides 1 dim).1;
      last_raw_pos = (col_strides 1 dim).1 - 1;
      row_major = false;
    })
col-IsLaid dim h = record {
  linear = λ coords r. compute_raw_pos-dot _ coords (length-col_strides 1 dim) (col_unit dim) r;
  distinct = λ a b p q e.
      col_rank-injective dim a b p q
        (omega (arith, dot-col_strides 1 dim a p, e, dot-col_strides 1 dim b q));
  total = omega (arith, col_strides-product 1 dim);
  last = λ coords r.
      omega (
        arith,
        col_strides-product 1 dim,
        dot-col_strides 1 dim coords r,
        col_rank-lt dim coords r,
      );
  plain = λ s t. absurd (cc);
}

make-eq-initialize :
    (dim : List ℕ) (row_major : Bool) (m : Matrix)
    → make dim row_major ≡ some m
    → initialize dim row_major ≡ m
unfolding make
make-eq-initialize dim row_major m e = ground arith

pub initialize-IsLaid :
    (dim : List ℕ) (row_major : Bool) → 0 < product dim → IsLaid (initialize dim row_major)
unfolding initialize
initialize-IsLaid dim true h = row-IsLaid dim h
initialize-IsLaid dim false h = col-IsLaid dim h

-- The constructor from sizes that are not 0, where it does not exit, lays the elements out: no two
-- share a place, the places end at the last one, and `computeRawPos` of coordinates in range is
-- their rank, with the last coordinate running fastest in row order and the first one in column
-- order.
pub make_correct :
    (dim : List ℕ) (row_major : Bool) (m : Matrix)
    → 0 < product dim
    → make dim row_major ≡ some m
    → IsLaid m
      × (m.matrix_size ≡ dim)
      × ((coords : List ℕ)
          → InRange dim coords
          → compute_raw_pos m coords
            ≡ (if row_major then row_rank dim coords else col_rank dim coords))
unfolding initialize
make_correct dim true m h e =
    subst
      (λ x.
        IsLaid x
        × (x.matrix_size ≡ dim)
        × ((coords : List ℕ) → InRange dim coords → compute_raw_pos x coords ≡ row_rank dim coords))
      (make-eq-initialize dim true m e)
      (
        row-IsLaid dim h,
        refl,
        λ coords r. omega (arith, (row-IsLaid dim h).linear coords r, dot-row_strides dim coords r),
      )
make_correct dim false m h e =
    subst
      (λ x.
        IsLaid x
        × (x.matrix_size ≡ dim)
        × ((coords : List ℕ) → InRange dim coords → compute_raw_pos x coords ≡ col_rank dim coords))
      (make-eq-initialize dim false m e)
      (
        col-IsLaid dim h,
        refl,
        λ coords r.
            omega (arith, (col-IsLaid dim h).linear coords r, dot-col_strides 1 dim coords r),
      )
