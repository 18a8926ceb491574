-- ===== src/Matrix/SubMatrix.antt =====
-- matrix.h: sub-matrices, which share the block or take a copy.
pub mod Correct
use april_ann.Prelude.{
  ℕ, zero, suc, ◌+◌, ◌-◌, ◌*◌, ◌≤◌, ◌<◌, ◌≡◌, ◌≢◌, ◌⊎◌, Bool, true, false, not, ◌||◌, ◌&&◌, List,
  [], ◌∷◌, arith, refl, ap, sym, ◌∙◌, Option, none, some, length, Bool-cases, inl, inr, ◌==◌,
  if◌then◌else◌, ltb, leb, replicate,
}
use mathlib.Core.Path.{subst}
use mathlib.Core.List.{map}
use Prim.Native.Nat.{pred}
use april_ann.Prelude.Loop.{Ends, ends, Ends-inv}
use april_ann.Matrix.{
  Matrix, dot, compute_raw_pos, next_coord_vector_row_order, initialize, begin, fill_loop,
}
use april_ann.Matrix.Rank.{InRange, product, row_rank, row_rank-lt, row_rank-injective}
use april_ann.Matrix.Layout.{IsLaid, initialize-IsLaid}
use april_ann.Matrix.Coords.{next_row_correct}
use april_ann.Matrix.Iterate.{place, zeros, zeros-InRange, row_rank-zeros, iterated}
use april_ann.Matrix.Copy.{fill_loop-Ends}

-- Whether the test `sizes[i] + coords[i] > other->matrixSize[i]` fails for every dimension.
unfoldable pub fits : List ℕ → List ℕ → List ℕ → Bool
fits (s ∷ sizes) (c ∷ coords) (d ∷ dim) = leb (s + c) d && fits sizes coords dim
fits _ _ _ = true

-- `total_size = total_size * sizes[i]` for each dimension.
unfoldable pub product_from : ℕ → List ℕ → ℕ
product_from total [] = total
product_from total (d ∷ sizes) = product_from (total * d) sizes

-- The sub-matrix constructor without `clone`: it shares the block. `none` is the exit.
unfoldable pub sub_matrix : Matrix → List ℕ → List ℕ → Option Matrix
sub_matrix other coords sizes =
    let bare : Matrix = record {
      stride = other.stride;
      is_submatrix = true;
      offset = compute_raw_pos other coords;
      matrix_size = sizes;
      total_size = product_from 1 sizes;
      last_raw_pos = 0;
      row_major = other.row_major;
    } in
    if fits sizes coords other.matrix_size
    then some (record bare { last_raw_pos = compute_raw_pos bare (map pred sizes) })
    else none

-- The sub-matrix constructor with `clone`: a block of its own, marked as a sub-matrix all the same.
unfoldable pub sub_clone :
    {T : Type 0} (fresh : ℕ → T) → Matrix → (ℕ → T) → List ℕ → List ℕ → Option (Matrix × (ℕ → T))
sub_clone fresh other block coords sizes =
    let m = record (initialize sizes other.row_major) { is_submatrix = true } in
    let other_offset = compute_raw_pos other coords in
    if fits sizes coords other.matrix_size
    then (elim (fill_loop m (λ aux. block (other_offset + compute_raw_pos other aux))
        (λ aux. (next_coord_vector_row_order sizes aux).0) (m.total_size + 1)
        (replicate (length sizes) 0) fresh (begin m)) [ none ↦ none | some r ↦ some (m, r) ])
    else none

-- The coordinates of an element of a part, seen in the whole.
abbrev pub shifted : List ℕ → List ℕ → List ℕ
shifted (a ∷ coords) (b ∷ inner) = (a + b) ∷ shifted coords inner
shifted _ _ = []

-- Some coordinates and sizes for each dimension, as the constructor's arguments have them.
abbrev pub SameLength : List ℕ → List ℕ → List ℕ → Type 0
SameLength sizes coords dim = (length sizes ≡ length dim) × (length coords ≡ length dim)

pub shifted-InRange :
    (sizes coords dim inner : List ℕ)
    → SameLength sizes coords dim
    → fits sizes coords dim ≡ true
    → InRange sizes inner
    → InRange dim (shifted coords inner)
unfolding fits
shifted-InRange [] [] [] [] l f r = tt
shifted-InRange (s ∷ sizes) (c ∷ coords) (d ∷ dim) (i ∷ inner) l f r =
    (ground arith, shifted-InRange sizes coords dim inner (omega arith) (ground arith) r.1)
shifted-InRange [] coords dim (i ∷ inner) l f r = absurd r
shifted-InRange (s ∷ sizes) coords dim [] l f r = absurd r
shifted-InRange [] (c ∷ coords) [] inner l f r = absurd (omega arith)
shifted-InRange [] coords (d ∷ dim) inner l f r = absurd (omega arith)
shifted-InRange (s ∷ sizes) coords [] inner l f r = absurd (omega arith)
shifted-InRange (s ∷ sizes) [] (d ∷ dim) inner l f r = absurd (omega arith)

pub inner-InRange :
    (sizes coords dim inner : List ℕ)
    → SameLength sizes coords dim
    → fits sizes coords dim ≡ true
    → InRange sizes inner
    → InRange dim inner
unfolding fits
inner-InRange [] [] [] [] l f r = tt
inner-InRange (s ∷ sizes) (c ∷ coords) (d ∷ dim) (i ∷ inner) l f r =
    (ground arith, inner-InRange sizes coords dim inner (omega arith) (ground arith) r.1)
inner-InRange [] coords dim (i ∷ inner) l f r = absurd r
inner-InRange (s ∷ sizes) coords dim [] l f r = absurd r
inner-InRange [] (c ∷ coords) [] inner l f r = absurd (omega arith)
inner-InRange [] coords (d ∷ dim) inner l f r = absurd (omega arith)
inner-InRange (s ∷ sizes) coords [] inner l f r = absurd (omega arith)
inner-InRange (s ∷ sizes) [] (d ∷ dim) inner l f r = absurd (omega arith)

pub dot-shifted :
    (stride coords inner : List ℕ)
    → length coords ≡ length inner
    → dot stride (shifted coords inner) ≡ dot stride coords + dot stride inner
dot-shifted [] coords inner l = refl
dot-shifted (s ∷ stride) [] [] l = refl
dot-shifted (s ∷ stride) (c ∷ coords) (i ∷ inner) l =
    rw (dot-shifted stride coords inner (omega arith)) (omega arith)
dot-shifted (s ∷ stride) [] (i ∷ inner) l = absurd (omega arith)
dot-shifted (s ∷ stride) (c ∷ coords) [] l = absurd (omega arith)

pub length-InRange : (dim coords : List ℕ) → InRange dim coords → length coords ≡ length dim
length-InRange [] [] r = refl
length-InRange (d ∷ dim) (c ∷ coords) r = ap suc (length-InRange dim coords r.1)
length-InRange [] (c ∷ coords) r = absurd r
length-InRange (d ∷ dim) [] r = absurd r

-- Matrices with the same strides differ in their offset alone.
pub raw-offset :
    (m n : Matrix) (coords : List ℕ)
    → m.stride ≡ n.stride
    → compute_raw_pos m coords + n.offset ≡ compute_raw_pos n coords + m.offset
unfolding compute_raw_pos
raw-offset m n [] e = rw e (omega arith)
raw-offset m n (a ∷ []) e = omega arith
raw-offset m n (a ∷ b ∷ []) e = rw e (omega arith)
raw-offset m n (a ∷ b ∷ c ∷ coords) e = rw e (omega arith)

pub top-InRange : (sizes : List ℕ) → 0 < product sizes → InRange sizes (map pred sizes)
top-InRange [] h = tt
top-InRange (zero ∷ sizes) h = absurd (omega arith)
top-InRange (suc s ∷ sizes) h = (omega arith, top-InRange sizes (tail s (product sizes) h))
  where
    tail : (s p : ℕ) → 0 < suc s * p → 0 < p
    tail s zero h = absurd (omega arith)
    tail s (suc p) h = omega arith

pub dot-le-top :
    (stride sizes inner : List ℕ)
    → InRange sizes inner
    → dot stride inner ≤ dot stride (map pred sizes)
dot-le-top [] sizes inner r = omega arith
dot-le-top (x ∷ stride) [] [] r = omega arith
dot-le-top (x ∷ stride) (s ∷ sizes) (i ∷ inner) r =
    let ih = dot-le-top stride sizes inner r.1 in
    let below : i ≤ pred s = omega arith in
    let scaled : x * i ≤ x * pred s = grind arith in omega arith
dot-le-top (x ∷ stride) [] (i ∷ inner) r = absurd r
dot-le-top (x ∷ stride) (s ∷ sizes) [] r = absurd r

pub shifted-zeros :
    (coords sizes : List ℕ) → length coords ≡ length sizes → shifted coords (zeros sizes) ≡ coords
shifted-zeros [] [] l = refl
shifted-zeros (c ∷ coords) (s ∷ sizes) l =
    rw (shifted-zeros coords sizes (omega arith)) (ground arith)
shifted-zeros [] (s ∷ sizes) l = absurd (omega arith)
shifted-zeros (c ∷ coords) [] l = absurd (omega arith)

pub product_from_lem : (t : ℕ) (sizes : List ℕ) → product_from t sizes ≡ t * product sizes
unfolding product_from
product_from_lem t [] = omega arith
product_from_lem t (d ∷ sizes) = omega (arith, product_from_lem (t * d) sizes)
