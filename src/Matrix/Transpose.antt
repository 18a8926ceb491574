-- ===== src/Matrix/Transpose.antt =====
-- matrix.h: `transpose`.
use april_ann.Prelude.{
  ℕ, zero, suc, ◌+◌, ◌*◌, ◌<◌, ◌≡◌, List, [], ◌∷◌, ◌++◌, arith, refl, ap, sym, ◌∙◌, some, length,
}
use mathlib.Core.Path.{subst}
use mathlib.Core.List.{reverse, reverse-append}
use april_ann.Prelude.Loop.{Ends, ends, Ends-inv}
use april_ann.Matrix.{Matrix, compute_raw_pos, next_coord_vector_col_order, make, transpose}
use april_ann.Matrix.Rank.{InRange, product, row_rank, col_rank, col_rank-lt, col_rank-injective}
use april_ann.Matrix.Layout.{IsLaid, make_correct}
use april_ann.Matrix.Coords.{next_col_correct}
use april_ann.Matrix.Iterate.{place, zeros, zeros-InRange, iterated}
use april_ann.Matrix.Copy.{fill_loop-Ends}

product-snoc : (dim : List ℕ) (d : ℕ) → product (dim ++ d ∷ []) ≡ product dim * d
product-snoc [] d = omega arith
product-snoc (x ∷ dim) d = rw (product-snoc dim d) (omega arith)

row_rank-snoc :
    (dim coords : List ℕ) (d c : ℕ)
    → InRange dim coords
    → row_rank (dim ++ d ∷ []) (coords ++ c ∷ []) ≡ row_rank dim coords * d + c
row_rank-snoc [] [] d c r = omega arith
row_rank-snoc (x ∷ dim) (y ∷ coords) d c r =
    rw (row_rank-snoc dim coords d c r.1, product-snoc dim d) (omega arith)
row_rank-snoc [] (y ∷ coords) d c r = absurd r
row_rank-snoc (x ∷ dim) [] d c r = absurd r

InRange-snoc :
    (dim coords : List ℕ) (d c : ℕ)
    → InRange dim coords
    → c < d
    → InRange (dim ++ d ∷ []) (coords ++ c ∷ [])
InRange-snoc [] [] d c r h = (h, tt)
InRange-snoc (x ∷ dim) (y ∷ coords) d c r h = (r.0, InRange-snoc dim coords d c r.1 h)
InRange-snoc [] (y ∷ coords) d c r h = absurd r
InRange-snoc (x ∷ dim) [] d c r h = absurd r

reverse-cons : (x : ℕ) (xs : List ℕ) → reverse (x ∷ xs) ≡ reverse xs ++ x ∷ []
reverse-cons x xs = reverse-append (x ∷ []) xs

product-reverse : (dim : List ℕ) → product (reverse dim) ≡ product dim
product-reverse [] = refl
product-reverse (d ∷ dim) =
    rw (reverse-cons d dim, product-snoc (reverse dim) d, product-reverse dim) (omega arith)

InRange-reverse :
    (dim coords : List ℕ) → InRange dim coords → InRange (reverse dim) (reverse coords)
InRange-reverse [] [] r = tt
InRange-reverse (d ∷ dim) (c ∷ coords) r =
    rw (reverse-cons d dim, reverse-cons c coords)
      (InRange-snoc (reverse dim) (reverse coords) d c (InRange-reverse dim coords r.1) r.0)
InRange-reverse [] (y ∷ coords) r = absurd r
InRange-reverse (x ∷ dim) [] r = absurd r

-- The row order of the reversed dimensions is the column order.
row_rank-reverse :
    (dim coords : List ℕ)
    → InRange dim coords
    → row_rank (reverse dim) (reverse coords) ≡ col_rank dim coords
row_rank-reverse [] [] r = refl
row_rank-reverse (d ∷ dim) (c ∷ coords) r =
    rw
      (
        reverse-cons d dim,
        reverse-cons c coords,
        row_rank-snoc (reverse dim) (reverse coords) d c (InRange-reverse dim coords r.1),
        row_rank-reverse dim coords r.1,
      )
      (omega arith)
row_rank-reverse [] (y ∷ coords) r = absurd r
row_rank-reverse (x ∷ dim) [] r = absurd r

col_rank-zeros : (dim : List ℕ) → col_rank dim (zeros dim) ≡ 0
col_rank-zeros [] = refl
col_rank-zeros (d ∷ dim) = rw (col_rank-zeros dim) (omega arith)

-- The coordinates that `nextCoordVectorColOrder` reaches from the first ones.
walk-col :
    (dim : List ℕ) (k : ℕ)
    → 0 < length dim
    → 0 < product dim
    → k < product dim
    → let coords = iterated k (λ aux. (next_coord_vector_col_order dim aux).0) (zeros dim) in
      InRange dim coords × (col_rank dim coords ≡ k)
walk-col dim zero l h p = (zeros-InRange dim h, col_rank-zeros dim)
walk-col dim (suc k) l h p =
    let (inside, ranked) = walk-col dim k l h (omega arith) in
    let coords = iterated k (λ aux. (next_coord_vector_col_order dim aux).0) (zeros dim) in
    let (inside', on, over) = next_col_correct dim coords l inside in
    (inside', omega (arith, ranked, on (omega arith)))

walk-col_reaches :
    (dim coords : List ℕ)
    → 0 < length dim
    → InRange dim coords
    → iterated (col_rank dim coords) (λ aux. (next_coord_vector_col_order dim aux).0) (zeros dim)
      ≡ coords
walk-col_reaches dim coords l r =
    let below = col_rank-lt dim coords r in
    let (inside, ranked) = walk-col dim (col_rank dim coords) l (omega arith) below in
    col_rank-injective dim _ coords inside r ranked

-- What `transpose` leaves: the sizes reversed, and each element at the reversed coordinates.
pub record Transposed {T : Type 0} (m : Matrix) (block : ℕ → T) (r : Matrix × (ℕ → T))
    : Type 0 where
  pub laid : IsLaid r.0
  pub sizes : r.0.matrix_size ≡ reverse m.matrix_size
  pub elements :
      (coords : List ℕ)
      → InRange m.matrix_size coords
      → r.1 (place r.0 (reverse coords)) ≡ block (place m coords)

-- `transpose` of a matrix of any layout, sub-matrices included, ends, where the constructor of the
-- result does not exit, with the sizes reversed and each element at its reversed coordinates.
pub transpose_correct :
    {T : Type 0} (blank : T) (m resul : Matrix) (block : ℕ → T)
    → IsLaid m
    → 0 < length m.matrix_size
    → 0 < product m.matrix_size
    → make (reverse m.matrix_size) m.row_major ≡ some resul
    → Ends (Transposed m block) (transpose blank m block)
unfolding transpose
transpose_correct blank m resul block laid l h e =
    let dim = m.matrix_size in
    let (own, sizes, at) =
      make_correct (reverse dim) m.row_major resul (rw (product-reverse dim) h) e in
    let some_size : 0 < product resul.matrix_size =
      omega (arith, ap product sizes, product-reverse dim) in
    let (r, f, done) = Ends-inv (
      fill_loop-Ends resul own (λ coords. block (compute_raw_pos m coords))
        (λ coords. (next_coord_vector_col_order dim coords).0) (zeros dim) (λ _. blank)
        some_size) in
    rw (e, f, transpose)
      (ends (record {
        laid = own;
        sizes = sizes;
        elements = λ coords q.
            let inside =
              subst (λ x. InRange x (reverse coords)) (sym sizes) (InRange-reverse dim coords q) in
            let ranked =
              ap (λ x. row_rank x (reverse coords)) sizes ∙ row_rank-reverse dim coords q in
            let next = λ (aux : List ℕ). (next_coord_vector_col_order dim aux).0 in
            done.filled (reverse coords) inside (omega arith)
            ∙ ap (λ k. block (compute_raw_pos m (iterated k next (zeros dim)))) ranked
            ∙ ap (λ c. block (compute_raw_pos m c)) (walk-col_reaches dim coords l q)
            ∙ ap block (laid.linear coords q);
      }))
