-- ===== src/Matrix/Columns.antt =====
-- matrix.h: `getCol`, `putCol` and `putSubCol`.
use april_ann.Prelude.{
  ℕ, zero, suc, ◌+◌, ◌≤◌, ◌<◌, ◌≡◌, ◌≢◌, ◌⊎◌, Bool, true, false, [], ◌∷◌, ◌&&◌, not, arith, refl,
  ap, sym, ◌∙◌, ltb, leb, ◌==◌, if◌then◌else◌, length, get_or, Bool-cases, inl, inr,
}
use mathlib.Core.Path.{subst}
use april_ann.Prelude.Array.{update}
use april_ann.Prelude.Int.{ℤ, pos, pos_part, neg_part, ltb_ℤ}
use april_ann.Matrix.{Matrix, compute_raw_pos}
use april_ann.Matrix.Rank.{InRange}
use april_ann.Matrix.Layout.{IsLaid}

-- The guards that `getCol` and `putCol` share.
unfoldable pub is_col : Matrix → ℤ → ℕ → Bool
is_col m col vecsize =
    length m.matrix_size == 2
    && (not (ltb_ℤ col (pos 0))
        && (ltb_ℤ col (pos (get_or m.matrix_size 1 0)) && vecsize == get_or m.matrix_size 0 0))

module _ {T : Type 0} where
  -- The loop of `getCol` over the rows from `row` on, with `n` rows left.
  unfoldable pub get_rows : Matrix → (ℕ → T) → ℕ → ℕ → ℕ → (ℕ → T) → ℕ → T
  get_rows m block col zero row vec = vec
  get_rows m block col (suc n) row vec =
      get_rows m block col n (row + 1) (update vec row (block (compute_raw_pos m (row ∷ col ∷ []))))

  unfoldable pub get_col : Matrix → (ℕ → T) → ℤ → (ℕ → T) → ℕ → Bool × (ℕ → T)
  get_col m block col vec vecsize =
      if is_col m col vecsize
      then (true, get_rows m block (pos_part col) (get_or m.matrix_size 0 0) 0 vec)
      else (false, vec)

  -- The loop of `putCol` over the rows from `row` on, with `n` rows left; also that of `putSubCol`.
  unfoldable pub put_rows : Matrix → (ℕ → T) → ℕ → ℕ → ℕ → (ℕ → T) → ℕ → T
  put_rows m block col zero row vec = block
  put_rows m block col (suc n) row vec =
      put_rows m (update block (compute_raw_pos m (row ∷ col ∷ [])) (vec row)) col n (row + 1) vec

  unfoldable pub put_col : Matrix → (ℕ → T) → ℤ → (ℕ → T) → ℕ → Bool × (ℕ → T)
  put_col m block col vec vecsize =
      if is_col m col vecsize
      then (true, put_rows m block (pos_part col) (get_or m.matrix_size 0 0) 0 vec)
      else (false, block)

  -- Row `row` is written from `vec[row]`, counted from the top of the matrix.
  unfoldable pub put_sub_col : Matrix → (ℕ → T) → ℤ → ℤ → (ℕ → T) → ℕ → Bool × (ℕ → T)
  put_sub_col m block col first_row vec vecsize =
      let rows = get_or m.matrix_size 0 0 in
      if length m.matrix_size == 2
        && (not (ltb_ℤ col (pos 0))
            && (ltb_ℤ col (pos (get_or m.matrix_size 1 0))
                && (not (ltb_ℤ first_row (pos 0))
                    && (ltb_ℤ first_row (pos rows) && leb (pos_part first_row + vecsize) rows))))
      then (true, put_rows m block (pos_part col) vecsize (pos_part first_row) vec)
      else (false, block)

get_rows_lem :
    {T : Type 0} (m : Matrix) (block : ℕ → T) (col n row : ℕ) (vec : ℕ → T) (i : ℕ)
    → get_rows m block col n row vec i
      ≡ (if leb row i && ltb i (row + n) then block (compute_raw_pos m (i ∷ col ∷ [])) else vec i)
unfolding get_rows
get_rows_lem m block col zero row vec i = ground arith
get_rows_lem m block col (suc n) row vec i =
    get_rows_lem m block col n (row + 1)
      (update vec row (block (compute_raw_pos m (row ∷ col ∷ [])))) i
    ∙ elim (Bool-cases (row == i)) [
      | inl e ↦ let same : row ≡ i = ground arith in rw same (ground arith)
      | inr e ↦ ground arith
    ]

module _ (m : Matrix) (d0 d1 : ℕ) (laid : IsLaid m) (sizes : m.matrix_size ≡ d0 ∷ d1 ∷ []) where
  -- no two elements share a place
  raw_distinct :
      (r c r' c' : ℕ)
      → r < d0
      → c < d1
      → r' < d0
      → c' < d1
      → compute_raw_pos m (r ∷ c ∷ []) ≡ compute_raw_pos m (r' ∷ c' ∷ [])
      → (r ≡ r') × (c ≡ c')
  raw_distinct r c r' c' h1 h2 h3 h4 e =
      let in1 : InRange m.matrix_size (r ∷ c ∷ []) =
        subst (λ x. InRange x (r ∷ c ∷ [])) (sym sizes) (h1, (h2, tt)) in
      let in2 : InRange m.matrix_size (r' ∷ c' ∷ []) =
        subst (λ x. InRange x (r' ∷ c' ∷ [])) (sym sizes) (h3, (h4, tt)) in
      let same =
        laid.distinct (r ∷ c ∷ []) (r' ∷ c' ∷ []) in1 in2
          (omega (arith, e, laid.linear _ in1, laid.linear _ in2)) in
      (cc, cc)

  put_rows_lem :
      {T : Type 0} (block : ℕ → T) (col n row : ℕ) (vec : ℕ → T)
      → col < d1
      → row + n ≤ d0
      → (i j : ℕ) → i < d0
      → j < d1
      → put_rows m block col n row vec (compute_raw_pos m (i ∷ j ∷ [])) ≡ (
          if j == col && (leb row i && ltb i (row + n))
          then vec i
          else block (compute_raw_pos m (i ∷ j ∷ [])))
  unfolding put_rows
  put_rows_lem block col zero row vec hc hn i j hi hj = ground arith
  put_rows_lem block col (suc n) row vec hc hn i j hi hj =
      put_rows_lem (update block (compute_raw_pos m (row ∷ col ∷ [])) (vec row)) col n (row + 1) vec
        hc (omega arith) i j hi hj
      ∙ elim (Bool-cases (row == i && col == j)) [
        | inl e ↦
            let same_row : row ≡ i = ground arith in
            let same_col : col ≡ j = ground arith in rw (same_row, same_col) (ground arith)
        | inr e ↦
            let apart : compute_raw_pos m (row ∷ col ∷ []) ≢ compute_raw_pos m (i ∷ j ∷ []) =
              λ t. let (a, b) = raw_distinct row col i j (omega arith) hc hi hj t in ground arith in
            ground arith
      ]

  is_col-true : (col : ℕ) → col < d1 → is_col m (pos col) d0 ≡ true
  unfolding is_col
  is_col-true col h =
      let two : length m.matrix_size ≡ 2 = ap length sizes in
      let cols : get_or m.matrix_size 1 0 ≡ d1 = ap (λ x. get_or x 1 0) sizes in
      let rows : get_or m.matrix_size 0 0 ≡ d0 = ap (λ x. get_or x 0 0) sizes in ground arith

  rows_of : get_or m.matrix_size 0 0 ≡ d0
  rows_of = ap (λ x. get_or x 0 0) sizes

  -- On a matrix of two dimensions `putCol` of a column in range, with a vector of as many values as
  -- there are rows, answers true. It writes that column, and no element of another; `getCol` of the
  -- same column then answers true and gives the vector back.
  pub put_col_correct :
      {T : Type 0} (block : ℕ → T) (col : ℕ) (vec out : ℕ → T)
      → col < d1
      → let (done, after) = put_col m block (pos col) vec d0 in
        (done ≡ true)
        × ((i j : ℕ)
            → i < d0
            → j < d1
            → after (compute_raw_pos m (i ∷ j ∷ []))
              ≡ (if j == col then vec i else block (compute_raw_pos m (i ∷ j ∷ []))))
        × ((get_col m after (pos col) out d0).0 ≡ true)
        × ((i : ℕ) → i < d0 → (get_col m after (pos col) out d0).1 i ≡ vec i)
  unfolding put_col get_col
  put_col_correct block col vec out h =
      let open_col : is_col m (pos col) d0 ≡ true = is_col-true col h in
      let after = put_rows m block col d0 0 vec in
      let written = λ (i j : ℕ) (p : i < d0) (q : j < d1).
        put_rows_lem block col d0 0 vec h (omega arith) i j p q in
      rw (open_col, rows_of)
        (
          refl,
          (λ i j p q. written i j p q ∙ ground arith),
          refl,
          λ i p. get_rows_lem m after col d0 0 out i ∙ ground (arith, written i col p h),
        )

  -- `putSubCol` of a part of a column that lies in the matrix answers true and writes that part
  -- alone. The value for a row is taken from the vector at the row's number in the matrix, not at
  -- its number in the part: the values used are those from the first row's number on.
  pub put_sub_col_correct :
      {T : Type 0} (block : ℕ → T) (col first_row : ℕ) (vec : ℕ → T) (vecsize : ℕ)
      → col < d1
      → first_row < d0
      → first_row + vecsize ≤ d0
      → let (done, after) = put_sub_col m block (pos col) (pos first_row) vec vecsize in
        (done ≡ true)
        × ((i j : ℕ)
            → i < d0
            → j < d1
            → after (compute_raw_pos m (i ∷ j ∷ [])) ≡ (
                if j == col && (leb first_row i && ltb i (first_row + vecsize))
                then vec i
                else block (compute_raw_pos m (i ∷ j ∷ []))))
  unfolding put_sub_col
  put_sub_col_correct block col first_row vec vecsize h f g =
      let two : length m.matrix_size ≡ 2 = ap length sizes in
      let cols : get_or m.matrix_size 1 0 ≡ d1 = ap (λ x. get_or x 1 0) sizes in
      let accepted : (length m.matrix_size == 2
            && (not (ltb_ℤ (pos col) (pos 0))
                && (ltb_ℤ (pos col) (pos (get_or m.matrix_size 1 0))
                    && (not (ltb_ℤ (pos first_row) (pos 0))
                        && (ltb_ℤ (pos first_row) (pos (get_or m.matrix_size 0 0))
                            && leb (first_row + vecsize) (get_or m.matrix_size 0 0))))))
          ≡ true =
        ground (arith, rows_of) in
      rw accepted (refl, λ i j p q. put_rows_lem block col vecsize first_row vec h g i j p q)

is_col-false :
    (m : Matrix) (col : ℤ) (vecsize : ℕ)
    → (length m.matrix_size ≢ 2)
      ⊎ ((0 < neg_part col)
          ⊎ ((get_or m.matrix_size 1 0 ≤ pos_part col) ⊎ (vecsize ≢ get_or m.matrix_size 0 0)))
    → is_col m col vecsize ≡ false
unfolding is_col
is_col-false m col vecsize h = ground arith

-- `getCol` and `putCol` answer false, and change nothing, when the matrix does not have two
-- dimensions, the column is negative or too large, or the vector has not one value for each row.
pub col_refused :
    {T : Type 0} (m : Matrix) (block vec : ℕ → T) (col : ℤ) (vecsize : ℕ)
    → (length m.matrix_size ≢ 2)
      ⊎ ((0 < neg_part col)
          ⊎ ((get_or m.matrix_size 1 0 ≤ pos_part col) ⊎ (vecsize ≢ get_or m.matrix_size 0 0)))
    → (get_col m block col vec vecsize ≡ (false, vec))
      × (put_col m block col vec vecsize ≡ (false, block))
unfolding get_col put_col
col_refused m block vec col vecsize h = rw (is_col-false m col vecsize h) (refl, refl)
