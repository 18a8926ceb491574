-- ===== src/Matrix/Coords.antt =====
-- matrix.h: the two functions that move a vector of coordinates on.
use april_ann.Prelude.{
  ℕ, ◌+◌, ◌*◌, ◌%◌, ◌≤◌, ◌<◌, ◌≡◌, Bool, true, false, List, [], ◌∷◌, arith, refl, ap, ◌⊎◌, length,
  Bool-cases, inl, inr, ◌==◌, ltb,
}
use native.Mathlib.Nat.{mod-eq_of_lt}
use april_ann.Matrix.{next_row, next_coord_vector_row_order, next_coord_vector_col_order}
use april_ann.Matrix.Rank.{InRange, product, row_rank, row_rank-lt, col_rank, col_rank-lt}

-- One coordinate moved on: to the next value, or from the last one to 0.
step_mod :
    (c d : ℕ) → c < d → ((c + 1 < d) × ((c + 1) % d ≡ c + 1)) ⊎ ((c + 1 ≡ d) × ((c + 1) % d ≡ 0))
step_mod c d h = elim (Bool-cases (ltb (c + 1) d)) [
  | inl e ↦ inl (ground arith, mod-eq_of_lt (ground arith))
  | inr e ↦ let whole : c + 1 ≡ d = ground arith in inr (whole, rw whole (grind arith))
]

-- The coordinates after `next_row`, and what its flag says.
abbrev RowStep : List ℕ → List ℕ → List ℕ × Bool → Type 0
RowStep sizes coords r =
    InRange sizes r.0
    × (r.1 ≡ false → row_rank sizes r.0 ≡ row_rank sizes coords + 1)
    × (r.1 ≡ true → (row_rank sizes coords + 1 ≡ product sizes) × (row_rank sizes r.0 ≡ 0))

next_row-RowStep :
    (sizes coords : List ℕ) → InRange sizes coords → RowStep sizes coords (next_row sizes coords)
unfolding next_row
next_row-RowStep [] [] r = (tt, (λ e. cc), λ e. (refl, refl))
next_row-RowStep (d ∷ sizes) (c ∷ coords) r =
    let (inside, on, over) = next_row-RowStep sizes coords r.1 in
    let p = product sizes in
    elim (Bool-cases (next_row sizes coords).1) [
      | inl e ↦ elim (step_mod c d r.0) [
        | inl (h, f) ↦
            let (full, zero_tail) = over e in
            rw (e, f) ((h, inside), (λ g. rw zero_tail (grind arith)), λ g. absurd (ground arith))
        | inr (h, f) ↦
            let (full, zero_tail) = over e in
            rw (e, f)
              (
                (omega arith, inside),
                (λ g. absurd (cc)),
                λ g. (rw (← h) (grind arith), omega arith),
              )
      ]
      | inr e ↦ rw e ((r.0, inside), (λ g. omega (arith, on e)), λ g. absurd (cc))
    ]
next_row-RowStep [] (c ∷ coords) r = absurd r
next_row-RowStep (d ∷ sizes) [] r = absurd r

-- `nextCoordVectorRowOrder` on coordinates in range gives coordinates in range. It returns true
-- exactly when they are not the last ones, and then the rank in row order grows by one; from the
-- last ones it goes back to the first.
pub next_row_correct :
    (sizes coords : List ℕ)
    → InRange sizes coords
    → let (coords', more) = next_coord_vector_row_order sizes coords in
      InRange sizes coords'
      × ((row_rank sizes coords + 1 < product sizes)
          → (more ≡ true) × (row_rank sizes coords' ≡ row_rank sizes coords + 1))
      × ((row_rank sizes coords + 1 ≡ product sizes)
          → (more ≡ false) × (row_rank sizes coords' ≡ 0))
unfolding next_coord_vector_row_order
next_row_correct sizes coords r =
    let (inside, on, over) = next_row-RowStep sizes coords r in
    let bound = row_rank-lt sizes (next_row sizes coords).0 inside in
    elim (Bool-cases (next_row sizes coords).1) [
      | inl e ↦ (inside, (λ h. absurd (omega (arith, over e))), λ h. (rw e refl, (over e).1))
      | inr e ↦ (inside, (λ h. (rw e refl, on e)), λ h. absurd (omega (arith, on e)))
    ]

abbrev ColStep : List ℕ → List ℕ → List ℕ × Bool → Type 0
ColStep sizes coords r =
    InRange sizes r.0
    × (col_rank sizes coords + 1 < product sizes → col_rank sizes r.0 ≡ col_rank sizes coords + 1)
    × (col_rank sizes coords + 1 ≡ product sizes → (col_rank sizes r.0 ≡ 0) × (r.1 ≡ false))

mul_le : (a b d : ℕ) → a ≤ b → a * d ≤ b * d
mul_le a b d h = grind arith

ne_zero : (c : ℕ) → (c + 1 == 0) ≡ false
ne_zero c = ground arith

-- One more dimension in front of coordinates that have moved on.
col_over :
    (d c q q' p : ℕ)
    → c + 1 ≡ d
    → (q + 1 < p → q' ≡ q + 1)
    → (c + d * q + 1 < d * p → d * q' ≡ c + d * q + 1)
col_over d c q q' p h on g = elim (Bool-cases (ltb (q + 1) p)) [
  | inl e ↦ rw (on (ground arith), ← h) (grind arith)
  | inr e ↦ absurd (omega (arith, mul_le p (q + 1) d (ground arith)))
]

col_last : (d c q p : ℕ) → c < d → c + d * q + 1 ≡ d * p → q < p → (c + 1 ≡ d) × (q + 1 ≡ p)
col_last d c q p h e l =
    let whole : c + 1 ≡ d = omega (arith, mul_le (q + 1) p d (omega arith)) in
    (
      whole,
      elim (Bool-cases (ltb (q + 1) p)) [
        | inl e' ↦ absurd (omega (arith, mul_le (q + 1 + 1) p d (ground arith)))
        | inr e' ↦ ground arith
      ],
    )

next_col-ColStep :
    (sizes coords : List ℕ)
    → 0 < length sizes
    → InRange sizes coords
    → ColStep sizes coords (next_coord_vector_col_order sizes coords)
unfolding next_coord_vector_col_order
next_col-ColStep [] coords l r = absurd (omega arith)
next_col-ColStep (d ∷ []) (c ∷ []) l r = elim (step_mod c d r.0) [
  | inl (h, f) ↦ rw f ((h, tt), (λ g. omega arith), λ g. absurd (omega arith))
  | inr (h, f) ↦ rw f ((omega arith, tt), (λ g. absurd (omega arith)), λ g. (omega arith, refl))
]
next_col-ColStep (d0 ∷ d1 ∷ []) (c0 ∷ c1 ∷ []) l r = elim (step_mod c0 d0 r.0) [
  | inl (h, f) ↦
      rw (f, ne_zero c0)
        (
          (h, r.1),
          (λ g. omega arith),
          λ g.
              absurd (omega (arith, (col_last d0 c0 (c1 + d1 * 0) (d1 * 1) r.0 g (omega arith)).0)),
        )
  | inr (h, f) ↦ elim (step_mod c1 d1 r.1.0) [
    | inl (h1, f1) ↦
        rw (f, f1)
          (
            (omega arith, (h1, tt)),
            (λ g. rw (← h) (grind arith)),
            λ g.
                absurd
                  (omega (arith, (col_last d0 c0 (c1 + d1 * 0) (d1 * 1) r.0 g (omega arith)).1)),
          )
    | inr (h1, f1) ↦
        rw (f, f1)
          (
            (omega arith, (omega arith, tt)),
            (λ g. absurd (omega (arith, ap (λ t. d0 * t) h1))),
            λ g. (omega arith, refl),
          )
  ]
]
next_col-ColStep (d0 ∷ d1 ∷ d2 ∷ sizes) (c0 ∷ c1 ∷ c2 ∷ coords) l r =
    let tail = c1 ∷ c2 ∷ coords in
    let dim = d1 ∷ d2 ∷ sizes in
    let (inside, on, over) =
      next_col-ColStep (d1 ∷ d2 ∷ sizes) (c1 ∷ c2 ∷ coords) (omega arith) r.1 in
    let below = col_rank-lt dim tail r.1 in
    elim (step_mod c0 d0 r.0) [
      | inl (h, f) ↦
          rw (f, ne_zero c0)
            (
              (h, r.1),
              (λ g. omega arith),
              λ g.
                  absurd (
                    omega
                      (arith, (col_last d0 c0 (col_rank dim tail) (product dim) r.0 g below).0)),
            )
      | inr (h, f) ↦ rw f (
        (omega arith, inside),
        (λ g. omega (
          arith,
          col_over d0 c0 (col_rank dim tail) (col_rank dim (next_coord_vector_col_order dim tail).0)
              (product dim) h on g,
        )),
        λ g.
            let (zeroed, flag) =
              over (col_last d0 c0 (col_rank dim tail) (product dim) r.0 g below).1 in
            (rw zeroed (omega arith), flag),
      )
    ]
next_col-ColStep (d ∷ sizes) [] l r = absurd r
next_col-ColStep (d ∷ []) (c ∷ c' ∷ coords) l r = absurd r.1
next_col-ColStep (d ∷ d' ∷ sizes) (c ∷ []) l r = absurd r.1
next_col-ColStep (d ∷ d' ∷ []) (c ∷ c' ∷ c'' ∷ coords) l r = absurd r.1.1
next_col-ColStep (d ∷ d' ∷ d'' ∷ sizes) (c ∷ c' ∷ []) l r = absurd r.1.1

-- `nextCoordVectorColOrder` on coordinates in range gives coordinates in range. If they are not the
-- last ones the rank in column order grows by one; from the last ones it goes back to the first
-- and returns false.
pub next_col_correct :
    (sizes coords : List ℕ)
    → 0 < length sizes
    → InRange sizes coords
    → let (coords', more) = next_coord_vector_col_order sizes coords in
      InRange sizes coords'
      × (col_rank sizes coords + 1 < product sizes
          → col_rank sizes coords' ≡ col_rank sizes coords + 1)
      × (col_rank sizes coords + 1 ≡ product sizes → (col_rank sizes coords' ≡ 0) × (more ≡ false))
next_col_correct sizes coords l r = next_col-ColStep sizes coords l r

-- With two dimensions `nextCoordVectorColOrder` also returns false, as if it had come back to the
-- start, when it has only moved the first coordinate on along the first column.
pub next_col_stops_early :
    (d0 d1 c0 : ℕ)
    → c0 + 1 < d0
    → 0 < d1
    → next_coord_vector_col_order (d0 ∷ d1 ∷ []) (c0 ∷ 0 ∷ []) ≡ ((c0 + 1) ∷ 0 ∷ [], false)
unfolding next_coord_vector_col_order
next_col_stops_early d0 d1 c0 h p =
    rw (mod-eq_of_lt {n = c0 + 1} {m = d0} (omega arith), ne_zero c0) refl
