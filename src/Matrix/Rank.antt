-- ===== src/Matrix/Rank.antt =====
-- matrix.h: coordinates in range, and their rank in row order and in column order.
use april_ann.Prelude.{
  ℕ, ◌+◌, ◌*◌, ◌≤◌, ◌<◌, ◌≡◌, List, [], ◌∷◌, arith, refl, ap, sym, Bool-cases, inl, inr, ltb,
}

-- One coordinate for each dimension, below its size.
abbrev pub InRange : List ℕ → List ℕ → Type 0
InRange [] [] = Unit {0}
InRange (d ∷ dim) (c ∷ coords) = (c < d) × InRange dim coords
InRange _ _ = ⊥

abbrev pub product : List ℕ → ℕ
product [] = 1
product (d ∷ dim) = d * product dim

-- The place of some coordinates when all are counted off with the last one running fastest.
abbrev pub row_rank : List ℕ → List ℕ → ℕ
row_rank (d ∷ dim) (c ∷ coords) = c * product dim + row_rank dim coords
row_rank _ _ = 0

-- The same with the first one running fastest.
abbrev pub col_rank : List ℕ → List ℕ → ℕ
col_rank (d ∷ dim) (c ∷ coords) = c + d * col_rank dim coords
col_rank _ _ = 0

pub product_pos : (dim coords : List ℕ) → InRange dim coords → 0 < product dim
product_pos [] [] r = omega arith
product_pos (d ∷ dim) (c ∷ coords) r =
    let p = product_pos dim coords r.1 in let q : 0 < d = omega arith in grind arith
product_pos [] (c ∷ coords) r = absurd r
product_pos (d ∷ dim) [] r = absurd r

pub row_rank-lt : (dim coords : List ℕ) → InRange dim coords → row_rank dim coords < product dim
row_rank-lt [] [] r = omega arith
row_rank-lt (d ∷ dim) (c ∷ coords) r =
    let ih = row_rank-lt dim coords r.1 in let q : c < d = r.0 in grind arith
row_rank-lt [] (c ∷ coords) r = absurd r
row_rank-lt (d ∷ dim) [] r = absurd r

pub col_rank-lt : (dim coords : List ℕ) → InRange dim coords → col_rank dim coords < product dim
col_rank-lt [] [] r = omega arith
col_rank-lt (d ∷ dim) (c ∷ coords) r =
    let ih = col_rank-lt dim coords r.1 in let q : c < d = r.0 in grind arith
col_rank-lt [] (c ∷ coords) r = absurd r
col_rank-lt (d ∷ dim) [] r = absurd r

digits_le : (p a b x y : ℕ) → x < p → y < p → a * p + x ≡ b * p + y → a ≤ b
digits_le p a b x y hx hy e = elim (Bool-cases (ltb b a)) [
  | inl h ↦
      let more : b + 1 ≤ a = ground arith in
      let scaled : (b + 1) * p ≤ a * p = grind arith in absurd (omega arith)
  | inr h ↦ ground arith
]

-- A number below `p` and a multiple of `p` are known from their sum.
pub digits_unique : (p a b x y : ℕ) → x < p → y < p → a * p + x ≡ b * p + y → (a ≡ b) × (x ≡ y)
digits_unique p a b x y hx hy e =
    let same : a ≡ b =
      omega (arith, digits_le p a b x y hx hy e, digits_le p b a y x hy hx (sym e)) in
    (same, omega (arith, ap (λ t. t * p) same))

pub row_rank-injective :
    (dim a b : List ℕ) → InRange dim a → InRange dim b → row_rank dim a ≡ row_rank dim b → a ≡ b
row_rank-injective [] [] [] r q e = refl
row_rank-injective (d ∷ dim) (x ∷ a) (y ∷ b) r q e =
    let (head, tail) =
      digits_unique (product dim) x y (row_rank dim a) (row_rank dim b) (row_rank-lt dim a r.1)
        (row_rank-lt dim b q.1) e in
    let ih = row_rank-injective dim a b r.1 q.1 tail in cc
row_rank-injective [] (x ∷ a) b r q e = absurd r
row_rank-injective [] [] (y ∷ b) r q e = absurd q
row_rank-injective (d ∷ dim) [] b r q e = absurd r
row_rank-injective (d ∷ dim) (x ∷ a) [] r q e = absurd q

pub col_rank-injective :
    (dim a b : List ℕ) → InRange dim a → InRange dim b → col_rank dim a ≡ col_rank dim b → a ≡ b
col_rank-injective [] [] [] r q e = refl
col_rank-injective (d ∷ dim) (x ∷ a) (y ∷ b) r q e =
    let (tail, head) =
      digits_unique d (col_rank dim a) (col_rank dim b) x y r.0 q.0 (grind arith) in
    let ih = col_rank-injective dim a b r.1 q.1 tail in cc
col_rank-injective [] (x ∷ a) b r q e = absurd r
col_rank-injective [] [] (y ∷ b) r q e = absurd q
col_rank-injective (d ∷ dim) [] b r q e = absurd r
col_rank-injective (d ∷ dim) (x ∷ a) [] r q e = absurd q
