-- ===== src/Matrix/Iterate.antt =====
-- matrix.h: an iterator visits each element once, in row order, and the loops over it fill a matrix.
use april_ann.Prelude.{
  ℕ, zero, suc, ◌+◌, ◌*◌, ◌<◌, ◌≡◌, true, false, not, ◌||◌, List, [], ◌∷◌, arith, refl, length,
  Bool-cases, inl, inr, replicate,
}
use mathlib.Core.Path.{subst}
use april_ann.Matrix.{Matrix, Iterator, dot, next_coord_vector_row_order, begin, advance, at_end}
use april_ann.Matrix.Rank.{InRange, product, row_rank}
use april_ann.Matrix.Layout.{IsLaid}
use april_ann.Matrix.Coords.{next_row_correct}

-- The place of an element in the block.
abbrev pub place : Matrix → List ℕ → ℕ
place m coords = dot m.stride coords + m.offset

-- The iterator stands at the element of rank `k`.
pub record Standing (m : Matrix) (it : Iterator) (k : ℕ) : Type 0 where
  pub coords : List ℕ
  pub inside : InRange m.matrix_size coords
  pub ranked : row_rank m.matrix_size coords ≡ k
  pub raw : it.raw_pos ≡ place m coords
  pub tracked : (m.is_submatrix || not m.row_major) ≡ true → it.coords ≡ coords

factors_pos : (a b : ℕ) → 0 < a * b → (0 < a) × (0 < b)
factors_pos zero b h = absurd (omega arith)
factors_pos (suc a) zero h = absurd (omega arith)
factors_pos (suc a) (suc b) h = omega arith

-- The coordinates at which every walk starts.
abbrev pub zeros : List ℕ → List ℕ
zeros dim = replicate (length dim) 0

pub zeros-InRange : (dim : List ℕ) → 0 < product dim → InRange dim (zeros dim)
zeros-InRange [] h = tt
zeros-InRange (d ∷ dim) h = let (p, q) = factors_pos d (product dim) h in (p, zeros-InRange dim q)

pub row_rank-zeros : (dim : List ℕ) → row_rank dim (zeros dim) ≡ 0
row_rank-zeros [] = refl
row_rank-zeros (d ∷ dim) = omega (arith, row_rank-zeros dim)

dot-zeros : (dim stride : List ℕ) → dot stride (zeros dim) ≡ 0
dot-zeros [] [] = refl
dot-zeros [] (s ∷ stride) = refl
dot-zeros (d ∷ dim) [] = refl
dot-zeros (d ∷ dim) (s ∷ stride) = omega (arith, dot-zeros dim stride)

module _ (m : Matrix) (laid : IsLaid m) where
  pub begin-Standing : 0 < product m.matrix_size → Standing m (begin m) 0
  unfolding begin
  begin-Standing h = record {
    coords = zeros m.matrix_size;
    inside = zeros-InRange m.matrix_size h;
    ranked = row_rank-zeros m.matrix_size;
    raw = omega (arith, dot-zeros m.matrix_size m.stride);
    tracked = λ e. refl;
  }

  -- `operator++` moves on by one element, and from the last one to the end.
  pub advance-Standing :
      (it : Iterator) (k : ℕ)
      → Standing m it k
      → (k + 1 < product m.matrix_size → Standing m (advance m it) (k + 1))
        × (k + 1 ≡ product m.matrix_size → (advance m it).raw_pos ≡ m.last_raw_pos + 1)
  unfolding advance
  advance-Standing it k s =
      let dim = m.matrix_size in
      let (inside, on, over) = next_row_correct dim s.coords s.inside in
      let next = (next_coord_vector_row_order dim s.coords).0 in
      elim (Bool-cases (m.is_submatrix || not m.row_major)) [
        | inl e ↦
            rw (e, s.tracked e)
              (
                (λ h.
                    let (more, ranked) = on (rw s.ranked h) in
                    record {
                      coords = next;
                      inside = inside;
                      ranked = rw (ranked, s.ranked) refl;
                      raw = rw more (laid.linear next inside);
                      tracked = λ t. refl;
                    }),
                λ h. rw (over (rw s.ranked h)).0 refl,
              )
        | inr e ↦
            let (plain, start, end) = laid.plain (ground arith) (ground arith) in
            rw e (
              (λ h.
                  let (more, ranked) = on (rw s.ranked h) in
                  record {
                    coords = next;
                    inside = inside;
                    ranked = rw (ranked, s.ranked) refl;
                    raw = omega (
                      arith,
                      s.raw,
                      s.ranked,
                      plain s.coords s.inside,
                      plain next inside,
                      ranked,
                    );
                    tracked = λ t. absurd (ground arith);
                  }),
              λ h. omega (arith, s.raw, s.ranked, plain s.coords s.inside, end),
            )
      ]

  pub Standing-before_end : (it : Iterator) (k : ℕ) → Standing m it k → at_end m it ≡ false
  unfolding at_end
  Standing-before_end it k s = ground (arith, s.raw, laid.last s.coords s.inside)

pub at_end_of : (m : Matrix) (it : Iterator) → it.raw_pos ≡ m.last_raw_pos + 1 → at_end m it ≡ true
unfolding at_end
at_end_of m it h = ground arith

-- A function applied `n` times.
abbrev pub iterated : {S : Type 0} → ℕ → (S → S) → S → S
iterated zero f s = s
iterated (suc n) f s = f (iterated n f s)

-- `begin`, moved on `k` times, stands at the element of rank `k` in row order as long as there is
-- one, and is then not at the end; moved on once for each element it is at the end. This holds for
-- sub-matrices and for matrices in column order too.
pub visits_in_order :
    (m : Matrix) (k : ℕ)
    → IsLaid m
    → 0 < product m.matrix_size
    → (k < product m.matrix_size
        → Standing m (iterated k (advance m) (begin m)) k
          × (at_end m (iterated k (advance m) (begin m)) ≡ false))
      × (k ≡ product m.matrix_size → at_end m (iterated k (advance m) (begin m)) ≡ true)
visits_in_order m zero laid h =
    let start = begin-Standing m laid h in
    ((λ p. (start, Standing-before_end m laid (begin m) 0 start)), λ p. absurd (omega arith))
visits_in_order m (suc k) laid h =
    let (on, over) = visits_in_order m k laid h in
    let it = iterated k (advance m) (begin m) in
    (
      (λ p.
          let (further, end) = advance-Standing m laid it k (on (omega arith)).0 in
          let next : Standing m (advance m it) (suc k) =
            subst (λ j. Standing m (advance m it) j) (omega arith) (further (omega arith)) in
          (next, Standing-before_end m laid (advance m it) (suc k) next)),
      λ p.
          let (further, end) = advance-Standing m laid it k (on (omega arith)).0 in
          let there : (advance m it).raw_pos ≡ m.last_raw_pos + 1 = end (omega arith) in
          at_end_of m (advance m it) there,
    )
