-- ===== src/Matrix/Copy.antt =====
-- matrix.h: the loops that copy the elements of one matrix into another, and the copy constructor.
use april_ann.Prelude.{
  ℕ, zero, suc, ◌+◌, ◌≤◌, ◌<◌, ◌≡◌, ◌≢◌, true, List, arith, refl, ap, ◌∙◌, Bool-cases, inl, inr,
  ◌==◌,
}
use mathlib.Core.Path.{subst}
use april_ann.Prelude.Array.{update}
use april_ann.Prelude.Loop.{Ends, ends, Ends-map, Ends-inv}
use april_ann.Matrix.{Matrix, Iterator, initialize, begin, advance, at_end, fill_loop, clone}
use april_ann.Matrix.Rank.{InRange, product, row_rank, row_rank-lt, row_rank-injective}
use april_ann.Matrix.Layout.{IsLaid, initialize-IsLaid}
use april_ann.Matrix.Iterate.{
  Standing-before_end, place, Standing, iterated, visits_in_order, advance-Standing, begin-Standing,
  at_end_of,
}

module _ {T S : Type 0} (m : Matrix) (laid : IsLaid m) (read : S → T) (next : S → S) (s0 : S) where
  -- What the loop over a matrix leaves, from the element of rank `k` on: each element has what the
  -- source read in its turn, and nothing else has changed.
  pub record Filled (k : ℕ) (before after : ℕ → T) : Type 0 where
    pub filled :
        (coords : List ℕ)
        → InRange m.matrix_size coords
        → k ≤ row_rank m.matrix_size coords
        → after (place m coords) ≡ read (iterated (row_rank m.matrix_size coords) next s0)
    pub framed :
        (p : ℕ)
        → ((coords : List ℕ)
            → InRange m.matrix_size coords
            → k ≤ row_rank m.matrix_size coords
            → p ≢ place m coords)
        → after p ≡ before p

  fill_step :
      (k : ℕ) (it : Iterator) (before after : ℕ → T)
      → Standing m it k
      → Filled (suc k) (update before it.raw_pos (read (iterated k next s0))) after
      → Filled k before after
  fill_step k it before after s f =
      let dim = m.matrix_size in
      record {
        filled = λ coords r h. elim (Bool-cases (row_rank dim coords == k)) [
          | inl e ↦
              let at : row_rank dim coords ≡ k = ground arith in
              let same : coords ≡ s.coords =
                row_rank-injective dim coords s.coords r s.inside (omega (arith, s.ranked)) in
              let kept = f.framed it.raw_pos λ other q g t.
                let twin : other ≡ s.coords =
                  laid.distinct other s.coords q s.inside (omega (arith, s.raw)) in
                absurd (omega (arith, s.ranked, ap (row_rank dim) twin)) in
              rw (at, same, ← s.raw, kept) (ground arith)
          | inr e ↦ f.filled coords r (ground arith)
        ];
        framed = λ p away.
            let off : p ≢ it.raw_pos =
              λ t. away s.coords s.inside (omega (arith, s.ranked)) (t ∙ s.raw) in
            f.framed p (λ coords r h. away coords r (omega arith)) ∙ ground arith;
      }

  fill_from :
      (fuel n k : ℕ) (before : ℕ → T) (it : Iterator)
      → k + n ≡ product m.matrix_size
      → n < fuel
      → (0 < n → Standing m it k)
      → (n ≡ 0 → it.raw_pos ≡ m.last_raw_pos + 1)
      → Ends (Filled k before) (fill_loop m read next fuel (iterated k next s0) before it)
  unfolding fill_loop
  fill_from zero n k before it e f s t = absurd (omega arith)
  fill_from (suc fuel) zero k before it e f s t =
      let stop : at_end m it ≡ true = at_end_of m it (t refl) in
      rw stop (
        ends (record {
          filled = λ coords r h. absurd (omega (arith, row_rank-lt m.matrix_size coords r));
          framed = λ p away. refl;
        }))
  fill_from (suc fuel) (suc n) k before it e f s t =
      let here = s (omega arith) in
      let (further, end) = advance-Standing m laid it k here in
      rw (Standing-before_end m laid it k here) (
        Ends-map
          (fill_from fuel n (suc k) (update before it.raw_pos (read (iterated k next s0)))
            (advance m it) (omega arith) (omega arith)
            (λ h. subst (λ j. Standing m (advance m it) j) (omega arith) (further (omega arith)))
            (λ h. end (omega arith)))
          λ after done. fill_step k it before after here done)

  -- A loop over all of a matrix ends, with everything filled.
  pub fill_loop-Ends :
      (before : ℕ → T)
      → 0 < product m.matrix_size
      → Ends (Filled 0 before) (fill_loop m read next (m.total_size + 1) s0 before (begin m))
  fill_loop-Ends before h =
      fill_from (m.total_size + 1) (product m.matrix_size) 0 before (begin m) (omega arith)
        (omega (arith, laid.total)) (λ p. begin-Standing m laid h) (λ p. absurd (omega arith))

-- The iterator after as many steps as the rank of some coordinates stands at their element.
pub raw_pos-iterated :
    (m : Matrix) (coords : List ℕ)
    → IsLaid m
    → InRange m.matrix_size coords
    → (iterated (row_rank m.matrix_size coords) (advance m) (begin m)).raw_pos ≡ place m coords
raw_pos-iterated m coords laid r =
    let dim = m.matrix_size in
    let below = row_rank-lt dim coords r in
    let s = ((visits_in_order m (row_rank dim coords) laid (omega arith)).0 below).0 in
    let same : s.coords ≡ coords = row_rank-injective dim s.coords coords s.inside r s.ranked in
    s.raw ∙ ap (place m) same

-- What a copy leaves: a matrix of the same sizes with the same element at all coordinates.
pub record Cloned {T : Type 0} (other : Matrix) (block : ℕ → T) (r : Matrix × (ℕ → T))
    : Type 0 where
  pub laid : IsLaid r.0
  pub sizes : r.0.matrix_size ≡ other.matrix_size
  pub elements :
      (coords : List ℕ)
      → InRange other.matrix_size coords
      → r.1 (place r.0 coords) ≡ block (place other coords)

-- The copy constructor ends, on a matrix of any layout, with a matrix that owns its block, has the
-- same sizes and the same element at all coordinates.
pub clone_correct :
    {T : Type 0} (fresh : ℕ → T) (other : Matrix) (block : ℕ → T)
    → IsLaid other
    → 0 < product other.matrix_size
    → Ends (Cloned other block) (clone fresh other block)
unfolding clone initialize
clone_correct fresh other block laid h =
    let dim = other.matrix_size in
    let m = initialize dim other.row_major in
    let own = initialize-IsLaid dim other.row_major h in
    let (r, e, done) = Ends-inv (
      fill_loop-Ends m own (λ (it : Iterator). block it.raw_pos) (advance other) (begin other) fresh
        h) in
    rw (e, clone)
      (ends (record {
        laid = own;
        sizes = refl;
        elements = λ coords q.
            done.filled coords q (omega arith) ∙ ap block (raw_pos-iterated other coords laid q);
      }))
