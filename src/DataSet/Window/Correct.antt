-- ===== src/DataSet/Window/Correct.antt =====
-- dataset.cc: what `MatrixDataSet::getPattern` puts into the vector.
use april_ann.Prelude.{
  ℕ, suc, ◌+◌, ◌*◌, ◌<◌, ◌≤◌, ◌≡◌, ◌⊎◌, arith, refl, ap, ◌∙◌, true, List, [], ◌∷◌, length, set,
  get_elem?, length-set, none, some, map,
}
use april_ann.Prelude.Int.{ℤ, pos, ◌+ℤ◌, ◌*ℤ◌}
use april_ann.DataSet.Window.{
  Axis, MatrixDataSet, Filling, repeat, aux_get_pattern, width, corner, index2coordinate,
  window_get, rem_ℤ, quot_ℤ,
}
use april_ann.DataSet.Window.Repeat.{WroteAll, repeat-WroteAll}
use april_ann.DataSet.Window.Steps.{InSteps, IsOrder, stepped, steps_index, index2coordinate_lem}
use april_ann.DataSet.Window.Shown.{
  InWindow, position, shown, Agrees, element, round, Shows, round-Wrote, last-Shows, position_below,
}

module _ {T : Type 0} (default_value : T) (elements : ℕ → T) where
  next_inside :
      (x y : Axis) (rest : List Axis) (c : ℤ) (cs : List ℤ) (above : ℕ) (o o' : Filling T)
      → WroteAll
          (InWindow (y ∷ rest))
          (position (y ∷ rest))
          (width (y ∷ rest))
          x.sub_matrix_size
          (λ i ks.
            element default_value elements
              (x ∷ y ∷ rest)
              above
              (shown (x ∷ y ∷ rest) (c ∷ cs) (i ∷ ks)))
          o
          o'
      → (ks : List ℕ) → InWindow (x ∷ y ∷ rest) ks
      → o'.pattern (o.offsetpat + position (x ∷ y ∷ rest) ks)
        ≡ element default_value elements (x ∷ y ∷ rest) above (shown (x ∷ y ∷ rest) (c ∷ cs) ks)
  unfolding position
  next_inside x y rest c cs above o o' all [] l = absurd (omega arith)
  next_inside x y rest c cs above o o' all (k ∷ ks) (l, l') = all.inside k ks l l'

  -- The head of the list, for the index that has been computed above it.
  abbrev pub HeadAgrees : List Axis → ℕ → Type 0
  HeadAgrees (x ∷ y ∷ rest) above = x.circular ≡ true → above * y.dim_size ≡ above * x.dim_size
  HeadAgrees _ above = 0 < 1

  Agrees-HeadAgrees : (axes : List Axis) (above : ℕ) → Agrees axes → HeadAgrees axes above
  Agrees-HeadAgrees [] above h = omega arith
  Agrees-HeadAgrees (x ∷ []) above h = omega arith
  Agrees-HeadAgrees (x ∷ y ∷ rest) above (h, _) = λ on. ap (λ n. above * n) (h on)

  abbrev pub TailAgrees : List Axis → Type 0
  TailAgrees [] = 0 < 1
  TailAgrees (x ∷ rest) = Agrees rest

  Agrees-TailAgrees : (axes : List Axis) → Agrees axes → TailAgrees axes
  Agrees-TailAgrees [] h = omega arith
  Agrees-TailAgrees (x ∷ []) h = omega arith
  Agrees-TailAgrees (x ∷ y ∷ rest) (_, h) = h

  aux_get_pattern-Shows :
      (axes : List Axis) (cs : List ℤ) (above : ℕ) (o : Filling T)
      → length cs ≡ length axes
      → 0 < length axes
      → HeadAgrees axes above
      → TailAgrees axes
      → Shows default_value elements axes cs above o
          (aux_get_pattern default_value elements axes cs above o)
  unfolding aux_get_pattern width shown
  aux_get_pattern-Shows [] cs above o e n h t = absurd (omega arith)
  aux_get_pattern-Shows (x ∷ axes) [] above o e n h t = absurd (omega arith)
  aux_get_pattern-Shows (x ∷ []) (c ∷ cs) above o e n h t =
      last-Shows default_value elements x c cs above o
  aux_get_pattern-Shows (x ∷ y ∷ rest) (c ∷ cs) above o e n h t =
      let body : ℕ → Filling T → Filling T =
        λ i o'. round default_value elements x y rest cs above (c +ℤ pos i) o' in
      let all =
        repeat-WroteAll (InWindow (y ∷ rest)) (position (y ∷ rest)) (width (y ∷ rest))
          (λ i ks.
            element default_value elements (x ∷ y ∷ rest) above
              (shown (x ∷ y ∷ rest) (c ∷ cs) (i ∷ ks)))
          x.sub_matrix_size body o (position_below (y ∷ rest))
          (λ i l o'.
            round-Wrote default_value elements x y rest cs above (c +ℤ pos i) o' h (λ a o''.
              aux_get_pattern-Shows (y ∷ rest) cs (above * x.dim_size + a) o'' (omega arith)
                (omega arith) (Agrees-HeadAgrees (y ∷ rest) (above * x.dim_size + a) t)
                (Agrees-TailAgrees (y ∷ rest) t))) in
      record {
        length = all.length;
        inside = next_inside x y rest c cs above o (repeat x.sub_matrix_size body o) all;
        outside = all.outside;
      }

  length-index2coordinate :
      (axes : List Axis) (order : List ℕ) (cs : List ℤ) (index : ℤ)
      → length (index2coordinate axes order cs index) ≡ length cs
  unfolding index2coordinate
  length-index2coordinate axes [] cs index = refl
  length-index2coordinate axes (j ∷ order) cs index =
      elim (get_elem? axes j)
        as (λ o.
          length (elim o [
            | none ↦ index2coordinate axes order cs index
            | some x ↦
                index2coordinate axes order
                  (set cs j (x.offset +ℤ (rem_ℤ index x.num_steps *ℤ x.step)))
                  (quot_ℤ index x.num_steps)
          ])
          ≡ length cs) [
            | none ↦ length-index2coordinate axes order cs index
            | some x ↦
                length-index2coordinate axes order
                  (set cs j (x.offset +ℤ (rem_ℤ index x.num_steps *ℤ x.step)))
                  (quot_ℤ index x.num_steps)
                ∙ length-set cs j (x.offset +ℤ (rem_ℤ index x.num_steps *ℤ x.step))
          ]

  length-origin : (axes : List Axis) → length (map (λ x. pos 0) axes) ≡ length axes
  length-origin [] = refl
  length-origin (x ∷ axes) = ap suc (length-origin axes)

  head_zero : (axes : List Axis) → HeadAgrees axes 0
  head_zero [] = omega arith
  head_zero (x ∷ []) = omega arith
  head_zero (x ∷ y ∷ rest) = λ on. omega arith

  corner_lem :
      (w : MatrixDataSet T) (ns : List ℕ)
      → InSteps w.axes ns
      → IsOrder w.axes w.order_step
      → corner w (pos (steps_index w.axes ns w.order_step)) ≡ stepped w.axes ns
  corner_lem w ns steps order =
      index2coordinate_lem w.axes ns w.order_step (map (λ x. pos 0) w.axes) steps order
        (length-origin w.axes)
        (length-index2coordinate w.axes w.order_step (map (λ x. pos 0) w.axes)
          (pos (steps_index w.axes ns w.order_step)))

  -- For a matrix of at least one dimension, let `ns` be numbers of steps, in each dimension below its
  -- numSteps, and the index the number that counts them, the first dimension of orderStep fastest, where
  -- orderStep has every dimension once. Reading the pattern at that index returns the pattern size and fills
  -- the vector, in row-major order, with what the window shows whose corner is `ns` steps from the offset:
  -- the element at the row-major place of the coordinates, wrapped around in circular dimensions, and the
  -- default value outside. It writes nothing else. Every circular dimension but the first and the last is
  -- assumed to be as long as the dimension behind it.
  pub window_get_correct :
      (w : MatrixDataSet T) (ns : List ℕ) (pat : ℕ → T) (p : ℕ)
      → 0 < length w.axes
      → TailAgrees w.axes
      → IsOrder w.axes w.order_step
      → InSteps w.axes ns
      → let r =
          window_get default_value elements w (pos (steps_index w.axes ns w.order_step)) pat p in
        (r.0 ≡ w.pattern_sizev)
        × ((ks : List ℕ)
            → InWindow w.axes ks
            → r.1 (p + position w.axes ks)
              ≡ element default_value elements w.axes 0 (shown w.axes (stepped w.axes ns) ks))
        × ((j : ℕ) → (j < p) ⊎ (p + width w.axes ≤ j) → r.1 j ≡ pat j)
  unfolding window_get
  window_get_correct w ns pat p some_axis tail order steps =
      let index : ℤ = pos (steps_index w.axes ns w.order_step) in
      let all =
        aux_get_pattern-Shows w.axes (corner w index) 0 (record { pattern = pat; offsetpat = p })
          (length-index2coordinate w.axes w.order_step (map (λ x. pos 0) w.axes) index
            ∙ length-origin w.axes)
          some_axis (head_zero w.axes) tail in
      (
        refl,
        λ ks l.
            all.inside ks l
            ∙ ap (λ cs. element default_value elements w.axes 0 (shown w.axes cs ks))
                (corner_lem w ns steps order),
        all.outside,
      )
