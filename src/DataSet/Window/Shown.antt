-- ===== src/DataSet/Window/Shown.antt =====
-- dataset.cc: what a window of a matrix shows, and one round of `auxGetPattern`.
use april_ann.Prelude.{
  ℕ, ◌+◌, ◌*◌, ◌<◌, ◌≡◌, inl, inr, arith, refl, Bool-cases, ap, ◌∙◌, true, List, [], ◌∷◌, Option,
  none, some, if◌then◌else◌,
}
use april_ann.Prelude.Int.{ℤ, pos, ◌+ℤ◌, pos_part}
use april_ann.Prelude.Loop.{◌>>=◌}
use april_ann.DataSet.Window.{
  Axis, Filling, append, repeat, cell, aux_get_pattern, width, mod_ℤ, is_out,
}
use april_ann.DataSet.Window.Repeat.{
  Wrote, WroteAll, repeat-WroteAll, append-Wrote, row_below, Wrote-cong, Wrote-of-ones,
}

-- `ks` are places in the window, one for each dimension.
abbrev pub InWindow : List Axis → List ℕ → Type 0
InWindow (x ∷ []) (k ∷ []) = k < x.sub_matrix_size
InWindow (x ∷ y ∷ rest) (k ∷ ks) = (k < x.sub_matrix_size) × InWindow (y ∷ rest) ks
InWindow _ _ = 1 < 0

-- Where the value for `ks` stands in the pattern.
unfoldable pub position : List Axis → List ℕ → ℕ
position (x ∷ xs) (k ∷ ks) = k * width xs + position xs ks
position _ _ = 0

-- The coordinate of the matrix that `c` stands for; `none` is outside.
abbrev pub wrapped : Axis → ℤ → Option ℕ
wrapped x c =
    if x.circular
    then some (mod_ℤ c x.dim_size)
    else if is_out c x.dim_size
    then none
    else some (pos_part c)

-- The position in row-major order, behind `above` earlier dimensions.
unfoldable pub row_place : List Axis → List ℕ → ℕ → ℕ
row_place (x ∷ xs) (a ∷ rest) above = row_place xs rest (above * x.dim_size + a)
row_place _ _ above = above

-- The coordinates of the matrix that the window shows at `ks`.
unfoldable pub shown : List Axis → List ℤ → List ℕ → Option (List ℕ)
shown (x ∷ xs) (c ∷ cs) (k ∷ ks) =
    let rest = shown xs cs ks in wrapped x (c +ℤ pos k) >>= λ a. rest >>= λ found. some (a ∷ found)
shown _ _ _ = some []

-- A circular dimension in front of another is as long as that one.
abbrev pub Agrees : List Axis → Type 0
Agrees (x ∷ y ∷ rest) = (x.circular ≡ true → y.dim_size ≡ x.dim_size) × Agrees (y ∷ rest)
Agrees _ = 0 < 1

pub position_below :
    (axes : List Axis) (ks : List ℕ) → InWindow axes ks → position axes ks < width axes
unfolding position width
position_below [] ks h = absurd (omega arith)
position_below (x ∷ []) [] h = absurd (omega arith)
position_below (x ∷ []) (k ∷ []) h = omega arith
position_below (x ∷ []) (k ∷ k' ∷ ks) h = absurd (omega arith)
position_below (x ∷ y ∷ rest) [] h = absurd (omega arith)
position_below (x ∷ y ∷ rest) (k ∷ ks) (l, h) =
    row_below k x.sub_matrix_size (width (y ∷ rest)) (position (y ∷ rest) ks) l
      (position_below (y ∷ rest) ks h)

module _ {T : Type 0} (default_value : T) (elements : ℕ → T) where
  -- The element at those coordinates, and the default value outside.
  abbrev pub element : List Axis → ℕ → Option (List ℕ) → T
  element axes above none = default_value
  element axes above (some found) = elements (row_place axes found above)

  cell_lem :
      (x : Axis) (c : ℤ) (above : ℕ)
      → cell default_value elements x c above
        ≡ element (x ∷ []) above (wrapped x c >>= λ a. some (a ∷ []))
  unfolding row_place
  cell_lem x c above = elim (Bool-cases x.circular) [
    | inl on ↦ rw on refl
    | inr off ↦ elim (Bool-cases (is_out c x.dim_size)) [
      | inl outside ↦ rw (off, outside) refl
      | inr inside ↦ rw (off, inside) refl
    ]
  ]

  element_next :
      (x y : Axis) (rest : List Axis) (above a : ℕ) (o : Option (List ℕ))
      → element (y ∷ rest) (above * x.dim_size + a) o
        ≡ element (x ∷ y ∷ rest) above (o >>= λ found. some (a ∷ found))
  unfolding row_place
  element_next x y rest above a none = refl
  element_next x y rest above a (some found) = refl

  -- One round of the loop over a dimension that is not the last.
  abbrev pub round : Axis → Axis → List Axis → List ℤ → ℕ → ℤ → Filling T → Filling T
  round x y rest cs above c o =
      if x.circular
      then aux_get_pattern default_value elements (y ∷ rest) cs
          (above * y.dim_size + mod_ℤ c x.dim_size) o
      else if is_out c x.dim_size
      then repeat (width (y ∷ rest)) (λ _ o'. append default_value o') o
      else aux_get_pattern default_value elements (y ∷ rest) cs (above * x.dim_size + pos_part c) o

  -- What a call for `axes` leaves.
  abbrev pub Shows : List Axis → List ℤ → ℕ → Filling T → Filling T → Type 0
  Shows axes cs above =
      Wrote (InWindow axes) (position axes) (width axes)
        (λ ks. element axes above (shown axes cs ks))

  defaults-Wrote :
      {A : Type 0} (In : A → Type 0) (at : A → ℕ) (w : ℕ) (o : Filling T)
      → ((k : A) → In k → at k < w)
      → Wrote In at w (λ k. default_value) o (repeat w (λ _ o'. append default_value o') o)
  defaults-Wrote In at w o below =
      let all =
        repeat-WroteAll (λ q. q < 1) (λ q. q) 1 (λ i q. default_value) w
          (λ _ o'. append default_value o') o (λ k l. l) (λ i l x. append-Wrote default_value x) in
      Wrote-of-ones In at w o (repeat w (λ _ o'. append default_value o') o) (λ i. default_value)
        below all

  pub round-Wrote :
      (x y : Axis) (rest : List Axis) (cs : List ℤ) (above : ℕ) (c : ℤ) (o : Filling T)
      → (x.circular ≡ true → above * y.dim_size ≡ above * x.dim_size)
      → ((a : ℕ) (o' : Filling T)
          → Shows
              (y ∷ rest)
              cs
              (above * x.dim_size + a)
              o'
              (aux_get_pattern default_value elements (y ∷ rest) cs (above * x.dim_size + a) o'))
      → Wrote
          (InWindow (y ∷ rest))
          (position (y ∷ rest))
          (width (y ∷ rest))
          (λ ks.
            element
              (x ∷ y ∷ rest)
              above
              (wrapped x c >>= λ a. shown (y ∷ rest) cs ks >>= λ found. some (a ∷ found)))
          o
          (round x y rest cs above c o)
  unfolding row_place
  round-Wrote x y rest cs above c o agrees ih = elim (Bool-cases x.circular) [
    | inl on ↦
        rw (on, agrees on)
          (Wrote-cong
            (λ ks. element_next x y rest above (mod_ℤ c x.dim_size) (shown (y ∷ rest) cs ks))
            (ih (mod_ℤ c x.dim_size) o))
    | inr off ↦ elim (Bool-cases (is_out c x.dim_size)) [
      | inl outside ↦
          rw (off, outside)
            (defaults-Wrote (InWindow (y ∷ rest)) (position (y ∷ rest)) (width (y ∷ rest)) o
              (position_below (y ∷ rest)))
      | inr inside ↦
          rw (off, inside)
            (Wrote-cong (λ ks. element_next x y rest above (pos_part c) (shown (y ∷ rest) cs ks))
              (ih (pos_part c) o))
    ]
  ]

  last_inside :
      (x : Axis) (c : ℤ) (cs : List ℤ) (above : ℕ) (o o' : Filling T)
      → WroteAll
          (λ q. q < 1)
          (λ q. q)
          1
          x.sub_matrix_size
          (λ i q. cell default_value elements x (c +ℤ pos i) above)
          o
          o'
      → (ks : List ℕ) → InWindow (x ∷ []) ks
      → o'.pattern (o.offsetpat + position (x ∷ []) ks)
        ≡ element (x ∷ []) above (shown (x ∷ []) (c ∷ cs) ks)
  unfolding width position shown
  last_inside x c cs above o o' all [] l = absurd (omega arith)
  last_inside x c cs above o o' all (k ∷ []) l =
      ap o'.pattern {x = o.offsetpat + (k * 1 + 0)} refl
      ∙ all.inside k 0 l (omega arith)
      ∙ cell_lem x (c +ℤ pos k) above
  last_inside x c cs above o o' all (k ∷ k' ∷ ks) l = absurd (omega arith)

  Wrote-last :
      (x : Axis) (c : ℤ) (cs : List ℤ) (above : ℕ) (o o' : Filling T)
      → WroteAll
          (λ q. q < 1)
          (λ q. q)
          1
          x.sub_matrix_size
          (λ i q. cell default_value elements x (c +ℤ pos i) above)
          o
          o'
      → Shows (x ∷ []) (c ∷ cs) above o o'
  unfolding width position shown
  Wrote-last x c cs above o o' all = record {
    length = omega (arith, all.length);
    inside = last_inside x c cs above o o' all;
    outside = λ j l. all.outside j (elim l [ inl p ↦ inl p | inr q ↦ inr (omega arith) ]);
  }

  pub last-Shows :
      (x : Axis) (c : ℤ) (cs : List ℤ) (above : ℕ) (o : Filling T)
      → Shows
          (x ∷ [])
          (c ∷ cs)
          above
          o
          (aux_get_pattern default_value elements (x ∷ []) (c ∷ cs) above o)
  unfolding aux_get_pattern width position shown
  last-Shows x c cs above o =
      Wrote-last x c cs above o
        (repeat x.sub_matrix_size
          (λ i o'. append (cell default_value elements x (c +ℤ pos i) above) o') o)
        (repeat-WroteAll (λ q. q < 1) (λ q. q) 1
          (λ i q. cell default_value elements x (c +ℤ pos i) above) x.sub_matrix_size
          (λ i o'. append (cell default_value elements x (c +ℤ pos i) above) o') o (λ k l. l)
          (λ i l o'. append-Wrote (cell default_value elements x (c +ℤ pos i) above) o'))
