-- ===== src/DataSet/Window/Steps.antt =====
-- dataset.cc: the numbers of steps that an index of `MatrixDataSet` stands for.
use mathlib.Core.Option.{some-injective}
use native.Mathlib.Nat.{add-mul-mod_self_left, mod-eq_of_lt, div-eq_of_lt-le}
use april_ann.Prelude.{
  ℕ, zero, suc, ◌+◌, ◌*◌, ◌/◌, ◌%◌, ◌<◌, ◌≤◌, ◌≡◌, arith, refl, sym, ap, ◌∙◌, false, ◌==◌,
  if◌then◌else◌, Option-cases, ltb, Bool-cases, inl, inr, List, [], ◌∷◌, length, set, get_elem?,
  get_elem?-set_same, get_elem?-set_other, get_elem?-ext, length-set, none, some,
}
use april_ann.Prelude.Int.{ℤ, pos, ◌+ℤ◌, ◌*ℤ◌}
use april_ann.DataSet.Window.{Axis, index2coordinate, downwards, rem_ℤ, quot_ℤ}

-- A number of steps in each dimension.
abbrev pub InSteps : List Axis → List ℕ → Type 0
InSteps [] [] = 0 < 1
InSteps (x ∷ axes) (n ∷ ns) = (n < x.num_steps) × InSteps axes ns
InSteps _ _ = 1 < 0

-- The corner of the window after those steps.
abbrev pub stepped : List Axis → List ℕ → List ℤ
stepped (x ∷ axes) (n ∷ ns) = (x.offset +ℤ (pos n *ℤ x.step)) ∷ stepped axes ns
stepped _ _ = []

-- The index counts the steps of the first dimension of the order fastest, then those of the next.
unfoldable pub steps_index : List Axis → List ℕ → List ℕ → ℕ
steps_index axes ns [] = 0
steps_index axes ns (j ∷ order) = elim (get_elem? axes j) [
  | none ↦ steps_index axes ns order
  | some x ↦ elim (get_elem? ns j) [
    | none ↦ 0
    | some n ↦ n + x.num_steps * steps_index axes ns order
  ]
]

-- How often a number is in a list.
unfoldable pub times : ℕ → List ℕ → ℕ
times j [] = 0
times j (i ∷ order) = (if i == j then 1 else 0) + times j order

-- The order has every dimension once.
abbrev pub IsOrder : List Axis → List ℕ → Type 0
IsOrder axes order = (j : ℕ) → j < length axes → times j order ≡ 1

split_mod : (n s q : ℕ) → n < s → (n + s * q) % s ≡ n
split_mod n s q h = add-mul-mod_self_left n s q ∙ mod-eq_of_lt h

bound_low : (n s q : ℕ) → q * s ≤ n + s * q
bound_low n s q = grind arith

bound_high : (n s q : ℕ) → n < s → n + s * q < (q + 1) * s
bound_high n s q h = grind arith

split_div : (n s q : ℕ) → n < s → (n + s * q) / s ≡ q
split_div n s q h = div-eq_of_lt-le s (bound_low n s q) (bound_high n s q h)

-- What the steps `ns` are in dimension `j`.
record Step (ns : List ℕ) (corner : List ℤ) (j : ℕ) (x : Axis) : Type 0 where
  number : ℕ
  found : get_elem? ns j ≡ some number
  below : number < x.num_steps
  at_corner : get_elem? corner j ≡ some (x.offset +ℤ (pos number *ℤ x.step))

Step-at :
    (axes : List Axis) (ns : List ℕ) (j : ℕ) (x : Axis)
    → InSteps axes ns
    → get_elem? axes j ≡ some x
    → Step ns (stepped axes ns) j x
Step-at [] ns j x h e = absurd (ground arith)
Step-at (y ∷ axes) [] j x h e = absurd (omega arith)
Step-at (y ∷ axes) (n ∷ ns) zero x (l, h) e =
    let same : y ≡ x = some-injective y x e in
    rw (sym same) (record { number = n; found = refl; below = l; at_corner = refl })
Step-at (y ∷ axes) (n ∷ ns) (suc j) x (l, h) e =
    let s = Step-at axes ns j x h e in
    record { number = s.number; found = s.found; below = s.below; at_corner = s.at_corner }

-- One round of `index2coordinate`.
skip_round :
    (axes : List Axis) (j : ℕ) (order : List ℕ) (cs : List ℤ) (index : ℤ)
    → get_elem? axes j ≡ none
    → index2coordinate axes (j ∷ order) cs index ≡ index2coordinate axes order cs index
unfolding index2coordinate
skip_round axes j order cs index e = rw (index2coordinate, e) refl

set_round :
    (axes : List Axis) (j : ℕ) (x : Axis) (order : List ℕ) (cs : List ℤ) (index : ℤ)
    → get_elem? axes j ≡ some x
    → index2coordinate axes (j ∷ order) cs index
      ≡ index2coordinate axes order
          (set cs j (x.offset +ℤ (rem_ℤ index x.num_steps *ℤ x.step)))
          (quot_ℤ index x.num_steps)
unfolding index2coordinate
set_round axes j x order cs index e = rw (index2coordinate, e) refl

-- A dimension that is not in the order keeps its coordinate.
untouched :
    (axes : List Axis) (order : List ℕ) (cs : List ℤ) (index : ℤ) (j : ℕ)
    → times j order ≡ 0
    → get_elem? (index2coordinate axes order cs index) j ≡ get_elem? cs j
unfolding index2coordinate times
untouched axes [] cs index j h = refl
untouched axes (i ∷ order) cs index j h = elim (Option-cases (get_elem? axes i)) [
  | inl skipped ↦
      ap (λ xs. get_elem? xs j) (skip_round axes i order cs index skipped)
      ∙ untouched axes order cs index j (omega arith)
  | inr (y, e) ↦
      let cs' : List ℤ = set cs i (y.offset +ℤ (rem_ℤ index y.num_steps *ℤ y.step)) in
      ap (λ xs. get_elem? xs j) (set_round axes i y order cs index e)
      ∙ untouched axes order cs' (quot_ℤ index y.num_steps) j (omega arith)
      ∙ get_elem?-set_other cs i j (y.offset +ℤ (rem_ℤ index y.num_steps *ℤ y.step))
          (λ same. ground arith)
]

-- The round for a dimension with `n` steps, of an index that counts them.
step_round :
    (axes : List Axis) (ns : List ℕ) (i : ℕ) (y : Axis) (n : ℕ) (order : List ℕ) (cs : List ℤ)
    → get_elem? axes i ≡ some y
    → get_elem? ns i ≡ some n
    → n < y.num_steps
    → index2coordinate axes (i ∷ order) cs (pos (steps_index axes ns (i ∷ order)))
      ≡ index2coordinate axes order
          (set cs i (y.offset +ℤ (pos n *ℤ y.step)))
          (pos (steps_index axes ns order))
unfolding steps_index
step_round axes ns i y n order cs e found below =
    let index : ℕ = n + y.num_steps * steps_index axes ns order in
    let counted : steps_index axes ns (i ∷ order) ≡ index = rw (steps_index, e, found) refl in
    ap (λ k. index2coordinate axes (i ∷ order) cs (pos k)) counted
    ∙ set_round axes i y order cs (pos index) e
    ∙ rw
        (
          split_mod n y.num_steps (steps_index axes ns order) below,
          split_div n y.num_steps (steps_index axes ns order) below,
        )
        refl

skip_index :
    (axes : List Axis) (ns : List ℕ) (i : ℕ) (order : List ℕ)
    → get_elem? axes i ≡ none
    → steps_index axes ns (i ∷ order) ≡ steps_index axes ns order
unfolding steps_index
skip_index axes ns i order e = rw (steps_index, e) refl

other_dimension :
    (axes : List Axis) (i j : ℕ) (x : Axis)
    → get_elem? axes i ≡ none
    → get_elem? axes j ≡ some x
    → (i == j) ≡ false
other_dimension axes i j x e e' = elim (Bool-cases (i == j)) [
  | inl same ↦ let k : i ≡ j = ground arith in absurd (ground (arith, ap (λ a. get_elem? axes a) k))
  | inr other ↦ other
]

placed :
    (axes : List Axis) (ns : List ℕ) (order : List ℕ) (cs : List ℤ) (j : ℕ) (x : Axis)
    → InSteps axes ns
    → length cs ≡ length axes
    → j < length axes
    → times j order ≡ 1
    → get_elem? axes j ≡ some x
    → get_elem? (index2coordinate axes order cs (pos (steps_index axes ns order))) j
      ≡ get_elem? (stepped axes ns) j
unfolding times
placed axes ns [] cs j x h l q t e = absurd (omega arith)
placed axes ns (i ∷ order) cs j x h l q t e = elim (Option-cases (get_elem? axes i)) [
  | inl skipped ↦
      let other = other_dimension axes i j x skipped e in
      let left : times j order ≡ 1 = ground arith in
      ap (λ k. get_elem? (index2coordinate axes (i ∷ order) cs (pos k)) j)
        (skip_index axes ns i order skipped)
      ∙ ap (λ xs. get_elem? xs j)
          (skip_round axes i order cs (pos (steps_index axes ns order)) skipped)
      ∙ placed axes ns order cs j x h l q left e
  | inr (y, here) ↦
      let s = Step-at axes ns i y h here in
      let v : ℤ = y.offset +ℤ (pos s.number *ℤ y.step) in
      let once =
        ap (λ xs. get_elem? xs j) (step_round axes ns i y s.number order cs here s.found s.below) in
      elim (Bool-cases (i == j)) [
        | inl same ↦
            let k : i ≡ j = ground arith in
            let gone : times j order ≡ 0 = ground arith in
            once
            ∙ untouched axes order (set cs i v) (pos (steps_index axes ns order)) j gone
            ∙ ap (λ a. get_elem? (set cs i v) a) (sym k)
            ∙ get_elem?-set_same cs i v (omega arith)
            ∙ sym s.at_corner
            ∙ ap (λ a. get_elem? (stepped axes ns) a) k
        | inr other ↦
            let left : times j order ≡ 1 = ground arith in
            once ∙ placed axes ns order (set cs i v) j x h (length-set cs i v ∙ l) q left e
      ]
]

axis_at : (axes : List Axis) (j : ℕ) → j < length axes → (x : Axis) × (get_elem? axes j ≡ some x)
axis_at [] j h = absurd (omega arith)
axis_at (x ∷ axes) zero h = (x, refl)
axis_at (x ∷ axes) (suc j) h = axis_at axes j (omega arith)

length-stepped :
    (axes : List Axis) (ns : List ℕ) → InSteps axes ns → length (stepped axes ns) ≡ length axes
length-stepped [] [] h = refl
length-stepped [] (n ∷ ns) h = absurd (omega arith)
length-stepped (x ∷ axes) [] h = absurd (omega arith)
length-stepped (x ∷ axes) (n ∷ ns) (_, h) = ap suc (length-stepped axes ns h)

pub index2coordinate_lem :
    (axes : List Axis) (ns : List ℕ) (order : List ℕ) (cs : List ℤ)
    → InSteps axes ns
    → IsOrder axes order
    → length cs ≡ length axes
    → length (index2coordinate axes order cs (pos (steps_index axes ns order))) ≡ length cs
    → index2coordinate axes order cs (pos (steps_index axes ns order)) ≡ stepped axes ns
index2coordinate_lem axes ns order cs h o l l' =
    get_elem?-ext (index2coordinate axes order cs (pos (steps_index axes ns order)))
      (stepped axes ns) (l' ∙ l ∙ sym (length-stepped axes ns h))
      (λ j q.
        let inside : j < length axes = omega arith in
        let (x, e) = axis_at axes j inside in placed axes ns order cs j x h l inside (o j inside) e)

-- The constructor's order.
times-downwards : (n j : ℕ) → times j (downwards n) ≡ (if ltb j n then 1 else 0)
unfolding times downwards
times-downwards zero j = ground arith
times-downwards (suc n) j = ground (arith, times-downwards n j)

pub downwards-IsOrder : (axes : List Axis) → IsOrder axes (downwards (length axes))
downwards-IsOrder axes j h = times-downwards (length axes) j ∙ ground arith
