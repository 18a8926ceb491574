-- ===== src/Util/Context/Fill.antt =====
-- The loops over the vector of packages/basics/util/c_src/context.h.
use april_ann.Prelude.{
  ℕ, zero, suc, ◌+◌, ◌≤◌, ◌<◌, ◌≡◌, refl, ap, Option, arith, ◌==◌, ◌∙◌, Bool-cases, inl, inr, ◌⊎◌,
}
use april_ann.Prelude.Array.{update}
use april_ann.Util.Context.{move_down, repeat_elem}

module _ {A : Type 0} where
  pub update_same : (a : ℕ → A) (i : ℕ) (v : A) (j : ℕ) → j ≡ i → update a i v j ≡ v
  update_same a i v j e = ground arith

  pub update_other : (a : ℕ → A) (i : ℕ) (v : A) (j : ℕ) → (j < i) ⊎ (i < j) → update a i v j ≡ a j
  update_other a i v j (inl h) = ground arith
  update_other a i v j (inr h) = ground arith

pub last_or_below : (i n : ℕ) → i < suc n → (i ≡ n) ⊎ (i < n)
last_or_below i n h = elim (Bool-cases (i == n)) [
  | inl e ↦ inl (ground arith)
  | inr e ↦ inr (ground arith)
]

module _ {A : Type 0} where
  pub move_down_above : (n : ℕ) (vec : ℕ → Option A) (i : ℕ) → n ≤ i → move_down n vec i ≡ vec i
  unfolding move_down
  move_down_above zero vec i h = refl
  move_down_above (suc n) vec i h =
      update_other (move_down n vec) n (move_down n vec (n + 1)) i (inr (omega arith))
      ∙ move_down_above n vec i (omega arith)

  pub move_down_below :
      (n : ℕ) (vec : ℕ → Option A) (i : ℕ) → i < n → move_down n vec i ≡ vec (i + 1)
  unfolding move_down
  move_down_below zero vec i h = absurd (omega arith)
  move_down_below (suc n) vec i h = elim (last_or_below i n h) [
    | inl e ↦
        update_same (move_down n vec) n (move_down n vec (n + 1)) i e
        ∙ move_down_above n vec (n + 1) (omega arith)
        ∙ ap (λ k. vec k) (omega arith)
    | inr below ↦
        update_other (move_down n vec) n (move_down n vec (n + 1)) i (inl below)
        ∙ move_down_below n vec i below
  ]

  -- Outside what it fills, the loop changes nothing.
  pub repeat_elem_outside :
      (source from n : ℕ) (vec : ℕ → Option A) (i : ℕ)
      → (i < from) ⊎ (from + n ≤ i)
      → repeat_elem source from n vec i ≡ vec i
  unfolding repeat_elem
  repeat_elem_outside source from zero vec i h = refl
  repeat_elem_outside source from (suc n) vec i h =
      update_other (repeat_elem source from n vec) (from + n) (repeat_elem source from n vec source)
        i (ground arith)
      ∙ repeat_elem_outside source from n vec i (ground arith)

  pub repeat_elem_inside :
      (source from n : ℕ) (vec : ℕ → Option A) (i : ℕ)
      → (source < from) ⊎ (from + n ≤ source)
      → from ≤ i
      → i < from + n
      → repeat_elem source from n vec i ≡ vec source
  unfolding repeat_elem
  repeat_elem_inside source from zero vec i s h h' = absurd (omega arith)
  repeat_elem_inside source from (suc n) vec i s h h' =
      elim (last_or_below i (from + n) (omega arith)) [
        | inl e ↦
            update_same (repeat_elem source from n vec) (from + n)
              (repeat_elem source from n vec source) i e
            ∙ repeat_elem_outside source from n vec source (ground arith)
        | inr below ↦
            update_other (repeat_elem source from n vec) (from + n)
              (repeat_elem source from n vec source) i (inl below)
            ∙ repeat_elem_inside source from n vec i (ground arith) h below
      ]
