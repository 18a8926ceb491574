-- ===== src/Util/Context/Window.antt =====
-- What the window of packages/basics/util/c_src/context.h shows while elements are inserted.
use april_ann.Prelude.{
  ℕ, zero, suc, ◌+◌, ◌-◌, ◌<◌, ◌≡◌, refl, ap, true, false, Option, some, arith, ◌∙◌, Bool-cases,
  inl, inr, ltb,
}
use april_ann.Util.Context.{Context, move_down, append_elem, place_elem, insert, make}
use april_ann.Util.Context.Fill.{
  update_same, update_other, last_or_below, move_down_below, repeat_elem_inside,
  repeat_elem_outside,
}

module _ {A : Type 0} (x : ℕ → A) where
  -- A vector with room for `before + after + 1` shows what it should of the first `n` elements: the first
  -- one takes the place of those before it.
  abbrev pub Shows : ℕ → ℕ → ℕ → (ℕ → Option A) → Type 0
  Shows before after n vec =
      (i : ℕ)
      → 0 < n
      → i < before + after + 1
      → i < before + n
      → vec i ≡ some (x (i + (n - (after + 1)) - before))

  append_elem-Shows :
      (b a n : ℕ) (vec : ℕ → Option A)
      → Shows b a n vec
      → 0 < n
      → Shows b a (suc n) (append_elem b a n vec (x n))
  unfolding append_elem
  append_elem-Shows b a n vec h pos i _ room used = elim (Bool-cases (ltb (b + n) (b + a + 1))) [
    | inl free ↦ rw free (elim (last_or_below i (b + n) (omega arith)) [
      | inl e ↦ update_same vec (b + n) (some (x n)) i e ∙ ap (λ k. some (x k)) (ground arith)
      | inr below ↦
          update_other vec (b + n) (some (x n)) i (inl below)
          ∙ h i pos room below
          ∙ ap (λ k. some (x k)) (ground arith)
    ])
    | inr full ↦ rw full (elim (last_or_below i (b + a) (omega arith)) [
      | inl e ↦
          update_same (move_down (b + a) vec) (b + a) (some (x n)) i e
          ∙ ap (λ k. some (x k)) (ground arith)
      | inr below ↦
          update_other (move_down (b + a) vec) (b + a) (some (x n)) i (inl below)
          ∙ move_down_below (b + a) vec i below
          ∙ h (i + 1) pos (omega arith) (ground arith)
          ∙ ap (λ k. some (x k)) (ground arith)
    ])
  ]

  first : (b a : ℕ) (vec : ℕ → Option A) → append_elem b a 0 vec (x 0) b ≡ some (x 0)
  unfolding append_elem
  first b a vec = elim (Bool-cases (ltb (b + 0) (b + a + 1))) [
    | inl free ↦ rw free (update_same vec (b + 0) (some (x 0)) b (omega arith))
    | inr full ↦ absurd (ground arith)
  ]

  place_elem-Shows :
      (b a n : ℕ) (vec : ℕ → Option A)
      → Shows b a n vec
      → Shows b a (suc n) (place_elem b a n vec (x n))
  unfolding place_elem
  place_elem-Shows b a zero vec h i pos room used = elim (last_or_below i b (omega arith)) [
    | inl e ↦
        repeat_elem_outside b 0 b (append_elem b a 0 vec (x 0)) i (inr (omega arith))
        ∙ ap (append_elem b a 0 vec (x 0)) e
        ∙ first b a vec
        ∙ ap (λ k. some (x k)) (omega arith)
    | inr below ↦
        repeat_elem_inside b 0 b (append_elem b a 0 vec (x 0)) i (inr (omega arith)) (omega arith)
          (omega arith)
        ∙ first b a vec
        ∙ ap (λ k. some (x k)) (omega arith)
  ]
  place_elem-Shows b a (suc n) vec h i pos room used =
      append_elem-Shows b a (suc n) vec h (omega arith) i pos room used

  -- The window before the end of the input.
  pub record IsWindow (c : Context A) : Type 0 where
    pub still_open : c.is_ended ≡ false
    pub unshifted : c.num_shifts ≡ 0
    pub shown : Shows c.before c.after c.num_inserts c.vec

  pub make-IsWindow : (before after : ℕ) → IsWindow (make before after)
  unfolding make
  make-IsWindow before after = record {
    still_open = refl;
    unshifted = refl;
    shown = λ i pos room used. absurd (omega arith);
  }

  -- While the input lasts, inserting its next element succeeds, and the window goes on to show what
  -- surrounds its current element, where what would come before the first element is the first.
  pub insert-IsWindow :
      (c : Context A)
      → IsWindow c
      → ((insert c (x c.num_inserts)).0 ≡ true) × IsWindow (insert c (x c.num_inserts)).1
  unfolding insert
  insert-IsWindow c o = rw (o.still_open) (
    refl,
    record {
      still_open = refl;
      unshifted = o.unshifted;
      shown = λ i pos room used.
          place_elem-Shows c.before c.after c.num_inserts c.vec o.shown i (omega arith) room
            (omega arith)
          ∙ ap (λ n. some (x (i + (n - (c.after + 1)) - c.before))) (omega arith);
    },
  )
