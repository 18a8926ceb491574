-- ===== src/Util/Qsort/Permuted.antt =====
-- Arrays that differ by swaps inside a range, for packages/basics/util/c_src/qsort.h.
use april_ann.Prelude.{
  ℕ, ◌≤◌, ◌<◌, ◌≡◌, refl, ◌≢◌, true, false, arith, inl, inr, ◌==◌, Bool-cases, sym, ◌∙◌, ap, ==_iff,
}
use mathlib.Core.Path.{subst}
use april_ann.Util.Qsort.{swap}

module _ {ℓ} {T : Type ℓ} where
  -- The second array comes from the first by swaps of elements at positions from `low` to `high`.
  pub data Permuted (low high : ℕ) : (ℕ → T) → (ℕ → T) → Type ℓ where
    unchanged : {v w : ℕ → T} → ((i : ℕ) → v i ≡ w i) → Permuted low high v w
    swapped :
        {v w : ℕ → T} (i j : ℕ)
        → low ≤ i
        → i ≤ high
        → low ≤ j
        → j ≤ high
        → Permuted low high (swap v i j) w
        → Permuted low high v w

  pub swap_left : (v : ℕ → T) (i j : ℕ) → swap v i j i ≡ v j
  unfolding swap
  swap_left v i j = elim (Bool-cases (j == i)) [
    | inl at_i ↦ let e : j ≡ i = (==_iff j i).0 at_i in rw at_i (ap v (sym e))
    | inr other ↦ let e : (i == i) ≡ true = ground arith in rw (other, e) refl
  ]

  pub swap_right : (v : ℕ → T) (i j : ℕ) → swap v i j j ≡ v i
  unfolding swap
  swap_right v i j = let e : (j == j) ≡ true = ground arith in rw e refl

  pub swap_other : (v : ℕ → T) (i j k : ℕ) → k ≢ i → k ≢ j → swap v i j k ≡ v k
  unfolding swap
  swap_other v i j k h g =
      let e : (j == k) ≡ false = ground arith in
      let e' : (i == k) ≡ false = ground arith in rw (e, e') refl

  -- What holds of the elements before a swap holds of each after it.
  pub swap_all :
      (P : T → Type 0) (v : ℕ → T) (i j k : ℕ) → P (v i) → P (v j) → P (v k) → P (swap v i j k)
  swap_all P v i j k p q r = elim (Bool-cases (k == i)) [
    | inl at_i ↦
        let e : k ≡ i = (==_iff k i).0 at_i in
        subst (λ m. P (swap v i j m)) (sym e) (subst P (sym (swap_left v i j)) q)
    | inr not_i ↦ elim (Bool-cases (k == j)) [
      | inl at_j ↦
          let e : k ≡ j = (==_iff k j).0 at_j in
          subst (λ m. P (swap v i j m)) (sym e) (subst P (sym (swap_right v i j)) p)
      | inr not_j ↦ subst P (sym (swap_other v i j k (ground arith) (ground arith))) r
    ]
  ]

  module _ (low high : ℕ) where
    pub Permuted-refl : (v : ℕ → T) → Permuted low high v v
    Permuted-refl v = unchanged (λ i. refl)

    pub Permuted-swap :
        (v : ℕ → T) (i j : ℕ)
        → low ≤ i
        → i ≤ high
        → low ≤ j
        → j ≤ high
        → Permuted low high v (swap v i j)
    Permuted-swap v i j a b c d = swapped i j a b c d (Permuted-refl (swap v i j))

    -- Equal arrays have equal swaps.
    swap_cong :
        (u v : ℕ → T) (i j : ℕ) → ((k : ℕ) → u k ≡ v k) → (k : ℕ) → swap u i j k ≡ swap v i j k
    unfolding swap
    swap_cong u v i j h k = rw (h i, h j, h k) refl

    pub Permuted-start :
        {v w : ℕ → T}
        → Permuted low high v w
        → (u : ℕ → T) → ((k : ℕ) → u k ≡ v k)
        → Permuted low high u w
    Permuted-start (unchanged g) u h = unchanged (λ i. h i ∙ g i)
    Permuted-start {v = v} (swapped i j a b c d p) u h =
        swapped i j a b c d (Permuted-start p (swap u i j) (swap_cong u v i j h))

    pub Permuted-trans :
        {u v w : ℕ → T} → Permuted low high u v → Permuted low high v w → Permuted low high u w
    Permuted-trans {u = u} (unchanged h) q = Permuted-start q u h
    Permuted-trans (swapped i j a b c d p) q = swapped i j a b c d (Permuted-trans p q)

    pub Permuted-outside :
        {v w : ℕ → T} → Permuted low high v w → (k : ℕ) → (low ≤ k → high < k) → v k ≡ w k
    Permuted-outside (unchanged h) k out = h k
    Permuted-outside {v = v} (swapped i j a b c d p) k out =
        sym (swap_other v i j k (λ e. outside i a b e) (λ e. outside j c d e))
        ∙ Permuted-outside p k out
      where
        outside : (m : ℕ) → low ≤ m → m ≤ high → ¬ (k ≡ m)
        outside m l g e = let above : high < k = out (omega arith) in omega arith

    -- What holds of every element of the range holds afterwards.
    pub Permuted-all :
        (P : T → Type 0) {v w : ℕ → T}
        → Permuted low high v w
        → ((k : ℕ) → low ≤ k → k ≤ high → P (v k))
        → (k : ℕ) → low ≤ k
        → k ≤ high
        → P (w k)
    Permuted-all P (unchanged h) all = λ k a b. subst P (h k) (all k a b)
    Permuted-all P {v = v} (swapped i j a b c d p) all =
        Permuted-all P p (λ k l m. swap_all P v i j k (all i a b) (all j c d) (all k l m))

  pub Permuted-widen :
      (low high low' high' : ℕ) {v w : ℕ → T}
      → low' ≤ low
      → high ≤ high'
      → Permuted low high v w
      → Permuted low' high' v w
  Permuted-widen low high low' high' l h (unchanged g) = unchanged g
  Permuted-widen low high low' high' l h (swapped i j a b c d p) =
      swapped i j (omega arith) (omega arith) (omega arith) (omega arith)
        (Permuted-widen low high low' high' l h p)
