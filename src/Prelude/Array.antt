-- ===== src/Prelude/Array.antt =====
-- A block of memory as a function from positions to values. Which positions a program owns is a
-- field of its own, and staying inside it is stated beside the other properties.
use Prim.Native.Nat.{ℕ, zero, suc, ◌+◌, ◌-◌, ◌<◌, ◌≤◌}
use mathlib.Core.Path.{◌≡◌, refl}
use mathlib.Core.Bool.{Bool, false}
use native.Mathlib.Omega.{arith}
use april_ann.Prelude.Tests.{◌==◌, if◌then◌else◌, Bool-cases}
use mathlib.Core.Logic.{inl, inr}

module _ {ℓ} {A : Type ℓ} where
  -- `a[i] = v`
  abbrev pub update : (ℕ → A) → ℕ → A → ℕ → A
  update a i v j = if i == j then v else a j

  -- How many of the values at 1, …, n pass a test.
  unfoldable pub count : (A → Bool) → (ℕ → A) → ℕ → ℕ
  count p a zero = 0
  count p a (suc n) = count p a n + (if p (a (suc n)) then 1 else 0)

  pub count_cong :
      (p : A → Bool) (a b : ℕ → A) (n : ℕ)
      → ((i : ℕ) → 0 < i → i ≤ n → a i ≡ b i)
      → count p a n ≡ count p b n
  unfolding count
  count_cong p a b zero h = refl
  count_cong p a b (suc n) h =
      ground (arith, count_cong p a b n (λ i q r. h i q (omega arith)), h (suc n))

  -- A write trades the old value for the new one.
  pub count-update :
      (p : A → Bool) (a : ℕ → A) (n i : ℕ) (v : A)
      → 0 < i
      → i ≤ n
      → count p (update a i v) n + (if p (a i) then 1 else 0) ≡ count p a n + (if p v then 1 else 0)
  unfolding count
  count-update p a zero i v q r = absurd (omega arith)
  count-update p a (suc n) i v q r = elim (Bool-cases (i == suc n)) [
    | inl e ↦ ground (arith, count_cong p (update a i v) a n (λ j q' r'. ground arith))
    | inr e ↦ ground (arith, count-update p a n i v)
  ]

  pub count_zero :
      (a : ℕ → A) (n i : ℕ) (p : A → Bool) → count p a n ≡ 0 → 0 < i → i ≤ n → p (a i) ≡ false
  unfolding count
  count_zero a zero i p e q r = absurd (omega arith)
  count_zero a (suc n) i p e q r = elim (Bool-cases (i == suc n)) [
    | inl same ↦ ground arith
    | inr other ↦ ground (arith, count_zero a n i p)
  ]

  -- An array that agrees with another up to `n` and holds one value more.
  pub count-extend :
      (p : A → Bool) (a b : ℕ → A) (n m : ℕ) (v : A)
      → m ≡ n + 1
      → a m ≡ v
      → ((i : ℕ) → 1 ≤ i → i ≤ n → a i ≡ b i)
      → count p a m ≡ count p b n + (if p v then 1 else 0)
  unfolding count
  count-extend p a b n zero v e f h = absurd (omega arith)
  count-extend p a b n (suc m) v e f h =
      let e' : n ≡ m = omega arith in rw (e', f, count_cong p a b m (λ i q r. h i q (rw e' r))) refl

  -- The last of `n` values takes the place of the one at `i`.
  pub count-fill :
      (p : A → Bool) (a : ℕ → A) (n i : ℕ)
      → 1 ≤ i
      → i ≤ n
      → count p (update a i (a n)) (n - 1) + (if p (a i) then 1 else 0) ≡ count p a n
  unfolding count
  count-fill p a zero i q r = absurd (omega arith)
  count-fill p a (suc n) i q r =
      let e : suc n - 1 ≡ n = omega arith in
      rw e (elim (Bool-cases (i == suc n)) [
        | inl same ↦
            ground (arith, count_cong p (update a i (a (suc n))) a n (λ j s t. ground arith))
        | inr other ↦ ground (arith, count-update p a n i (a (suc n)))
      ])
