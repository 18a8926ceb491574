-- ===== src/DataSet/Offsets.antt =====
-- dataset.cc: the blocks `d` of partial sums that `UnionDataSet` and `JoinDataSet` keep.
use april_ann.Prelude.{ℕ, zero, suc, ◌+◌, ◌-◌, ◌<◌, ◌≤◌, ◌≡◌, ◌==◌, arith, Bool-cases, inl, inr}
use april_ann.Prelude.Array.{update}

split : (a b : ℕ) → a ≤ b → b ≡ a + (b - a)
split a b q = omega arith

module _ (size : ℕ → ℕ) where
  -- `d` holds the sum of the sizes before each of the first `n` parts, and of all of them.
  abbrev pub Summed : ℕ → (ℕ → ℕ) → Type 0
  Summed n d = (d 0 ≡ 0) × ((k : ℕ) → k < n → d (k + 1) ≡ d k + size k)

  pub Summed-suc :
      (n : ℕ) (d : ℕ → ℕ) → Summed n d → Summed (suc n) (update d (n + 1) (d n + size n))
  Summed-suc n d (z, nx) = (
    ground arith,
    λ k l. elim (Bool-cases (k == n)) [
      | inl same ↦ let e : k ≡ n = ground arith in rw e (ground arith)
      | inr other ↦ ground (arith, nx k)
    ],
  )

  module _ (n : ℕ) (d : ℕ → ℕ) (ok : Summed n d) where
    Summed-step : (a k : ℕ) → a + k ≤ n → d a ≤ d (a + k)
    Summed-step a zero l = grind arith
    Summed-step a (suc k) l =
        grind (arith, Summed-step a k (omega arith), ok.1 (a + k) (omega arith))

    pub Summed-mono : (a b : ℕ) → a ≤ b → b ≤ n → d a ≤ d b
    Summed-mono a b q l = rw (split a b q) (Summed-step a (b - a) (omega arith))
