-- ===== src/DataSet/Gather.antt =====
-- dataset.cc: a vector that is filled piece by piece, each piece from a call of getPattern.
use april_ann.Prelude.{
  ℕ, zero, suc, ◌+◌, ◌<◌, ◌≤◌, ◌≡◌, ◌==◌, Option, arith, Bool-cases, inl, inr, refl, ◌∙◌, ◌⊎◌,
}
use april_ann.Prelude.Loop.{Ends, ends, Ends-bind, Ends-map, for_loop}
use april_ann.DataSet.{Copied}

plus_zero : (m : ℕ) → m + 0 ≡ m
plus_zero m = omega arith

zero_plus : (m : ℕ) → 0 + m ≡ m
zero_plus m = omega arith

plus_suc : (m n : ℕ) → m + suc n ≡ suc (m + n)
plus_suc m n = omega arith

module _ (place size : ℕ → ℕ) where
  -- No two of the first `n` pieces overlap.
  abbrev pub Apart : ℕ → Type 0
  Apart n = (k l : ℕ) → k < l → l < n → (place k + size k ≤ place l) ⊎ (place l + size l ≤ place k)

  pub in_other :
      (k l j : ℕ)
      → j < size k
      → (place k + size k ≤ place l) ⊎ (place l + size l ≤ place k)
      → (place k + j < place l) ⊎ (place l + size l ≤ place k + j)
  in_other k l j q (inl h) = inl (omega arith)
  in_other k l j q (inr h) = inr (omega arith)

module _ {T : Type 0} (place size : ℕ → ℕ) (f : ℕ → ℕ → T) where
  -- The first `m` pieces are in their places, and the rest of the block is as it was.
  pub record Gathered (before : ℕ → T) (m : ℕ) (after : ℕ → T) : Type 0 where
    pub inside : (k j : ℕ) → k < m → j < size k → after (place k + j) ≡ f k j
    pub outside :
        (j : ℕ) → ((k : ℕ) → k < m → (j < place k) ⊎ (place k + size k ≤ j)) → after j ≡ before j

  pub Gathered-zero : (b : ℕ → T) → Gathered b 0 b
  Gathered-zero b = record { inside = λ k j l q. absurd (omega arith); outside = λ j h. refl }

  pub Gathered-suc :
      (m : ℕ) (b b' b'' : ℕ → T)
      → Apart place size (suc m)
      → Gathered b m b'
      → Copied b' (place m) (size m) (f m) b''
      → Gathered b (suc m) b''
  Gathered-suc m b b' b'' apart g c = record {
    inside = λ k j l q. elim (Bool-cases (k == m)) [
      | inl same ↦ let e : k ≡ m = ground arith in rw e (c.inside j (rw e at q))
      | inr other ↦
          c.outside (place k + j)
            (in_other place size k m j q (apart k m (ground arith) (omega arith)))
          ∙ g.inside k j (ground arith) q
    ];
    outside = λ j h. c.outside j (h m (omega arith)) ∙ g.outside j (λ k l. h k (omega arith));
  }

  -- A loop that writes the pieces `m`, …, `m + n - 1`.
  pub for_loop-Gathered :
      (m n : ℕ) (step : ℕ → (ℕ → T) → Option (ℕ → T)) (b b' : ℕ → T)
      → Apart place size (m + n)
      → Gathered b m b'
      → ((i : ℕ)
          → i < n
          → (x : ℕ → T) → Ends (Copied x (place (m + i)) (size (m + i)) (f (m + i))) (step i x))
      → Ends (Gathered b (m + n)) (for_loop n step b')
  unfolding for_loop
  for_loop-Gathered m zero step b b' apart g h = ends (rw (plus_zero m) g)
  for_loop-Gathered m (suc n) step b b' apart g h =
      Ends-bind
        (for_loop-Gathered m n step b b' (λ k l q r. apart k l q (omega arith)) g
          (λ i l. h i (omega arith)))
        (λ x gx. Ends-map (h n (omega arith) x) (λ y c.
          rw (plus_suc m n)
            (Gathered-suc (m + n) b x y (λ k l q r. apart k l q (omega arith)) gx c)))

  -- A loop that writes all the pieces.
  pub for_loop-Gathered_all :
      (n : ℕ) (step : ℕ → (ℕ → T) → Option (ℕ → T)) (b : ℕ → T)
      → Apart place size n
      → ((i : ℕ) → i < n → (x : ℕ → T) → Ends (Copied x (place i) (size i) (f i)) (step i x))
      → Ends (Gathered b n) (for_loop n step b)
  for_loop-Gathered_all n step b apart h =
      Ends-map
        (for_loop-Gathered 0 n step b b (rw (zero_plus n) apart) (Gathered-zero b)
          (λ i l x. rw (zero_plus i) (h i l x)))
        (λ x g. rw (zero_plus n) at g)
