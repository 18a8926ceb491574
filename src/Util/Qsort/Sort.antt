-- ===== src/Util/Qsort/Sort.antt =====
-- `Sort` of packages/basics/util/c_src/qsort.h.
use mathlib.Core.Path.{subst}
use april_ann.Prelude.{
  ℕ, zero, suc, ◌+◌, ◌-◌, ◌≤◌, ◌<◌, ◌≡◌, Bool, false, arith, inl, inr, leb, ltb, Bool-cases,
}
use april_ann.Prelude.Loop.{Ends, ends, Ends-bind, Ends-map, Ends-if}
use april_ann.Util.MinHeap.Order.{IsWeakOrder}
use april_ann.Util.Qsort.{sort, sort_range}
use april_ann.Util.Qsort.Insertion.{Sorted, insertion_sort_correct}
use april_ann.Util.Qsort.Partition.{Cut, partition_correct}
use april_ann.Util.Qsort.Permuted.{
  Permuted, Permuted-trans, Permuted-widen, Permuted-outside, Permuted-all,
}
use april_ann.Util.Qsort.Scan.{AtMost, AtLeast}

module _ {T : Type 0} (compare : T → T → Bool) where
  -- A range of an array is sorted, and the array comes from another by swaps inside the range.
  abbrev pub SortedFrom : ℕ → ℕ → (ℕ → T) → (ℕ → T) → Type 0
  SortedFrom low high v u = Sorted compare u low high × Permuted low high v u

  -- What is done to one range leaves a range that it does not meet sorted, and what holds of it.
  module _ (l h l' h' : ℕ) (apart : (k : ℕ) → l ≤ k → k ≤ h → l' ≤ k → h' < k) (u x : ℕ → T)
      (permuted : Permuted l' h' u x) where
    untouched : (k : ℕ) → l ≤ k → k ≤ h → u k ≡ x k
    untouched k a b = Permuted-outside l' h' permuted k (apart k a b)

    pub Sorted-untouched : Sorted compare u l h → Sorted compare x l h
    Sorted-untouched s i j a b c =
        subst (λ m. compare (x j) m ≡ false) (untouched i a (omega arith))
          (subst (λ m. compare m (u i) ≡ false) (untouched j (omega arith) c) (s i j a b c))

    pub all_untouched :
        (P : T → Type 0) → ((k : ℕ) → l ≤ k → k ≤ h → P (u k)) → (k : ℕ) → l ≤ k → k ≤ h → P (x k)
    all_untouched P all k a b = subst P (untouched k a b) (all k a b)

  module _ (w : IsWeakOrder compare) where
    -- Two sorted parts on the two sides of the pivot.
    Sorted-join :
        (low p high : ℕ) (piv : T) (x : ℕ → T)
        → Sorted compare x low p
        → Sorted compare x (p + 1) high
        → ((k : ℕ) → low ≤ k → k ≤ p → AtMost compare piv (x k))
        → ((k : ℕ) → p + 1 ≤ k → k ≤ high → AtLeast compare piv (x k))
        → Sorted compare x low high
    Sorted-join low p high piv x left right lower upper i j a b c = elim (Bool-cases (leb j p)) [
      | inl j_left ↦ left i j a b (ground arith)
      | inr j_right ↦ elim (Bool-cases (leb i p)) [
        | inl i_left ↦ w.trans (x i) piv (x j) (lower i a (ground arith)) (upper j (ground arith) c)
        | inr i_right ↦ right i j (ground arith) b c
      ]
    ]

    module _ (low high : ℕ) (v : ℕ → T) (r : (ℕ → T) × ℕ) (cut : Cut compare w low high v r) where
      all_lower : (k : ℕ) → low ≤ k → k ≤ r.1 → AtMost compare (r.0 r.1) (r.0 k)
      all_lower = cut.lower

      all_upper : (k : ℕ) → r.1 + 1 ≤ k → k ≤ high → AtLeast compare (r.0 r.1) (r.0 k)
      all_upper k a b = cut.upper k (omega arith) b

      -- The left part is sorted first, or the right part.
      left_first :
          (u x : ℕ → T)
          → SortedFrom low r.1 r.0 u
          → SortedFrom (r.1 + 1) high u x
          → SortedFrom low high v x
      left_first u x (s, p) (s', p') =
          let piv : T = r.0 r.1 in
          let lower : (k : ℕ) → low ≤ k → k ≤ r.1 → AtMost compare piv (u k) =
            Permuted-all low r.1 (AtMost compare piv) p all_lower in
          let upper : (k : ℕ) → r.1 + 1 ≤ k → k ≤ high → AtLeast compare piv (u k) =
            all_untouched (r.1 + 1) high low r.1 (λ k a b c. omega arith) r.0 u p
              (AtLeast compare piv) all_upper in
          (
            Sorted-join low r.1 high piv x
                (Sorted-untouched low r.1 (r.1 + 1) high (λ k a b c. omega arith) u x p' s) s'
                (all_untouched low r.1 (r.1 + 1) high (λ k a b c. omega arith) u x p'
                  (AtMost compare piv) lower)
                (Permuted-all (r.1 + 1) high (AtLeast compare piv) p' upper),
            Permuted-trans low high cut.permuted (
                Permuted-trans low high
                  (Permuted-widen low r.1 low high (omega arith) (omega (arith, cut.finish)) p)
                  (Permuted-widen (r.1 + 1) high low high (omega (arith, cut.start)) (omega arith)
                    p')),
          )

      right_first :
          (u x : ℕ → T)
          → SortedFrom (r.1 + 1) high r.0 u
          → SortedFrom low r.1 u x
          → SortedFrom low high v x
      right_first u x (s, p) (s', p') =
          let piv : T = r.0 r.1 in
          let upper : (k : ℕ) → r.1 + 1 ≤ k → k ≤ high → AtLeast compare piv (u k) =
            Permuted-all (r.1 + 1) high (AtLeast compare piv) p all_upper in
          let lower : (k : ℕ) → low ≤ k → k ≤ r.1 → AtMost compare piv (u k) =
            all_untouched low r.1 (r.1 + 1) high (λ k a b c. omega arith) r.0 u p
              (AtMost compare piv) all_lower in
          (
            Sorted-join low r.1 high piv x s'
                (Sorted-untouched (r.1 + 1) high low r.1 (λ k a b c. omega arith) u x p' s)
                (Permuted-all low r.1 (AtMost compare piv) p' lower)
                (all_untouched (r.1 + 1) high low r.1 (λ k a b c. omega arith) u x p'
                  (AtLeast compare piv) upper),
            Permuted-trans low high cut.permuted (
                Permuted-trans low high
                  (Permuted-widen (r.1 + 1) high low high (omega (arith, cut.start)) (omega arith)
                    p)
                  (Permuted-widen low r.1 low high (omega arith) (omega (arith, cut.finish)) p')),
          )

    sort_range_correct :
        (fuel : ℕ) (v : ℕ → T) (low high : ℕ)
        → low ≤ high
        → high < fuel + low
        → Ends (SortedFrom low high v) (sort_range compare fuel v low high)
    unfolding sort_range
    sort_range_correct zero v low high h enough = absurd (omega arith)
    sort_range_correct (suc fuel) v low high h enough =
        Ends-if (leb 8 (high - low))
          (λ large.
            let wide : 8 ≤ high - low = ground arith in
            Ends-bind (partition_correct compare w v low high wide) (λ r cut.
              let left : (a : ℕ → T)
                  → Ends (SortedFrom low r.1 a) (sort_range compare fuel a low r.1) =
                λ a.
                  sort_range_correct fuel a low r.1 (omega (arith, cut.start))
                    (omega (arith, cut.finish)) in
              let right : (a : ℕ → T)
                  → Ends (SortedFrom (r.1 + 1) high a) (sort_range compare fuel a (r.1 + 1) high) =
                λ a.
                  sort_range_correct fuel a (r.1 + 1) high (omega (arith, cut.finish))
                    (omega (arith, cut.start)) in
              Ends-if (ltb (r.1 - low) (high - r.1))
                (λ _.
                  Ends-bind (left r.0)
                    (λ u s. Ends-map (right u) (λ x s'. left_first low high v r cut u x s s')))
                (λ _.
                  Ends-bind (right r.0)
                    (λ u s. Ends-map (left u) (λ x s'. right_first low high v r cut u x s s')))))
          (λ small. ends (insertion_sort_correct compare w v low high h))

    -- `Sort` ends, for a strict weak order. No element of the result is before an earlier one, and the
    -- result comes from the array by swaps of its first `sze` elements.
    pub sort_correct : (v : ℕ → T) (sze : ℕ) → Ends (SortedFrom 0 (sze - 1) v) (sort compare v sze)
    unfolding sort
    sort_correct v sze = sort_range_correct (sze + 1) v 0 (sze - 1) (omega arith) (omega arith)
