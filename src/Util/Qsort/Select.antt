-- ===== src/Util/Qsort/Select.antt =====
-- `Selection` of packages/basics/util/c_src/qsort.h.
use april_ann.Prelude.{
  ℕ, zero, suc, ◌+◌, ◌-◌, ◌≤◌, ◌<◌, ◌≡◌, refl, Bool, false, arith, inl, inr, leb, Bool-cases,
}
use april_ann.Prelude.Loop.{Ends, ends, Ends-bind, Ends-map, Ends-if}
use april_ann.Util.MinHeap.Order.{IsWeakOrder}
use april_ann.Util.Qsort.{selection, select_range}
use april_ann.Util.Qsort.Insertion.{insertion_sort_correct}
use april_ann.Util.Qsort.Partition.{Cut, partition_correct}
use april_ann.Util.Qsort.Permuted.{Permuted, Permuted-trans, Permuted-widen, Permuted-all}
use april_ann.Util.Qsort.Scan.{AtMost, AtLeast}
use april_ann.Util.Qsort.Sort.{all_untouched}

module _ {T : Type 0} (compare : T → T → Bool) where
  -- The element at `k` stands where sorting the range would put it.
  pub record Ranked (low high k : ℕ) (v u : ℕ → T) : Type 0 where
    pub before : (i : ℕ) → low ≤ i → i ≤ k → compare (u k) (u i) ≡ false
    pub after : (j : ℕ) → k ≤ j → j ≤ high → compare (u j) (u k) ≡ false
    pub permuted : Permuted low high v u

  module _ (w : IsWeakOrder compare) where
    select_left :
        (low high k : ℕ) (v : ℕ → T) (r : (ℕ → T) × ℕ) (u : ℕ → T)
        → Cut compare w low high v r
        → low ≤ k
        → k ≤ r.1
        → Ranked low r.1 k r.0 u
        → Ranked low high k v u
    select_left low high k v r u cut a b ranked =
        let piv : T = r.0 r.1 in
        let p : Permuted low r.1 r.0 u = ranked.permuted in
        let at_k : AtMost compare piv (u k) =
          Permuted-all low r.1 (AtMost compare piv) p cut.lower k a b in
        let upper : (j : ℕ) → r.1 + 1 ≤ j → j ≤ high → AtLeast compare piv (u j) =
          all_untouched compare (r.1 + 1) high low r.1 (λ j c d e. omega arith) r.0 u p
            (AtLeast compare piv) (λ j c d. cut.upper j (omega arith) d) in
        record {
          before = ranked.before;
          after = λ j c d. elim (Bool-cases (leb j r.1)) [
            | inl near ↦ ranked.after j c (ground arith)
            | inr far ↦ w.trans (u k) piv (u j) at_k (upper j (ground arith) d)
          ];
          permuted =
              Permuted-trans low high cut.permuted
                (Permuted-widen low r.1 low high (omega arith) (omega (arith, cut.finish)) p);
        }

    select_right :
        (low high k : ℕ) (v : ℕ → T) (r : (ℕ → T) × ℕ) (u : ℕ → T)
        → Cut compare w low high v r
        → r.1 < k
        → k ≤ high
        → Ranked (r.1 + 1) high k r.0 u
        → Ranked low high k v u
    select_right low high k v r u cut a b ranked =
        let piv : T = r.0 r.1 in
        let p : Permuted (r.1 + 1) high r.0 u = ranked.permuted in
        let at_k : AtLeast compare piv (u k) =
          Permuted-all (r.1 + 1) high (AtLeast compare piv) p (λ j c d. cut.upper j (omega arith) d)
            k (omega arith) b in
        let lower : (i : ℕ) → low ≤ i → i ≤ r.1 → AtMost compare piv (u i) =
          all_untouched compare low r.1 (r.1 + 1) high (λ j c d e. omega arith) r.0 u p
            (AtMost compare piv) cut.lower in
        record {
          before = λ i c d. elim (Bool-cases (leb i r.1)) [
            | inl far ↦ w.trans (u i) piv (u k) (lower i c (ground arith)) at_k
            | inr near ↦ ranked.before i (ground arith) d
          ];
          after = ranked.after;
          permuted =
              Permuted-trans low high cut.permuted
                (Permuted-widen (r.1 + 1) high low high (omega (arith, cut.start)) (omega arith) p);
        }

    select_range_correct :
        (fuel : ℕ) (v : ℕ → T) (low high k : ℕ)
        → low ≤ k
        → k ≤ high
        → high < fuel + low
        → Ends (Ranked low high k v) (select_range compare fuel v low high k)
    unfolding select_range
    select_range_correct zero v low high k a b enough = absurd (omega arith)
    select_range_correct (suc fuel) v low high k a b enough =
        Ends-if (leb 8 (high - low))
          (λ large.
            let wide : 8 ≤ high - low = ground arith in
            Ends-bind (partition_correct compare w v low high wide) (λ r cut.
              Ends-if (leb k r.1)
                (λ left.
                  let c : k ≤ r.1 = ground arith in
                  Ends-map (select_range_correct fuel r.0 low r.1 k a c (omega (arith, cut.finish)))
                    (λ u ranked. select_left low high k v r u cut a c ranked))
                (λ right.
                  let c : r.1 < k = ground arith in
                  Ends-map
                    (select_range_correct fuel r.0 (r.1 + 1) high k (omega arith) b
                      (omega (arith, cut.start)))
                    (λ u ranked. select_right low high k v r u cut c b ranked))))
          (λ small.
            let (sorted, permuted) = insertion_sort_correct compare w v low high (omega arith) in
            ends (record {
              before = λ i c d. sorted i k c d b;
              after = λ j c d. sorted k j a c d;
              permuted = permuted;
            }))

    -- `Selection` ends, for a strict weak order and `k` below the size, and returns the element that
    -- sorting the array would put at `k`: in the array that it leaves, whose elements are those of the
    -- array given, no element up to `k` is after it, and none from `k` on is before it.
    pub selection_correct :
        (v : ℕ → T) (sze k : ℕ)
        → k < sze
        → Ends (λ r. Ranked 0 (sze - 1) k v r.0 × (r.1 ≡ r.0 k)) (selection compare v sze k)
    unfolding selection
    selection_correct v sze k h =
        Ends-bind
          (select_range_correct (sze + 1) v 0 (sze - 1) k (omega arith) (omega arith) (omega arith))
          (λ u ranked. ends (ranked, refl))
