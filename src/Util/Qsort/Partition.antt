-- ===== src/Util/Qsort/Partition.antt =====
-- `med3` and `partition` of packages/basics/util/c_src/qsort.h.
use mathlib.Core.Path.{subst}
use april_ann.Prelude.{
  ℕ, ◌+◌, ◌-◌, ◌/◌, ◌≤◌, ◌<◌, ◌≡◌, refl, ◌≢◌, Bool, false, arith, ◌⊎◌, inl, inr, ◌==◌, Bool-cases,
  sym, ◌∙◌, ==_iff,
}
use april_ann.Prelude.Loop.{Ends, ends, Ends-bind}
use april_ann.Util.MinHeap.Order.{IsWeakOrder}
use april_ann.Util.Qsort.{swap, put_in_order, med3, partition}
use april_ann.Util.Qsort.Insertion.{not_before_self}
use april_ann.Util.Qsort.Scan.{AtMost, AtLeast, Parted, Split, LoopEnd, part_loop-LoopEnd}
use april_ann.Util.Qsort.Permuted.{
  Permuted, swap_left, swap_right, swap_other, swap_all, Permuted-refl, Permuted-swap,
  Permuted-trans,
}

module _ {T : Type 0} (compare : T → T → Bool) (w : IsWeakOrder compare) where
  -- Two positions in order, and nothing else touched.
  record Ordered (v : ℕ → T) (i j : ℕ) (r : ℕ → T) : Type 0 where
    ordered : compare (r i) (r j) ≡ false
    others : (k : ℕ) → k ≢ i → k ≢ j → r k ≡ v k
    either : (r j ≡ v i) ⊎ (r j ≡ v j)
    least_new : compare (v j) (r j) ≡ false

  put_in_order-Ordered : (v : ℕ → T) (i j : ℕ) → Ordered v i j (put_in_order compare v i j)
  unfolding put_in_order
  put_in_order-Ordered v i j = elim (Bool-cases (compare (v i) (v j))) [
    | inl before ↦ rw before (record {
      ordered = rw (swap_left v j i, swap_right v j i) (w.asymm (v i) (v j) before);
      others = λ k a b. swap_other v j i k b a;
      either = inl (swap_left v j i);
      least_new = rw (swap_left v j i) (w.asymm (v i) (v j) before);
    })
    | inr fine ↦ rw fine (record {
      ordered = fine;
      others = λ k a b. refl;
      either = inr refl;
      least_new = not_before_self compare w (v j);
    })
  ]

  put_in_order-Permuted :
      (low high : ℕ) (v : ℕ → T) (i j : ℕ)
      → low ≤ i
      → i ≤ high
      → low ≤ j
      → j ≤ high
      → Permuted low high v (put_in_order compare v i j)
  unfolding put_in_order
  put_in_order-Permuted low high v i j a b c d = elim (Bool-cases (compare (v i) (v j))) [
    | inl before ↦ rw before (Permuted-swap low high v j i c d a b)
    | inr fine ↦ rw fine (Permuted-refl low high v)
  ]

  -- The median of three stands at `high - 1`, between the first and the last element.
  med3-Parted :
      (v : ℕ → T) (low high : ℕ)
      → 8 ≤ high - low
      → Parted compare w low high
          (med3 compare v low high (high - 1))
          (med3 compare v low high)
          low
          (high - 1)
        × Permuted low high v (med3 compare v low high)
  unfolding med3
  med3-Parted v low high h =
      let cnt : ℕ = (low + high) / 2 in
      let a : ℕ → T = put_in_order compare v cnt low in
      let b : ℕ → T = put_in_order compare a high low in
      let c : ℕ → T = put_in_order compare b high cnt in
      let oa : Ordered v cnt low a = put_in_order-Ordered v cnt low in
      let ob : Ordered a high low b = put_in_order-Ordered a high low in
      let oc : Ordered b high cnt c = put_in_order-Ordered b high cnt in
      let cnt_low : cnt ≢ low = omega arith in
      let cnt_high : cnt ≢ high = omega arith in
      let b_cnt : b cnt ≡ a cnt = ob.others cnt cnt_high cnt_low in
      let c_low : c low ≡ b low = oc.others low (omega arith) (omega arith) in
      let low_cnt : compare (b cnt) (b low) ≡ false =
        subst (λ x. compare x (b low) ≡ false) (sym b_cnt)
          (w.trans (b low) (a low) (a cnt) ob.least_new oa.ordered) in
      let low_c : compare (c cnt) (c low) ≡ false =
        subst (λ x. compare (c cnt) x ≡ false) (sym c_low)
          (elim oc.either [
            | inl e ↦ subst (λ x. compare x (b low) ≡ false) (sym e) ob.ordered
            | inr e ↦ subst (λ x. compare x (b low) ≡ false) (sym e) low_cnt
          ]) in
      let last : ℕ = high - 1 in
      let piv : swap c cnt last last ≡ c cnt = swap_right c cnt last in
      let at_low : swap c cnt last low ≡ c low =
        swap_other c cnt last low (omega arith) (omega arith) in
      let at_high : swap c cnt last high ≡ c high =
        swap_other c cnt last high (omega arith) (omega arith) in
      (
        record {
          start = omega arith;
          apart = omega arith;
          finish = omega arith;
          lower = λ k l m.
              let e : k ≡ low = omega arith in
              subst (λ x. compare (swap c cnt last last) (swap c cnt last x) ≡ false) (sym e)
                (rw (piv, at_low) low_c);
          upper = λ k l m. elim (Bool-cases (k == high)) [
            | inl top ↦
                let e : k ≡ high = (==_iff k high).0 top in
                subst (λ x. compare (swap c cnt last x) (swap c cnt last last) ≡ false) (sym e)
                  (rw (piv, at_high) oc.ordered)
            | inr other ↦
                let e : k ≡ last = ground arith in
                subst (λ x. compare (swap c cnt last x) (swap c cnt last last) ≡ false) (sym e)
                  (not_before_self compare w (swap c cnt last last))
          ];
          pivot = refl;
        },
        Permuted-trans low high
            (put_in_order-Permuted low high v cnt low (omega arith) (omega arith) (omega arith)
              (omega arith))
            (Permuted-trans low high
              (put_in_order-Permuted low high a high low (omega arith) (omega arith) (omega arith)
                (omega arith))
              (Permuted-trans low high
                (put_in_order-Permuted low high b high cnt (omega arith) (omega arith) (omega arith)
                  (omega arith))
                (Permuted-swap low high c cnt last (omega arith) (omega arith) (omega arith)
                  (omega arith)))),
      )

  -- What `partition` gives: a position inside the range that holds the pivot, with nothing after the
  -- pivot before it and nothing before the pivot after it.
  pub record Cut (low high : ℕ) (v : ℕ → T) (r : (ℕ → T) × ℕ) : Type 0 where
    pub start : low < r.1
    pub finish : r.1 < high
    pub lower : (k : ℕ) → low ≤ k → k ≤ r.1 → AtMost compare (r.0 r.1) (r.0 k)
    pub upper : (k : ℕ) → r.1 ≤ k → k ≤ high → AtLeast compare (r.0 r.1) (r.0 k)
    pub permuted : Permuted low high v r.0

  -- The pivot goes to the position where the scans met.
  Cut-at :
      (low high : ℕ) (piv : T) (v : ℕ → T) (r : (ℕ → T) × ℕ)
      → LoopEnd compare w low high piv v r
      → Cut low high v (swap r.0 r.1 (high - 1), r.1)
  Cut-at low high piv v r e =
      let u : ℕ → T = swap r.0 r.1 (high - 1) in
      let there : u r.1 ≡ piv = swap_left r.0 r.1 (high - 1) ∙ e.pivot in
      let s : Split compare w low high piv r.0 r.1 = e.split in
      record {
        start = s.start;
        finish = s.finish;
        lower = λ k a b.
            subst (λ x. AtMost compare x (u k)) (sym there) (lower_at r.0 r.1 k piv s e.pivot a b);
        upper = λ k a b.
            subst (λ x. AtLeast compare x (u k)) (sym there)
              (swap_all (AtLeast compare piv) r.0 r.1 (high - 1) k
                (s.upper r.1 (omega arith) (omega (arith, s.finish)))
                (s.upper (high - 1) (omega (arith, s.finish)) (omega arith)) (s.upper k a b));
        permuted = Permuted-trans low high e.permuted (
            Permuted-swap low high r.0 r.1 (high - 1) (omega (arith, s.start))
              (omega (arith, s.finish)) (omega (arith, s.start, s.finish)) (omega arith));
      }
    where
      lower_at :
          (a : ℕ → T) (i k : ℕ) (piv : T)
          → Split compare w low high piv a i
          → a (high - 1) ≡ piv
          → low ≤ k
          → k ≤ i
          → AtMost compare piv (swap a i (high - 1) k)
      lower_at a i k piv s pivot l m = elim (Bool-cases (k == i)) [
        | inl here ↦
            let e : k ≡ i = (==_iff k i).0 here in
            subst (λ x. AtMost compare piv (swap a i (high - 1) x)) (sym e)
              (subst (AtMost compare piv) (sym (swap_left a i (high - 1) ∙ pivot))
                (not_before_self compare w piv))
        | inr other ↦
            subst (AtMost compare piv)
              (sym (
                swap_other a i (high - 1) k (ground arith)
                  (let less : k < i = ground arith in omega (arith, s.finish))))
              (s.lower k l (ground arith))
      ]

  pub partition_correct :
      (v : ℕ → T) (low high : ℕ)
      → 8 ≤ high - low
      → Ends (Cut low high v) (partition compare v low high)
  unfolding partition
  partition_correct v low high h =
      let (parted, permuted) = med3-Parted v low high h in
      Ends-bind
        (part_loop-LoopEnd compare w (high + 1) low high (med3 compare v low high (high - 1))
          (med3 compare v low high) low (high - 1) parted (omega arith))
        (λ r e. ends (
          Cut-at low high (med3 compare v low high (high - 1)) v r (record {
            split = e.split;
            pivot = e.pivot;
            permuted = Permuted-trans low high permuted e.permuted;
          })))
