-- ===== src/Util/Qsort/Scan.antt =====
-- The scans of `partition` in packages/basics/util/c_src/qsort.h, and the loop around them.
use mathlib.Core.Path.{subst}
use april_ann.Prelude.{
  ℕ, zero, suc, ◌+◌, ◌-◌, ◌≤◌, ◌<◌, ◌≡◌, ◌≢◌, Bool, true, false, arith, inl, inr, ◌==◌, leb, ltb,
  Bool-cases, sym, ◌∙◌, ==_iff,
}
use april_ann.Prelude.Loop.{Ends, ends, Ends-bind, Ends-map, Ends-if}
use april_ann.Util.MinHeap.Order.{IsWeakOrder}
use april_ann.Util.Qsort.{swap, scan_up, scan_down, part_loop}
use april_ann.Util.Qsort.Permuted.{Permuted, unchanged, swapped, swap_left, swap_right, swap_other}

module _ {T : Type 0} (compare : T → T → Bool) where
  -- Not after the pivot, and not before it.
  abbrev pub AtMost : T → T → Type 0
  AtMost piv a = compare piv a ≡ false

  abbrev pub AtLeast : T → T → Type 0
  AtLeast piv a = compare a piv ≡ false

  module _ (w : IsWeakOrder compare) where
    before-AtMost : (piv a : T) → compare a piv ≡ true → AtMost piv a
    before-AtMost piv a e = w.asymm a piv e

    -- What the loop of `partition` keeps: the positions up to `izq` and from `der` on are done, and the
    -- pivot stands at `high - 1`.
    pub record Parted (low high : ℕ) (piv : T) (v : ℕ → T) (izq der : ℕ) : Type 0 where
      pub start : low ≤ izq
      pub apart : izq < der
      pub finish : der < high
      pub lower : (k : ℕ) → low ≤ k → k ≤ izq → AtMost piv (v k)
      pub upper : (k : ℕ) → der ≤ k → k ≤ high → AtLeast piv (v k)
      pub pivot : v (high - 1) ≡ piv

    -- The scan stops at a position that is not before the pivot, past others that are.
    pub record UpStop (v : ℕ → T) (piv : T) (izq bound i : ℕ) : Type 0 where
      pub past : izq < i
      pub within : i ≤ bound
      pub stops : AtLeast piv (v i)
      pub passed : (k : ℕ) → izq < k → k < i → AtMost piv (v k)

    scan_up-UpStop :
        (fuel : ℕ) (v : ℕ → T) (piv : T) (izq bound : ℕ)
        → izq < bound
        → bound < fuel + izq
        → AtLeast piv (v bound)
        → Ends (UpStop v piv izq bound) (scan_up compare fuel v piv izq)
    unfolding scan_up
    scan_up-UpStop zero v piv izq bound h enough at_bound = absurd (omega arith)
    scan_up-UpStop (suc fuel) v piv izq bound h enough at_bound =
        Ends-if (compare (v (izq + 1)) piv)
          (λ before.
            let not_bound : izq + 1 ≢ bound = λ e.
              let same : compare (v (izq + 1)) piv ≡ false =
                subst (λ m. AtLeast piv (v m)) (sym e) at_bound in
              ground arith in
            Ends-map
              (scan_up-UpStop fuel v piv (izq + 1) bound (omega arith) (omega arith) at_bound)
              (λ i u. record {
                past = omega (arith, u.past);
                within = u.within;
                stops = u.stops;
                passed = λ k a b. elim (Bool-cases (k == izq + 1)) [
                  | inl here ↦
                      let e : k ≡ izq + 1 = (==_iff k (izq + 1)).0 here in
                      subst (λ m. AtMost piv (v m)) (sym e) (before-AtMost piv (v (izq + 1)) before)
                  | inr later ↦ u.passed k (ground arith) b
                ];
              }))
          (λ stop. ends (record {
            past = omega arith;
            within = omega arith;
            stops = stop;
            passed = λ k a b. absurd (omega arith);
          }))

    pub record DownStop (v : ℕ → T) (piv : T) (bound der j : ℕ) : Type 0 where
      pub before : j < der
      pub within : bound ≤ j
      pub stops : AtMost piv (v j)
      pub passed : (k : ℕ) → j < k → k < der → AtLeast piv (v k)

    scan_down-DownStop :
        (v : ℕ → T) (piv : T) (bound der : ℕ)
        → bound < der
        → AtMost piv (v bound)
        → Ends (DownStop v piv bound der) (scan_down compare v piv der)
    unfolding scan_down
    scan_down-DownStop v piv bound zero h at_bound = absurd (omega arith)
    scan_down-DownStop v piv bound (suc der) h at_bound =
        Ends-if (compare piv (v der))
          (λ after.
            let not_bound : der ≢ bound = λ e.
              let same : compare piv (v der) ≡ false =
                subst (λ m. AtMost piv (v m)) (sym e) at_bound in
              ground arith in
            Ends-map (scan_down-DownStop v piv bound der (omega arith) at_bound) (λ j d. record {
              before = omega (arith, d.before);
              within = d.within;
              stops = d.stops;
              passed = λ k a b. elim (Bool-cases (k == der)) [
                | inl here ↦
                    let e : k ≡ der = (==_iff k der).0 here in
                    subst (λ m. AtLeast piv (v m)) (sym e) (w.asymm piv (v der) after)
                | inr earlier ↦ d.passed k a (ground arith)
              ];
            }))
          (λ stop. ends (record {
            before = omega arith;
            within = omega arith;
            stops = stop;
            passed = λ k a b. absurd (omega arith);
          }))

    -- Where the loop ends: what is before `i` is not after the pivot, and what is from `i` on is not
    -- before it.
    pub record Split (low high : ℕ) (piv : T) (v : ℕ → T) (i : ℕ) : Type 0 where
      pub start : low < i
      pub finish : i < high
      pub lower : (k : ℕ) → low ≤ k → k < i → AtMost piv (v k)
      pub upper : (k : ℕ) → i ≤ k → k ≤ high → AtLeast piv (v k)

    -- One round of the loop that swaps two positions in order.
    Parted-swap :
        (low high : ℕ) (piv : T) (v : ℕ → T) (izq der i j : ℕ)
        → Parted low high piv v izq der
        → UpStop v piv izq der i
        → DownStop v piv izq der j
        → i < j
        → Parted low high piv (swap v i j) i j
    Parted-swap low high piv v izq der i j p u d h = record {
      start = omega (arith, p.start, u.past);
      apart = h;
      finish = omega (arith, d.before, p.finish);
      lower = λ k a b. elim (Bool-cases (k == i)) [
        | inl here ↦
            let e : k ≡ i = (==_iff k i).0 here in
            subst (λ m. AtMost piv (swap v i j m)) (sym e)
              (subst (AtMost piv) (sym (swap_left v i j)) d.stops)
        | inr other ↦
            let k_lt : k < i = ground arith in
            subst (AtMost piv) (sym (swap_other v i j k (omega arith) (omega arith)))
              (below k a k_lt)
      ];
      upper = λ k a b. elim (Bool-cases (k == j)) [
        | inl here ↦
            let e : k ≡ j = (==_iff k j).0 here in
            subst (λ m. AtLeast piv (swap v i j m)) (sym e)
              (subst (AtLeast piv) (sym (swap_right v i j)) u.stops)
        | inr other ↦
            let k_gt : j < k = ground arith in
            subst (AtLeast piv) (sym (swap_other v i j k (omega arith) (omega arith)))
              (above k k_gt b)
      ];
      pivot =
          swap_other v i j (high - 1) (omega (arith, d.before, p.finish))
            (omega (arith, d.before, p.finish))
          ∙ p.pivot;
    }
      where
        below : (k : ℕ) → low ≤ k → k < i → AtMost piv (v k)
        below k a b = elim (Bool-cases (leb k izq)) [
          | inl done ↦ p.lower k a (ground arith)
          | inr new ↦ u.passed k (ground arith) b
        ]

        above : (k : ℕ) → j < k → k ≤ high → AtLeast piv (v k)
        above k a b = elim (Bool-cases (leb der k)) [
          | inl done ↦ p.upper k (ground arith) b
          | inr new ↦ d.passed k a (ground arith)
        ]

    -- The last round.
    last-Split :
        (low high : ℕ) (piv : T) (v : ℕ → T) (izq der i j : ℕ)
        → Parted low high piv v izq der
        → UpStop v piv izq der i
        → DownStop v piv izq der j
        → j ≤ i
        → Split low high piv v i
    last-Split low high piv v izq der i j p u d h = record {
      start = omega (arith, p.start, u.past);
      finish = omega (arith, u.within, p.finish);
      lower = λ k a b. elim (Bool-cases (leb k izq)) [
        | inl done ↦ p.lower k a (ground arith)
        | inr new ↦ u.passed k (ground arith) b
      ];
      upper = λ k a b. elim (Bool-cases (k == i)) [
        | inl here ↦
            let e : k ≡ i = (==_iff k i).0 here in subst (λ m. AtLeast piv (v m)) (sym e) u.stops
        | inr other ↦ elim (Bool-cases (leb der k)) [
          | inl done ↦ p.upper k (ground arith) b
          | inr new ↦ d.passed k (ground arith) (ground arith)
        ]
      ];
    }

    swap_back : (v : ℕ → T) (i j k : ℕ) → swap (swap v i j) i j k ≡ v k
    swap_back v i j k = elim (Bool-cases (k == i)) [
      | inl at_i ↦
          let e : k ≡ i = (==_iff k i).0 at_i in
          subst (λ m. swap (swap v i j) i j m ≡ v m) (sym e)
            (swap_left (swap v i j) i j ∙ swap_right v i j)
      | inr not_i ↦ elim (Bool-cases (k == j)) [
        | inl at_j ↦
            let e : k ≡ j = (==_iff k j).0 at_j in
            subst (λ m. swap (swap v i j) i j m ≡ v m) (sym e)
              (swap_right (swap v i j) i j ∙ swap_left v i j)
        | inr not_j ↦
            swap_other (swap v i j) i j k (ground arith) (ground arith)
            ∙ swap_other v i j k (ground arith) (ground arith)
      ]
    ]

    -- What the loop gives: an array with the same elements, split, and the pivot still at its place.
    pub record LoopEnd (low high : ℕ) (piv : T) (v : ℕ → T) (r : (ℕ → T) × ℕ) : Type 0 where
      pub split : Split low high piv r.0 r.1
      pub pivot : r.0 (high - 1) ≡ piv
      pub permuted : Permuted low high v r.0

    pub part_loop-LoopEnd :
        (fuel low high : ℕ) (piv : T) (v : ℕ → T) (izq der : ℕ)
        → Parted low high piv v izq der
        → der < fuel
        → Ends (LoopEnd low high piv v) (part_loop compare fuel piv v izq der)
    unfolding part_loop
    part_loop-LoopEnd zero low high piv v izq der p h = absurd (omega arith)
    part_loop-LoopEnd (suc fuel) low high piv v izq der p h =
        Ends-bind
          (scan_up-UpStop (suc der) v piv izq der p.apart (omega (arith, p.apart))
            (p.upper der (omega arith) (omega (arith, p.finish))))
          (λ i u.
            Ends-bind (scan_down-DownStop v piv izq der p.apart (p.lower izq p.start (omega arith)))
              (λ j d.
                Ends-if (ltb i j)
                  (λ more.
                    let i_lt : i < j = ground arith in
                    Ends-map
                      (part_loop-LoopEnd fuel low high piv (swap v i j) i j
                        (Parted-swap low high piv v izq der i j p u d i_lt)
                        (omega (arith, d.before)))
                      (λ r e. record {
                        split = e.split;
                        pivot = e.pivot;
                        permuted =
                            swapped i j (omega (arith, p.start, u.past))
                              (omega (arith, u.within, p.finish)) (omega (arith, p.start, d.within))
                              (omega (arith, d.before, p.finish)) e.permuted;
                      }))
                  (λ done.
                    let s : Split low high piv v i =
                      last-Split low high piv v izq der i j p u d (ground arith) in
                    let back : (k : ℕ) → swap (swap v i j) i j k ≡ v k = swap_back v i j in
                    ends (record {
                      split = record {
                        start = s.start;
                        finish = s.finish;
                        lower = λ k a b. subst (AtMost piv) (sym (back k)) (s.lower k a b);
                        upper = λ k a b. subst (AtLeast piv) (sym (back k)) (s.upper k a b);
                      };
                      pivot = back (high - 1) ∙ p.pivot;
                      permuted = unchanged (λ k. sym (back k));
                    }))))
