-- ===== src/Util/Qsort/Insertion.antt =====
-- `InsertionSort` of packages/basics/util/c_src/qsort.h.
use mathlib.Core.Path.{subst}
use april_ann.Prelude.{
  ℕ, zero, suc, ◌+◌, ◌-◌, ◌≤◌, ◌<◌, ◌≡◌, refl, ◌≢◌, Bool, true, false, arith, inl, inr, ◌==◌, leb,
  Bool-cases, sym, ap, ==_iff,
}
use april_ann.Prelude.Array.{update}
use april_ann.Util.MinHeap.Order.{IsWeakOrder}
use april_ann.Util.Qsort.{shift, insert_all, insertion_sort, swap}
use april_ann.Util.Qsort.Permuted.{
  Permuted, swapped, Permuted-refl, Permuted-trans, Permuted-start, Permuted-widen,
}

update_self {ℓ} : {T : Type ℓ} (u : ℕ → T) (m k : ℕ) → u k ≡ update u m (u m) k
update_self u m k = elim (Bool-cases (m == k)) [
  | inl same ↦ let e : m ≡ k = (==_iff m k).0 same in rw same (sym (ap u e))
  | inr other ↦ rw other refl
]

module _ {T : Type 0} (compare : T → T → Bool) where
  -- No element of the range is before an earlier one.
  abbrev pub Sorted : (ℕ → T) → ℕ → ℕ → Type 0
  Sorted v low high = (i j : ℕ) → low ≤ i → i ≤ j → j ≤ high → compare (v j) (v i) ≡ false

  module _ (w : IsWeakOrder compare) where
    pub not_before_self : (a : T) → compare a a ≡ false
    not_before_self a = elim (Bool-cases (compare a a)) [
      | inl e ↦ absurd (ground (arith, w.asymm a a))
      | inr e ↦ e
    ]

    -- `aux` belongs at the gap: what is before the gap is sorted, what is after it up to `high` is
    -- sorted, and `aux` is before all of that.
    record Gap (low high gap : ℕ) (aux : T) (v : ℕ → T) : Type 0 where
      sorted :
          (i j : ℕ) → low ≤ i → i ≤ j → j ≤ high → i ≢ gap → j ≢ gap → compare (v j) (v i) ≡ false
      above : (j : ℕ) → gap < j → j ≤ high → compare aux (v j) ≡ true

    filled-Sorted :
        (low high gap : ℕ) (aux : T) (v : ℕ → T)
        → Gap low high gap aux v
        → ((i : ℕ) → low ≤ i → i < gap → compare aux (v i) ≡ false)
        → Sorted (update v gap aux) low high
    filled-Sorted low high gap aux v g before i j a b c = elim (Bool-cases (gap == i)) [
      | inl i_there ↦ elim (Bool-cases (gap == j)) [
        | inl j_there ↦ rw (i_there, j_there) (not_before_self aux)
        | inr j_after ↦ rw (i_there, j_after) (w.asymm aux (v j) (g.above j (ground arith) c))
      ]
      | inr i_off ↦ elim (Bool-cases (gap == j)) [
        | inl j_there ↦ rw (i_off, j_there) (before i a (ground arith))
        | inr j_off ↦ rw (i_off, j_off) (g.sorted i j a b c (ground arith) (ground arith))
      ]
    ]

    -- The element before the gap moves into it.
    shifted-Gap :
        (low high j : ℕ) (aux : T) (v : ℕ → T)
        → low ≤ j
        → suc j ≤ high
        → Gap low high (suc j) aux v
        → compare aux (v j) ≡ true
        → Gap low high j aux (update v (suc j) (v j))
    shifted-Gap low high j aux v l h g e = record {
      sorted = λ i k a b c not_i not_k.
          let self : compare (v j) (v j) ≡ false = not_before_self (v j) in
          elim (Bool-cases (suc j == k)) [
            | inl k_there ↦ elim (Bool-cases (suc j == i)) [
              | inl i_there ↦ rw (i_there, k_there) self
              | inr i_off ↦
                  rw (i_off, k_there)
                    (g.sorted i j a (ground arith) (omega arith) (ground arith) (omega arith))
            ]
            | inr k_off ↦ elim (Bool-cases (suc j == i)) [
              | inl i_there ↦
                  rw (i_there, k_off) (g.sorted j k l (ground arith) c (omega arith) (ground arith))
              | inr i_off ↦ rw (i_off, k_off) (g.sorted i k a b c (ground arith) (ground arith))
            ]
          ];
      above = λ k a b. elim (Bool-cases (suc j == k)) [
        | inl there ↦ rw there e
        | inr off ↦ rw off (g.above k (ground arith) b)
      ];
    }

    shifted_swap :
        (j : ℕ) (aux : T) (v : ℕ → T) (k : ℕ)
        → update (update v (suc j) (v j)) j aux k ≡ swap (update v (suc j) aux) j (suc j) k
    unfolding swap
    shifted_swap j aux v k = ground arith

    shift_correct :
        (low high gap : ℕ) (aux : T) (v : ℕ → T)
        → low ≤ gap
        → gap ≤ high
        → Gap low high gap aux v
        → Sorted (shift compare low aux gap v) low high
          × Permuted low high (update v gap aux) (shift compare low aux gap v)
    unfolding shift
    shift_correct low high zero aux v l h g = (
      filled-Sorted low high 0 aux v g (λ i a b. absurd (omega arith)),
      Permuted-refl low high (update v 0 aux),
    )
    shift_correct low high (suc j) aux v l h g = elim (Bool-cases (leb low j)) [
      | inr first ↦ rw first (
        filled-Sorted low high (suc j) aux v g (λ i a b. absurd (ground arith)),
        Permuted-refl low high (update v (suc j) aux),
      )
      | inl inside ↦
          let l' : low ≤ j = ground arith in
          rw inside (elim (Bool-cases (compare aux (v j))) [
            | inl before ↦
                let (sorted, permuted) =
                  shift_correct low high j aux (update v (suc j) (v j)) l' (omega arith)
                    (shifted-Gap low high j aux v l' h g before) in
                rw before (
                  sorted,
                  swapped j (suc j) l' (omega arith) l h (
                      Permuted-start low high permuted (swap (update v (suc j) aux) j (suc j))
                        (λ k. sym (shifted_swap j aux v k))),
                )
            | inr not_before ↦ rw not_before (
              filled-Sorted low high (suc j) aux v g (λ i a b.
                  w.trans (v i) (v j) aux
                    (g.sorted i j a (omega arith) (omega arith) (omega arith) (omega arith))
                    not_before),
              Permuted-refl low high (update v (suc j) aux),
            )
          ])
    ]

    insert_all_correct :
        (low n : ℕ) (v : ℕ → T)
        → Sorted (insert_all compare low n v) low (low + n)
          × Permuted low (low + n) v (insert_all compare low n v)
    unfolding insert_all
    insert_all_correct low zero v = (
      (λ i j a b c.
          let e : i ≡ j = omega arith in
          subst (λ m. compare (v m) (v i) ≡ false) e (not_before_self (v i))),
      Permuted-refl low (low + 0) v,
    )
    insert_all_correct low (suc n) v =
        let u : ℕ → T = insert_all compare low n v in
        let m : ℕ = low + suc n in
        let (sorted, permuted) = insert_all_correct low n v in
        let back : (k : ℕ) → u k ≡ update u m (u m) k = update_self u m in
        let (sorted', permuted') =
          shift_correct low m m (u m) u (omega arith) (omega arith) (record {
            sorted = λ i j a b c not_i not_j. sorted i j a b (omega arith);
            above = λ j a b. absurd (omega arith);
          }) in
        (
          sorted',
          Permuted-trans low m
              (Permuted-widen low (low + n) low m (omega arith) (omega arith) permuted)
              (Permuted-start low m permuted' u back),
        )

    -- `InsertionSort` sorts the range and only moves elements inside it.
    pub insertion_sort_correct :
        (v : ℕ → T) (low high : ℕ)
        → low ≤ high
        → Sorted (insertion_sort compare v low high) low high
          × Permuted low high v (insertion_sort compare v low high)
    unfolding insertion_sort
    insertion_sort_correct v low high h =
        let e : low + (high - low) ≡ high = omega arith in
        subst
          (λ m.
            Sorted (insertion_sort compare v low high) low m
            × Permuted low m v (insertion_sort compare v low high))
          e (insert_all_correct low (high - low) v)
