-- ===== src/Util/HashTable/Walk.antt =====
-- `get_hash_nodes` and the iterators of packages/basics/util/c_src/hash_table.h.
use april_ann.Prelude.{
  ℕ, zero, suc, ◌≤◌, ◌≡◌, refl, true, false, none, arith, inl, inr, ltb, ◌==◌, if◌then◌else◌,
  Bool-cases, length, length-zero, sym, ◌∙◌, lt→ltb,
}
use april_ann.Util.HashKey.{Key, masked}
use april_ann.Util.HashTable.{Hash, index_of, find, push_nodes, get_hash_nodes, empty}
use april_ann.Util.HashTable.Bucket.{
  Chain, chain_pair, or_else-none, value, value-append, value-none, nodes_of, nodes_of-append,
}
use april_ann.Util.HashTable.Resize.{find-value}
use april_ann.Util.HashTable.Valid.{IsHash, Placed, index_of_lt, length-push_nodes}

module _ {ℓ} {K V : Type ℓ} ⦃key : Key K⦄ (mask : ℕ) (b : ℕ → Chain K V) where
  nodes_of-push_nodes :
      (m n : ℕ) (q : K)
      → m ≤ n
      → Placed mask n b
      → nodes_of q (push_nodes m b)
        ≡ (if ltb (masked mask q) m then nodes_of q (b (masked mask q)) else 0)
  unfolding push_nodes nodes_of
  nodes_of-push_nodes zero n q h placed = ground arith
  nodes_of-push_nodes (suc m) n q h placed = elim (Bool-cases (masked mask q == m)) [
    | inl same ↦ ground (
      arith,
      nodes_of-append q (push_nodes m b) (b m),
      nodes_of-push_nodes m n q (omega arith) placed,
    )
    | inr other ↦
        let none_here : nodes_of q (b m) ≡ 0 = ground (arith, placed m q) in
        ground (
          arith,
          nodes_of-append q (push_nodes m b) (b m),
          nodes_of-push_nodes m n q (omega arith) placed,
        )
  ]

  value-push_nodes :
      (m n : ℕ) (q : K)
      → m ≤ n
      → Placed mask n b
      → value q (push_nodes m b)
        ≡ (if ltb (masked mask q) m then value q (b (masked mask q)) else none)
  unfolding push_nodes value chain_pair
  value-push_nodes zero n q h placed =
      let e : ltb (masked mask q) 0 ≡ false = ground arith in rw e refl
  value-push_nodes (suc m) n q h placed = elim (Bool-cases (masked mask q == m)) [
    | inl same ↦
        let at : masked mask q ≡ m = ground arith in
        let now : ltb (masked mask q) (suc m) ≡ true = ground arith in
        let before : ltb (masked mask q) m ≡ false = ground arith in
        rw
          (
            value-append q (push_nodes m b) (b m),
            value-push_nodes m n q (omega arith) placed,
            now,
            before,
            at,
          )
          refl
    | inr other ↦
        let as_before : ltb (masked mask q) (suc m) ≡ ltb (masked mask q) m = ground arith in
        let none_here : nodes_of q (b m) ≡ 0 = ground (arith, placed m q) in
        rw
          (
            value-append q (push_nodes m b) (b m),
            value-none q (b m) none_here,
            or_else-none (value q (push_nodes m b)),
            as_before,
          )
          (value-push_nodes m n q (omega arith) placed)
  ]

module _ {ℓ} {K V F : Type ℓ} ⦃key : Key K⦄ (t : Hash K V F) where
  -- An empty table has no nodes either.
  pub all_nodes : IsHash t → get_hash_nodes t ≡ push_nodes t.num_buckets t.buckets
  unfolding get_hash_nodes empty
  all_nodes valid = elim (Bool-cases (t.the_size == 0)) [
    | inl none_left ↦
        let none_there : length (push_nodes t.num_buckets t.buckets) ≡ 0 =
          ground (arith, length-push_nodes t.num_buckets t.buckets, valid.sized) in
        rw none_left (sym (length-zero (push_nodes t.num_buckets t.buckets) none_there))
    | inr some_left ↦ rw some_left refl
  ]

  -- The nodes collected are as many as `the_size` says, and hold every key at most once, with the value
  -- that `find` gives.
  get_hash_nodes_correct :
      IsHash t
      → (length (get_hash_nodes t) ≡ t.the_size)
        × ((q : K) → nodes_of q (get_hash_nodes t) ≤ 1)
        × ((q : K) → value q (get_hash_nodes t) ≡ find t q)
  get_hash_nodes_correct valid = rw (all_nodes valid) (
    length-push_nodes t.num_buckets t.buckets ∙ sym valid.sized,
    λ q. ground (
      arith,
      nodes_of-push_nodes t.hash_mask t.buckets t.num_buckets t.num_buckets q,
      valid.placed,
      valid.single q,
    ),
    λ q.
        let e : ltb (index_of t q) t.num_buckets ≡ true =
          lt→ltb (index_of t q) t.num_buckets (index_of_lt t valid q) in
        rw
          (
            value-push_nodes t.hash_mask t.buckets t.num_buckets t.num_buckets q (omega arith)
                valid.placed,
            e,
          )
          (sym (find-value t q)),
  )
