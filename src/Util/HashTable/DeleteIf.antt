-- ===== src/Util/HashTable/DeleteIf.antt =====
-- `delete_if` of packages/basics/util/c_src/hash_table.h.
use april_ann.Prelude.{
  ℕ, zero, suc, ◌+◌, ◌≤◌, ◌<◌, ◌≡◌, refl, Bool, true, Option, some, none, List, [], ◌∷◌, ◌++◌,
  arith, inl, inr, ltb, if◌then◌else◌, Bool-cases, length, sym, ◌∙◌, ap, lt→ltb,
}
use april_ann.Util.HashKey.{Key, ◌=k=◌}
use april_ann.Util.HashTable.{Hash, index_of, find_pair, push_nodes, chain_delete_if, delete_if}
use april_ann.Util.HashTable.Bucket.{Chain, chain_pair, nodes_of}
use april_ann.Util.HashTable.Valid.{IsHash, Placed, Single, index_of_lt, total}

-- A pair that fails the predicate is kept.
abbrev pub keep {ℓ} : {A : Type ℓ} → (A → Bool) → Option A → Option A
keep p none = none
keep p (some e) = if p e then none else some e

-- How many pairs pass the predicate.
unfoldable pub passing {ℓ} : {A : Type ℓ} → (A → Bool) → List A → ℕ
passing p [] = 0
passing p (e ∷ c) = (if p e then 1 else 0) + passing p c

module _ {ℓ} {K V : Type ℓ} (p : K × V → Bool) where
  length-chain_delete_if : (c : Chain K V) → length (chain_delete_if p c) + passing p c ≡ length c
  unfolding chain_delete_if passing
  length-chain_delete_if [] = omega arith
  length-chain_delete_if (e ∷ c) = ground (arith, length-chain_delete_if c)

  passing-append : (a b : List (K × V)) → passing p (a ++ b) ≡ passing p a + passing p b
  unfolding passing
  passing-append [] b = omega arith
  passing-append (e ∷ a) b = omega (arith, passing-append a b)

module _ {ℓ} {K V : Type ℓ} ⦃key : Key K⦄ (p : K × V → Bool) (q : K) where
  nodes_of-chain_delete_if : (c : Chain K V) → nodes_of q (chain_delete_if p c) ≤ nodes_of q c
  unfolding chain_delete_if nodes_of
  nodes_of-chain_delete_if [] = omega arith
  nodes_of-chain_delete_if (e ∷ c) = ground (arith, nodes_of-chain_delete_if c)

  chain_pair-none : (c : Chain K V) → nodes_of q c ≡ 0 → chain_pair q c ≡ none
  unfolding chain_pair nodes_of
  chain_pair-none [] h = refl
  chain_pair-none (e ∷ c) h = ground (arith, chain_pair-none c)

  chain_pair-chain_delete_if :
      (c : Chain K V)
      → nodes_of q c ≤ 1
      → chain_pair q (chain_delete_if p c) ≡ keep p (chain_pair q c)
  unfolding chain_pair chain_delete_if nodes_of
  chain_pair-chain_delete_if [] h = refl
  chain_pair-chain_delete_if (e ∷ c) h =
      let ih : chain_pair q (chain_delete_if p c) ≡ keep p (chain_pair q c) =
        chain_pair-chain_delete_if c (omega arith) in
      elim (Bool-cases (q =k= e.0)) [
        | inl same ↦
            let no_more : chain_pair q (chain_delete_if p c) ≡ none =
              ih ∙ rw (chain_pair-none c (ground arith)) refl in
            elim (Bool-cases (p e)) [
              | inl goes ↦ rw (goes, same, no_more, goes) refl
              | inr stays ↦ rw (stays, same, stays) refl
            ]
        | inr other ↦ elim (Bool-cases (p e)) [
          | inl goes ↦ rw (goes, other) ih
          | inr stays ↦ rw (stays, other) ih
        ]
      ]

module _ {ℓ} {K V F : Type ℓ} ⦃key : Key K⦄ (p : K × V → Bool) (t : Hash K V F) where
  left : ℕ → Chain K V
  left i = if ltb i t.num_buckets then chain_delete_if p (t.buckets i) else t.buckets i

  left_at : (i : ℕ) → i < t.num_buckets → left i ≡ chain_delete_if p (t.buckets i)
  unfolding left
  left_at i h = let e : ltb i t.num_buckets ≡ true = lt→ltb i t.num_buckets h in rw e refl

  total-left :
      (m : ℕ)
      → m ≤ t.num_buckets
      → total m left + passing p (push_nodes m t.buckets) ≡ total m t.buckets
  unfolding total push_nodes passing
  total-left zero h = omega arith
  total-left (suc m) h =
      let here : length (left m) ≡ length (chain_delete_if p (t.buckets m)) =
        ap length (left_at m (omega arith)) in
      omega (
        arith,
        total-left m (omega arith),
        length-chain_delete_if p (t.buckets m),
        passing-append p (push_nodes m t.buckets) (t.buckets m),
      )

  -- What `delete_if` does to the table.
  pub record Deleted (u : Hash K V F) : Type ℓ where
    pub placed : Placed u.hash_mask u.num_buckets u.buckets
    pub single : Single u.hash_mask u.buckets
    pub finds : (q : K) → find_pair u q ≡ keep p (find_pair t q)
    pub overcounts :
        u.the_size ≡ total u.num_buckets u.buckets + passing p (push_nodes t.num_buckets t.buckets)

  -- `delete_if` removes exactly the pairs that pass the predicate, and keeps the other nodes in their
  -- buckets. The size stays, so that it is too large by the number of pairs removed.
  pub delete_if_correct : IsHash t → Deleted (delete_if p t)
  unfolding delete_if find_pair left
  delete_if_correct valid =
      let at : (k : K) → left (index_of t k) ≡ chain_delete_if p (t.buckets (index_of t k)) =
        λ k. left_at (index_of t k) (index_of_lt t valid k) in
      record {
        placed = λ i k h some_node.
            let fewer : nodes_of k (left i) ≤ nodes_of k (t.buckets i) =
              rw (left_at i h) (nodes_of-chain_delete_if p k (t.buckets i)) in
            valid.placed i k h (omega arith);
        single = λ k.
            let fewer : nodes_of k (left (index_of t k)) ≤ nodes_of k (t.buckets (index_of t k)) =
              rw (at k) (nodes_of-chain_delete_if p k (t.buckets (index_of t k))) in
            omega (arith, valid.single k);
        finds = λ q.
            ap (chain_pair q) (at q)
            ∙ chain_pair-chain_delete_if p q (t.buckets (index_of t q)) (valid.single q);
        overcounts = valid.sized ∙ sym (total-left t.num_buckets (omega arith));
      }
