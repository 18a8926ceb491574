-- ===== src/Util/HashTable/Valid.antt =====
-- What the operations of the table keep: every node stands in the bucket of its key, no key has two
-- nodes, and `the_size` counts the nodes.
use april_ann.Prelude.{
  ℕ, zero, suc, ◌+◌, ◌^◌, ◌≤◌, ◌<◌, ◌≡◌, refl, [], arith, inl, inr, ◌==◌, Bool-cases, length,
  length-append, length-zero, ==_iff,
}
use april_ann.Prelude.Array.{update}
use april_ann.Util.HashKey.{Key, masked, masked_le}
use april_ann.Util.HashTable.{Hash, push_nodes, index_of}
use april_ann.Util.HashTable.Bucket.{Chain, nodes_of}

module _ {ℓ} {K V : Type ℓ} where
  -- How many nodes the buckets before `n` have.
  unfoldable pub total : ℕ → (ℕ → Chain K V) → ℕ
  total zero b = 0
  total (suc n) b = total n b + length (b n)

  pub length-push_nodes : (n : ℕ) (b : ℕ → Chain K V) → length (push_nodes n b) ≡ total n b
  unfolding push_nodes total
  length-push_nodes zero b = refl
  length-push_nodes (suc n) b =
      omega (arith, length-append (push_nodes n b) (b n), length-push_nodes n b)

  pub total_cong :
      (n : ℕ) (a b : ℕ → Chain K V)
      → ((i : ℕ) → i < n → length (a i) ≡ length (b i))
      → total n a ≡ total n b
  unfolding total
  total_cong zero a b h = refl
  total_cong (suc n) a b h =
      omega (arith, total_cong n a b (λ i q. h i (omega arith)), h n (omega arith))

  pub total-update :
      (n : ℕ) (b : ℕ → Chain K V) (i : ℕ) (c : Chain K V)
      → i < n
      → total n (update b i c) + length (b i) ≡ total n b + length c
  unfolding total
  total-update zero b i c h = absurd (omega arith)
  total-update (suc n) b i c h = elim (Bool-cases (i == n)) [
    | inl same ↦ ground (arith, total_cong n (update b i c) b (λ j q. ground arith))
    | inr other ↦ ground (arith, total-update n b i c (ground arith))
  ]

  pub total-empty : (n : ℕ) (b : ℕ → Chain K V) → ((i : ℕ) → b i ≡ []) → total n b ≡ 0
  unfolding total
  total-empty zero b h = refl
  total-empty (suc n) b h = rw h (omega (arith, total-empty n b h))

  pub total-zero : (n : ℕ) (b : ℕ → Chain K V) → total n b ≡ 0 → (i : ℕ) → i < n → b i ≡ []
  unfolding total
  total-zero zero b h i q = absurd (omega arith)
  total-zero (suc n) b h i q = elim (Bool-cases (i == n)) [
    | inl same ↦ rw ((==_iff i n).0 same) (length-zero (b n) (omega arith))
    | inr other ↦ total-zero n b (omega arith) i (ground arith)
  ]

module _ {ℓ} {K V : Type ℓ} ⦃key : Key K⦄ where
  abbrev pub Placed : ℕ → ℕ → (ℕ → Chain K V) → Type ℓ
  Placed mask n b = (i : ℕ) (k : K) → i < n → 1 ≤ nodes_of k (b i) → masked mask k ≡ i

  abbrev pub Single : ℕ → (ℕ → Chain K V) → Type ℓ
  Single mask b = (k : K) → nodes_of k (b (masked mask k)) ≤ 1

module _ {ℓ} {K V F : Type ℓ} ⦃key : Key K⦄ where
  pub record IsHash (t : Hash K V F) : Type ℓ where
    pub placed : Placed t.hash_mask t.num_buckets t.buckets
    pub single : Single t.hash_mask t.buckets
    pub sized : t.the_size ≡ total t.num_buckets t.buckets
    pub mask_of : t.hash_mask + 1 ≡ t.num_buckets
    pub power_of : (e : ℕ) × (t.num_buckets ≡ 2 ^ e)

  pub index_of_lt : (t : Hash K V F) → IsHash t → (k : K) → index_of t k < t.num_buckets
  index_of_lt t valid k = ground (arith, masked_le t.hash_mask k, valid.mask_of)
