-- ===== src/Util/HashTable/Put.antt =====
-- One bucket of the table is replaced, the bucket of a key `k`: what that asks of the new chain.
use april_ann.Prelude.{ℕ, ◌≤◌, ◌≡◌, Option, arith, inl, inr, ◌==◌, if◌then◌else◌, Bool-cases}
use april_ann.Prelude.Array.{update}
use april_ann.Util.HashKey.{Key, ◌=k=◌, masked, masked_congr}
use april_ann.Util.HashTable.Bucket.{Chain, nodes_of, value}
use april_ann.Util.HashTable.Valid.{Placed, Single}

module _ {ℓ} {K V : Type ℓ} ⦃key : Key K⦄ (mask : ℕ) (b : ℕ → Chain K V) where
  pub Placed-put :
      (n i : ℕ) (c : Chain K V)
      → Placed mask n b
      → ((q : K) → 1 ≤ nodes_of q c → masked mask q ≡ i)
      → Placed mask n (update b i c)
  Placed-put n i c old new j q below some_node = elim (Bool-cases (i == j)) [
    | inl same ↦ ground (arith, new q (ground arith))
    | inr other ↦ old j q below (ground arith)
  ]

  pub Single-put :
      (i : ℕ) (c : Chain K V)
      → Single mask b
      → ((q : K) → masked mask q ≡ i → nodes_of q c ≤ 1)
      → Single mask (update b i c)
  Single-put i c old new q = elim (Bool-cases (i == masked mask q)) [
    | inl same ↦ ground (arith, new q (ground arith))
    | inr other ↦ ground (arith, old q)
  ]

  pub value-put :
      (k q : K) (c : Chain K V) (o : Option V)
      → (masked mask q ≡ masked mask k
          → value q c ≡ (if q =k= k then o else value q (b (masked mask q))))
      → value q (update b (masked mask k) c (masked mask q))
        ≡ (if q =k= k then o else value q (b (masked mask q)))
  value-put k q c o h = elim (Bool-cases (masked mask k == masked mask q)) [
    | inl same ↦ rw same (h (ground arith))
    | inr other ↦ rw other (elim (Bool-cases (q =k= k)) [
      | inl equal ↦ absurd (ground (arith, masked_congr mask q k equal))
      | inr unequal ↦ ground arith
    ])
  ]
