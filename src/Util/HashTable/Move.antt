-- ===== src/Util/HashTable/Move.antt =====
-- The loops of `resize`: every node of the old buckets goes before the others of its new bucket.
use april_ann.Prelude.{
  ℕ, zero, suc, ◌+◌, ◌≤◌, ◌<◌, ◌≡◌, refl, true, false, none, some, [], ◌∷◌, arith, inl, inr, ltb,
  ◌==◌, if◌then◌else◌, Bool-cases, length, sym,
}
use april_ann.Prelude.Array.{update}
use april_ann.Util.HashKey.{Key, ◌=k=◌, masked, masked_le, masked_congr}
use april_ann.Util.HashTable.{move_chain, move_all}
use april_ann.Util.HashTable.Bucket.{
  chain_pair, Chain, or_else, or_else-none, nodes_of, value, value-cons, value-none,
}
use april_ann.Util.HashTable.Put.{Placed-put, value-put}
use april_ann.Util.HashTable.Valid.{Placed, Single, total-empty, total, total-update}

module _ {ℓ} {K V : Type ℓ} ⦃key : Key K⦄ (mask : ℕ) where
  -- A node goes before the others of its bucket.
  abbrev pub push_node : K × V → (ℕ → Chain K V) → ℕ → Chain K V
  push_node e b = let i = masked mask e.0 in update b i (e ∷ b i)

  pub Placed-push_node :
      (n : ℕ) (e : K × V) (b : ℕ → Chain K V)
      → masked mask e.0 < n
      → Placed mask n b
      → Placed mask n (push_node e b)
  unfolding nodes_of
  Placed-push_node n e b below old =
      Placed-put mask b n (masked mask e.0) (e ∷ b (masked mask e.0)) old (λ q h.
        elim (Bool-cases (q =k= e.0)) [
          | inl equal ↦ masked_congr mask q e.0 equal
          | inr other ↦ old (masked mask e.0) q below (ground arith)
        ])

  pub nodes_of-push_node :
      (q : K) (e : K × V) (b : ℕ → Chain K V)
      → nodes_of q (push_node e b (masked mask q))
        ≡ (if q =k= e.0 then 1 else 0) + nodes_of q (b (masked mask q))
  unfolding nodes_of
  nodes_of-push_node q e b = ground (arith, masked_congr mask q e.0)

  pub value-push_node :
      (q : K) (e : K × V) (b : ℕ → Chain K V)
      → value q (push_node e b (masked mask q))
        ≡ (if q =k= e.0 then some e.1 else value q (b (masked mask q)))
  value-push_node q e b =
      value-put mask b e.0 q (e ∷ b (masked mask e.0)) (some e.1)
        (λ same. rw same (value-cons q e (b (masked mask e.0))))

  pub Placed-move_chain :
      (n : ℕ) (c : Chain K V) (b : ℕ → Chain K V)
      → mask < n
      → Placed mask n b
      → Placed mask n (move_chain mask c b)
  unfolding move_chain
  Placed-move_chain n [] b below old = old
  Placed-move_chain n (e ∷ c) b below old =
      Placed-move_chain n c (push_node e b) below
        (Placed-push_node n e b (omega (arith, masked_le mask e.0)) old)

  pub nodes_of-move_chain :
      (q : K) (c : Chain K V) (b : ℕ → Chain K V)
      → nodes_of q (move_chain mask c b (masked mask q))
        ≡ nodes_of q c + nodes_of q (b (masked mask q))
  unfolding move_chain nodes_of
  nodes_of-move_chain q [] b = omega arith
  nodes_of-move_chain q (e ∷ c) b =
      omega (arith, nodes_of-move_chain q c (push_node e b), nodes_of-push_node q e b)

  pub value-move_chain :
      (q : K) (c : Chain K V) (b : ℕ → Chain K V)
      → nodes_of q c ≤ 1
      → value q (move_chain mask c b (masked mask q))
        ≡ or_else (value q c) (value q (b (masked mask q)))
  unfolding move_chain nodes_of value chain_pair
  value-move_chain q [] b h = refl
  value-move_chain q (e ∷ c) b h =
      rw
        (
          value-move_chain q c (push_node e b) (omega arith),
          value-push_node q e b,
          value-cons q e c,
        )
        (elim (Bool-cases (q =k= e.0)) [
          | inl equal ↦ rw (equal, value-none q c (ground arith)) refl
          | inr other ↦ rw other refl
        ])

  pub total-move_chain :
      (n : ℕ) (c : Chain K V) (b : ℕ → Chain K V)
      → mask < n
      → total n (move_chain mask c b) ≡ total n b + length c
  unfolding move_chain
  total-move_chain n [] b below = omega arith
  total-move_chain n (e ∷ c) b below = omega (
    arith,
    total-move_chain n c (push_node e b) below,
    total-update n b (masked mask e.0) (e ∷ b (masked mask e.0))
        (omega (arith, masked_le mask e.0)),
  )

  pub Placed-move_all :
      (m n : ℕ) (old : ℕ → Chain K V) → mask < n → Placed mask n (move_all mask m old)
  unfolding move_all nodes_of
  Placed-move_all zero n old below = λ i q h some_node. absurd (omega arith)
  Placed-move_all (suc m) n old below =
      Placed-move_chain n (old m) (move_all mask m old) below (Placed-move_all m n old below)

  pub total-move_all :
      (m n : ℕ) (old : ℕ → Chain K V) → mask < n → total n (move_all mask m old) ≡ total m old
  unfolding move_all total
  total-move_all zero n old below = total-empty n (λ _. []) (λ i. refl)
  total-move_all (suc m) n old below =
      omega (
        arith,
        total-move_chain n (old m) (move_all mask m old) below,
        total-move_all m n old below,
      )

-- The old buckets, by the old mask, and the new ones.
module _ {ℓ} {K V : Type ℓ} ⦃key : Key K⦄ (was mask : ℕ) (old : ℕ → Chain K V) where
  -- Before the old bucket of a key is moved the key has no node, and then what that bucket has.
  pub nodes_of-move_all :
      (m n : ℕ) (q : K)
      → m ≤ n
      → Placed was n old
      → nodes_of q (move_all mask m old (masked mask q))
        ≡ (if ltb (masked was q) m then nodes_of q (old (masked was q)) else 0)
  unfolding move_all nodes_of
  nodes_of-move_all zero n q h placed = ground arith
  nodes_of-move_all (suc m) n q h placed = elim (Bool-cases (masked was q == m)) [
    | inl same ↦ ground (
      arith,
      nodes_of-move_chain mask q (old m) (move_all mask m old),
      nodes_of-move_all m n q (omega arith) placed,
    )
    | inr other ↦
        let none_here : nodes_of q (old m) ≡ 0 = ground (arith, placed m q) in
        ground (
          arith,
          nodes_of-move_chain mask q (old m) (move_all mask m old),
          nodes_of-move_all m n q (omega arith) placed,
        )
  ]

  pub value-move_all :
      (m n : ℕ) (q : K)
      → m ≤ n
      → Placed was n old
      → Single was old
      → value q (move_all mask m old (masked mask q))
        ≡ (if ltb (masked was q) m then value q (old (masked was q)) else none)
  unfolding move_all value chain_pair
  value-move_all zero n q h placed single =
      let e : ltb (masked was q) 0 ≡ false = ground arith in rw e refl
  value-move_all (suc m) n q h placed single = elim (Bool-cases (masked was q == m)) [
    | inl same ↦
        let at : masked was q ≡ m = ground arith in
        let now : ltb (masked was q) (suc m) ≡ true = ground arith in
        let before : ltb (masked was q) m ≡ false = ground arith in
        let one : nodes_of q (old m) ≤ 1 = ground (arith, single q) in
        rw
          (
            value-move_chain mask q (old m) (move_all mask m old) one,
            value-move_all m n q (omega arith) placed single,
            now,
            before,
            sym at,
          )
          (or_else-none (value q (old (masked was q))))
    | inr other ↦
        let as_before : ltb (masked was q) (suc m) ≡ ltb (masked was q) m = ground arith in
        let none_here : nodes_of q (old m) ≡ 0 = ground (arith, placed m q) in
        rw
          (
            value-move_chain mask q (old m) (move_all mask m old) (omega arith),
            value-none q (old m) none_here,
            as_before,
          )
          (value-move_all m n q (omega arith) placed single)
  ]
