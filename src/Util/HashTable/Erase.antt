-- ===== src/Util/HashTable/Erase.antt =====
-- `erase` and `clear` of packages/basics/util/c_src/hash_table.h.
use april_ann.Prelude.{
  ℕ, ◌+◌, ◌-◌, ◌<◌, ◌≡◌, refl, true, false, some, none, [], arith, inl, inr, ltb, ◌==◌,
  if◌then◌else◌, Bool-cases, Option-cases, length, sym, ◌∙◌, ap, lt→ltb,
}
use april_ann.Prelude.Array.{update}
use april_ann.Util.HashKey.{Key, ◌=k=◌, masked_congr}
use april_ann.Util.HashTable.{Hash, index_of, find, find_pair, search, erase, clear, empty}
use april_ann.Util.HashTable.Bucket.{
  Chain, value, chain_pair, nodes_of-none, value-none, chain_erase, nodes_of, value-chain_erase,
  nodes_of-chain_erase, length-chain_erase, chain_erase-none, chain_erase-some,
}
use april_ann.Util.HashTable.Put.{Placed-put, Single-put, value-put}
use april_ann.Util.HashTable.Resize.{find-value}
use april_ann.Util.HashTable.Valid.{
  IsHash, index_of_lt, total, total-update, total-empty, total-zero, total_cong,
}

module _ {ℓ} {K V F : Type ℓ} ⦃key : Key K⦄ (t : Hash K V F) (k : K) where
  -- What `erase` does to the table.
  pub record Erased (u : Hash K V F) : Type ℓ where
    pub valid : IsHash u
    pub size : u.the_size + (if search t k then 1 else 0) ≡ t.the_size
    pub finds : (q : K) → find u q ≡ (if q =k= k then none else find t q)

  was_present :
      (c : Chain K V) → chain_erase k (t.buckets (index_of t k)) ≡ some c → search t k ≡ true
  unfolding search find_pair
  was_present c e = elim (Option-cases (chain_pair k (t.buckets (index_of t k)))) [
    | inr (p, found) ↦ rw (search, found) refl
    | inl missing ↦
        let b : Chain K V = t.buckets (index_of t k) in
        absurd (
          omega
            (arith, chain_erase-some k b c e, nodes_of-none k k b missing (key.equal_key_refl k)))
  ]

  was_absent : chain_erase k (t.buckets (index_of t k)) ≡ none → search t k ≡ false
  unfolding search find_pair
  was_absent e = rw (search, chain_erase-none k (t.buckets (index_of t k)) e) refl

  absent_value : (q : K) → search t k ≡ false → (q =k= k) ≡ true → find t q ≡ none
  unfolding search find_pair find
  absent_value q absent same =
      let b : Chain K V = t.buckets (index_of t k) in
      let e : chain_pair k b ≡ none = ground arith in
      find-value t q
      ∙ (rw (masked_congr t.hash_mask q k same) (value-none q b (nodes_of-none k q b e same)))

  Erased-at :
      (c : Chain K V)
      → IsHash t
      → chain_erase k (t.buckets (index_of t k)) ≡ some c
      → Erased (record t { buckets = update t.buckets (index_of t k) c; the_size = t.the_size - 1 })
  unfolding find value
  Erased-at c valid e =
      let i : ℕ = index_of t k in
      let b : Chain K V = t.buckets i in
      let shorter : length c + 1 ≡ length b = length-chain_erase k b c e in
      let traded : total t.num_buckets (update t.buckets i c) + length b
          ≡ total t.num_buckets t.buckets + length c =
        total-update t.num_buckets t.buckets i c (index_of_lt t valid k) in
      record {
        valid = record {
          placed = Placed-put t.hash_mask t.buckets t.num_buckets i c valid.placed (λ q h.
              valid.placed i q (index_of_lt t valid k)
                (omega (arith, nodes_of-chain_erase k q b c e)));
          single =
              Single-put t.hash_mask t.buckets i c valid.single
                (λ q same. ground (arith, nodes_of-chain_erase k q b c e, valid.single q));
          sized = omega (arith, valid.sized);
          mask_of = valid.mask_of;
          power_of = valid.power_of;
        };
        size = rw (was_present c e) (omega (arith, valid.sized));
        finds = λ q.
            value-put t.hash_mask t.buckets k q c none
              (λ same. rw same (value-chain_erase k q b c e (ground (arith, valid.single q))));
      }

  -- `erase` keeps the invariant. It takes the key's pair away, if there is one, and counts it; what is
  -- found under other keys stays.
  pub erase_correct : IsHash t → Erased (erase t k)
  unfolding erase
  erase_correct valid = elim (Option-cases (chain_erase k (t.buckets (index_of t k)))) [
    | inr (c, e) ↦ rw (erase, e) (Erased-at c valid e)
    | inl e ↦
        let absent : search t k ≡ false = was_absent e in
        rw (erase, e)
          (record {
            valid = valid;
            size = rw absent (omega arith);
            finds = λ q. elim (Bool-cases (q =k= k)) [
              | inl same ↦ rw same (absent_value q absent same)
              | inr other ↦ rw other refl
            ];
          })
  ]

module _ {ℓ} {K V F : Type ℓ} ⦃key : Key K⦄ (t : Hash K V F) where
  -- What is left when every bucket is empty.
  pub record Cleared (u : Hash K V F) : Type ℓ where
    pub valid : IsHash u
    pub size : u.the_size ≡ 0
    pub finds : (q : K) → find u q ≡ none

  no_nodes :
      (u : Hash K V F) → IsHash u → ((i : ℕ) → i < u.num_buckets → u.buckets i ≡ []) → Cleared u
  unfolding total value chain_pair
  no_nodes u valid h = record {
    valid = valid;
    size =
        valid.sized
        ∙ (total_cong u.num_buckets u.buckets (λ _. []) (λ i q. ap length (h i q))
            ∙ total-empty u.num_buckets (λ _. []) (λ i. refl));
    finds = λ q. find-value u q ∙ rw (h (index_of u q) (index_of_lt u valid q)) refl;
  }

  emptied : ℕ → Chain K V
  emptied i = if ltb i t.num_buckets then [] else t.buckets i

  emptied_nil : (i : ℕ) → i < t.num_buckets → emptied i ≡ []
  unfolding emptied
  emptied_nil i h = let e : ltb i t.num_buckets ≡ true = lt→ltb i t.num_buckets h in rw e refl

  emptied-IsHash : IsHash t → IsHash (record t { buckets = emptied; the_size = 0 })
  unfolding nodes_of
  emptied-IsHash valid = record {
    placed = λ i k h some_node.
        let none_here : nodes_of k (emptied i) ≡ 0 = rw (emptied_nil i h) refl in
        absurd (omega arith);
    single = λ k.
        let none_here : nodes_of k (emptied (index_of t k)) ≡ 0 =
          rw (emptied_nil (index_of t k) (index_of_lt t valid k)) refl in
        omega arith;
    sized = sym (
        total_cong t.num_buckets emptied (λ _. []) (λ i q. ap length (emptied_nil i q))
        ∙ total-empty t.num_buckets (λ _. []) (λ i. refl));
    mask_of = valid.mask_of;
    power_of = valid.power_of;
  }

  -- `clear` keeps the invariant and leaves nothing to be found.
  pub clear_correct : IsHash t → Cleared (clear t)
  unfolding clear empty emptied
  clear_correct valid = elim (Bool-cases (t.the_size == 0)) [
    | inl none_left ↦
        rw none_left
          (no_nodes t valid (total-zero t.num_buckets t.buckets (ground (arith, valid.sized))))
    | inr some_left ↦
        rw some_left (
          no_nodes (record t { buckets = emptied; the_size = 0 }) (emptied-IsHash valid)
            emptied_nil)
  ]
