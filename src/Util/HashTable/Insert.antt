-- ===== src/Util/HashTable/Insert.antt =====
-- `find_and_add_pair`, `operator[]` and `insert` of packages/basics/util/c_src/hash_table.h.
use april_ann.Prelude.{
  ℕ, ◌+◌, ◌*◌, ◌≡◌, refl, Bool, true, false, ◌&&◌, not, Option, some, none, ◌∷◌, arith, inl, inr,
  leb, if◌then◌else◌, Bool-cases, Option-cases, ◌∙◌,
}
use april_ann.Prelude.Loop.{Ends, ends, Ends-bind, Ends-map, Ends-if}
use april_ann.Util.HashKey.{Key, ◌=k=◌, masked_congr}
use april_ann.Util.HashTable.{
  Hash, index_of, find, find_pair, search, write, add_node, find_and_add_pair, insert, subscript,
}
use april_ann.Util.HashTable.Bucket.{
  Chain, value-cons, chain_write, nodes_of, nodes_of-none, value-chain_write, nodes_of-chain_write,
  length-chain_write,
}
use april_ann.Util.HashTable.Put.{Placed-put, Single-put, value-put}
use april_ann.Util.HashTable.Resize.{SameTable-refl, find-value, resize_correct}
use april_ann.Util.HashTable.Valid.{IsHash, index_of_lt, total-update}

module _ {ℓ} {K V F : Type ℓ} ⦃key : Key K⦄ where
  pub write-IsHash : (t : Hash K V F) (k : K) (d : V) → IsHash t → IsHash (write t k d)
  unfolding write
  write-IsHash t k d valid =
      let i : ℕ = index_of t k in
      let c : Chain K V = t.buckets i in
      record {
        placed =
            Placed-put t.hash_mask t.buckets t.num_buckets i (chain_write k d c) valid.placed
              (λ q h.
                valid.placed i q (index_of_lt t valid k)
                  (ground (arith, nodes_of-chain_write k q d c)));
        single =
            Single-put t.hash_mask t.buckets i (chain_write k d c) valid.single
              (λ q same. ground (arith, nodes_of-chain_write k q d c, valid.single q));
        sized = omega (
          arith,
          valid.sized,
          total-update t.num_buckets t.buckets i (chain_write k d c) (index_of_lt t valid k),
          length-chain_write k d c,
        );
        mask_of = valid.mask_of;
        power_of = valid.power_of;
      }

  pub find-write :
      (t : Hash K V F) (k q : K) (d : V) (p : K × V)
      → find_pair t k ≡ some p
      → find (write t k d) q ≡ (if q =k= k then some d else find t q)
  unfolding write find_pair
  find-write t k q d p found =
      rw (find-value (write t k d) q, find-value t q)
        (value-put t.hash_mask t.buckets k q (chain_write k d (t.buckets (index_of t k))) (some d)
          (λ same. rw same (value-chain_write k q d (t.buckets (index_of t k)) p found)))

  module _ (initial : V) (t : Hash K V F) (k : K) where
    pub add_node-IsHash : IsHash t → find_pair t k ≡ none → IsHash (add_node initial t k)
    unfolding add_node find_pair nodes_of
    add_node-IsHash valid missing =
        let i : ℕ = index_of t k in
        let c : Chain K V = t.buckets i in
        let e : K × V = (k, initial) in
        record {
          placed = Placed-put t.hash_mask t.buckets t.num_buckets i (e ∷ c) valid.placed (λ q h.
              elim (Bool-cases (q =k= k)) [
                | inl equal ↦ masked_congr t.hash_mask q k equal
                | inr other ↦ valid.placed i q (index_of_lt t valid k) (ground arith)
              ]);
          single =
              Single-put t.hash_mask t.buckets i (e ∷ c) valid.single
                (λ q same. ground (arith, nodes_of-none k q c missing, valid.single q));
          sized = omega (
            arith,
            valid.sized,
            total-update t.num_buckets t.buckets i (e ∷ c) (index_of_lt t valid k),
          );
          mask_of = valid.mask_of;
          power_of = valid.power_of;
        }

    pub find-add_node :
        (q : K) → find (add_node initial t k) q ≡ (if q =k= k then some initial else find t q)
    unfolding add_node
    find-add_node q =
        rw (find-value (add_node initial t k) q, find-value t q)
          (value-put t.hash_mask t.buckets k q ((k, initial) ∷ t.buckets (index_of t k))
            (some initial) (λ same. rw same (value-cons q (k, initial) (t.buckets (index_of t k)))))

    -- What `find_and_add_pair` does to the table.
    pub record Added (r : Bool × Hash K V F) : Type ℓ where
      pub valid : IsHash r.1
      pub is_new : r.0 ≡ not (search t k)
      pub size : r.1.the_size ≡ t.the_size + (if search t k then 0 else 1)
      pub finds :
          (q : K) → find r.1 q ≡ (if q =k= k && not (search t k) then some initial else find t q)

    -- `find_and_add_pair` ends, rehashing or not. It keeps the invariant, says whether the key was
    -- missing, and adds a missing key with the initial value; nothing else is found otherwise.
    pub find_and_add_pair_correct :
        (ceil_load : F → ℕ → ℕ) → IsHash t → Ends Added (find_and_add_pair ceil_load initial t k)
    unfolding find_and_add_pair search add_node
    find_and_add_pair_correct ceil_load valid = elim (Option-cases (find_pair t k)) [
      | inr (p, found) ↦
          let present : search t k ≡ true = rw (search, found) refl in
          rw (find_and_add_pair, found)
            (ends (record {
              valid = valid;
              is_new = rw present refl;
              size = rw present (omega arith);
              finds = λ q. rw present (ground arith);
            }))
      | inl missing ↦
          let absent : search t k ≡ false = rw (search, missing) refl in
          let added : Hash K V F = add_node initial t k in
          rw (find_and_add_pair, missing)
            (Ends-bind
              (Ends-if (leb added.rehash_threshold added.the_size)
                (λ full.
                  Ends-map
                    (resize_correct ceil_load (2 * added.num_buckets) added
                      (add_node-IsHash valid missing))
                    (λ u p. p.0))
                (λ room. ends (SameTable-refl added (add_node-IsHash valid missing))))
              (λ u same. ends (record {
                valid = same.still_valid;
                is_new = rw absent refl;
                size = rw absent (omega (arith, same.same_size));
                finds = λ q. same.same_find q ∙ (find-add_node q ∙ rw absent (ground arith));
              })))
    ]

    pair_of :
        (u : Hash K V F)
        → find u k ≡ (if k =k= k && not (search t k) then some initial else find t k)
        → (p : K × V) × (find_pair u k ≡ some p)
    unfolding find search
    pair_of u finds = elim (Option-cases (find_pair u k)) [
      | inr some_pair ↦ some_pair
      | inl missing ↦ absurd (elim (Option-cases (find_pair t k)) [
        | inl was_missing ↦ ground (arith, key.equal_key_refl k)
        | inr (p, was_found) ↦ ground (arith, key.equal_key_refl k)
      ])
    ]

    -- A write over what `find_and_add_pair` added.
    over :
        (q : K) (d : V) (o : Option V)
        → o ≡ (if q =k= k && not (search t k) then some initial else find t q)
        → (if q =k= k then some d else o) ≡ (if q =k= k then some d else find t q)
    over q d o e = elim (Bool-cases (q =k= k)) [
      | inl equal ↦ rw equal refl
      | inr other ↦ ground arith
    ]

    -- What `insert` does to the table.
    pub record Inserted (d : V) (r : Bool × Hash K V F) : Type ℓ where
      pub valid : IsHash r.1
      pub is_new : r.0 ≡ not (search t k)
      pub size : r.1.the_size ≡ t.the_size + (if search t k then 0 else 1)
      pub finds : (q : K) → find r.1 q ≡ (if q =k= k then some d else find t q)

    -- `insert` ends, rehashing or not, and keeps the invariant. It says whether the key was missing and
    -- counts a missing key; afterwards the key has the value `d`, and every other key what it had.
    pub insert_correct :
        (ceil_load : F → ℕ → ℕ) (d : V)
        → IsHash t
        → Ends (Inserted d) (insert ceil_load initial t k d)
    unfolding insert
    insert_correct ceil_load d valid =
        Ends-bind (find_and_add_pair_correct ceil_load valid) (λ r added.
          let (p, found) = pair_of r.1 (added.finds k) in
          ends (record {
            valid = write-IsHash r.1 k d added.valid;
            is_new = added.is_new;
            size = added.size;
            finds = λ q. find-write r.1 k q d p found ∙ over q d (find r.1 q) (added.finds q);
          }))

    -- `operator[]` ends. The reference leads to the value of the key, or to a new initial value.
    pub subscript_correct :
        (ceil_load : F → ℕ → ℕ)
        → IsHash t
        → Ends
            (λ r.
              IsHash r.1
              × (r.0 ≡ (if search t k then find t k else some initial))
              × ((q : K)
                  → find r.1 q ≡ (if q =k= k && not (search t k) then some initial else find t q)))
            (subscript ceil_load initial t k)
    unfolding subscript
    subscript_correct ceil_load valid =
        Ends-bind (find_and_add_pair_correct ceil_load valid)
          (λ r added. ends (added.valid, added.finds k ∙ at_key, added.finds))
      where
        at_key :
            (if k =k= k && not (search t k) then some initial else find t k)
            ≡ (if search t k then find t k else some initial)
        at_key = ground (arith, key.equal_key_refl k)
