-- ===== src/Util/HashTable/Load.antt =====
-- The load of a table of packages/basics/util/c_src/hash_table.h: insertion rehashes in time.
use native.Mathlib.Nat.{two-pow-succ, one-le-pow}
use april_ann.Prelude.{
  ℕ, suc, ◌+◌, ◌*◌, ◌≤◌, ◌<◌, ◌^◌, ◌≡◌, refl, false, some, none, [], arith, inl, inr, leb, ◌==◌,
  Bool-cases, Option-cases, sym, ap,
}
use april_ann.Prelude.Loop.{Ends, ends, Ends-bind}
use april_ann.Util.HashKey.{Key}
use april_ann.Util.HashTable.{
  Hash, find, find_pair, write, add_node, find_and_add_pair, insert, resize, rehash,
  first_power_of_2, make, empty_table,
}
use april_ann.Util.HashTable.Power.{LeastPower, first_power_of_2_correct, first_power_of_2_fixed}
use april_ann.Util.HashTable.Valid.{IsHash, total-empty}
use april_ann.Util.HashTable.Bucket.{nodes_of, chain_pair}

module _ {ℓ} {K V F : Type ℓ} ⦃key : Key K⦄ (ceil_load : F → ℕ → ℕ) where
  -- The threshold is the one of the number of buckets, and the size is below it.
  pub record IsLoaded (t : Hash K V F) : Type 0 where
    pub threshold_of : t.rehash_threshold ≡ ceil_load t.max_load_factor t.num_buckets
    pub below : t.the_size < t.rehash_threshold

  -- A power of two doubles exactly.
  resize_double :
      (e : ℕ) (t : Hash K V F)
      → t.num_buckets ≡ 2 ^ e
      → resize ceil_load (2 * t.num_buckets) t ≡ some (rehash ceil_load (2 * t.num_buckets) t)
  unfolding resize
  resize_double e t power =
      let double : 2 * t.num_buckets ≡ 2 ^ suc e = omega (arith, two-pow-succ e) in
      let more : (2 * t.num_buckets == t.num_buckets) ≡ false =
        ground (arith, one-le-pow e 2 (omega arith)) in
      rw (ap first_power_of_2 double, first_power_of_2_fixed (suc e), sym double, more) refl

  -- `grows`: the threshold grows when the buckets of the table double. `ceilf` does so for a load factor
  -- above one half, and for a smaller one from some number of buckets on.
  module _ (initial : V) (t : Hash K V F) (k : K)
      (grows : ceil_load t.max_load_factor t.num_buckets
        < ceil_load t.max_load_factor (2 * t.num_buckets)) where
    -- `loaded` at a doubled threshold.
    grown_below : IsLoaded t → t.the_size + 1 < ceil_load t.max_load_factor (2 * t.num_buckets)
    grown_below loaded = omega (arith, grows, loaded.threshold_of, loaded.below)

    add_pair-IsLoaded :
        IsHash t → IsLoaded t → Ends (λ r. IsLoaded r.1) (find_and_add_pair ceil_load initial t k)
    unfolding find_and_add_pair add_node rehash
    add_pair-IsLoaded valid loaded = elim (Option-cases (find_pair t k)) [
      | inr (p, found) ↦ rw (find_and_add_pair, found) (ends loaded)
      | inl missing ↦
          let added : Hash K V F = add_node initial t k in
          let (e, power) = valid.power_of in
          rw (find_and_add_pair, missing)
            (elim (Bool-cases (leb added.rehash_threshold added.the_size)) [
              | inl full ↦
                  rw (full, resize_double e added power)
                    (ends (record { threshold_of = refl; below = grown_below loaded }))
              | inr room ↦
                  rw room
                    (ends (record { threshold_of = loaded.threshold_of; below = ground arith }))
            ])
    ]

    -- An insertion into a table that keeps the invariant ends, and afterwards the size is below the
    -- threshold of the number of buckets, when it was before and the threshold for twice the buckets of
    -- the table is larger than the threshold for its buckets.
    pub insert-IsLoaded :
        (d : V) → IsHash t → IsLoaded t → Ends (λ r. IsLoaded r.1) (insert ceil_load initial t k d)
    unfolding insert write
    insert-IsLoaded d valid loaded =
        Ends-bind (add_pair-IsLoaded valid loaded)
          (λ r l. ends (record { threshold_of = l.threshold_of; below = l.below }))

  pub empty_table-IsHash :
      (f : F) (n e : ℕ) → n ≡ 2 ^ e → IsHash (empty_table {K = K} {V = V} ceil_load f n)
  unfolding empty_table nodes_of
  empty_table-IsHash f n e power =
      let pos : 1 ≤ n = rw power (one-le-pow e 2 (omega arith)) in
      record {
        placed = λ i k h some_node. absurd (omega arith);
        single = λ k. omega arith;
        sized = sym (total-empty n (λ _. []) (λ i. refl));
        mask_of = omega arith;
        power_of = (e, power);
      }

  -- The constructor ends. A new table has the least power of two of buckets that is enough, keeps the
  -- invariant and the load, and finds nothing, when the threshold of some buckets is not 0.
  pub make_correct :
      (nbckts : ℕ) (f : F)
      → ((n : ℕ) → 0 < n → 0 < ceil_load f n)
      → Ends
          (λ t.
            IsHash t
            × LeastPower nbckts t.num_buckets
            × IsLoaded t
            × ((k : K) → find {V = V} t k ≡ none))
          (make ceil_load nbckts f)
  unfolding make empty_table find find_pair chain_pair
  make_correct nbckts f positive = Ends-bind (first_power_of_2_correct nbckts) (λ n p.
      let pos : 1 ≤ n = rw p.is_power (one-le-pow p.exponent 2 (omega arith)) in
      ends (
        empty_table-IsHash f n p.exponent p.is_power,
        p,
        record { threshold_of = refl; below = positive n pos },
        λ k. refl,
      ))
