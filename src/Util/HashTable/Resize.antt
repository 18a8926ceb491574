-- ===== src/Util/HashTable/Resize.antt =====
-- `resize` of packages/basics/util/c_src/hash_table.h.
use april_ann.Prelude.{
  ℕ, ◌-◌, ◌≤◌, ◌<◌, ◌^◌, ◌≡◌, refl, true, arith, inl, inr, ltb, ◌==◌, Bool-cases, ==_iff, sym, ◌∙◌,
}
use native.Mathlib.Nat.{one-le-pow}
use mathlib.Core.Path.{subst}
use april_ann.Prelude.Loop.{Ends, ends, Ends-bind}
use april_ann.Util.HashKey.{Key}
use april_ann.Util.HashTable.{Hash, rehash, resize, find, find_pair, index_of}
use april_ann.Util.HashTable.Bucket.{value}
use april_ann.Util.HashTable.Move.{
  Placed-move_all, total-move_all, nodes_of-move_all, value-move_all,
}
use april_ann.Util.HashTable.Power.{LeastPower, first_power_of_2_correct}
use april_ann.Util.HashTable.Valid.{IsHash, index_of_lt}

module _ {ℓ} {K V F : Type ℓ} ⦃key : Key K⦄ where
  pub find-value : (t : Hash K V F) (k : K) → find t k ≡ value k (t.buckets (index_of t k))
  unfolding find find_pair value
  find-value t k = refl

  -- What a table keeps when only its buckets are arranged anew.
  pub record SameTable (t u : Hash K V F) : Type ℓ where
    pub still_valid : IsHash u
    pub same_size : u.the_size ≡ t.the_size
    pub same_find : (k : K) → find u k ≡ find t k

  pub SameTable-refl : (t : Hash K V F) → IsHash t → SameTable t t
  SameTable-refl t valid = record { still_valid = valid; same_size = refl; same_find = λ k. refl }

  module _ (ceil_load : F → ℕ → ℕ) where
    pub rehash-SameTable :
        (n e : ℕ) (t : Hash K V F) → IsHash t → n ≡ 2 ^ e → SameTable t (rehash ceil_load n t)
    unfolding rehash
    rehash-SameTable n e t valid power =
        let pos : 1 ≤ n = rw power (one-le-pow e 2 (omega arith)) in
        let below : n - 1 < n = omega arith in
        let in_old : (k : K) → ltb (index_of t k) t.num_buckets ≡ true =
          λ k. ground (arith, index_of_lt t valid k) in
        record {
          still_valid = record {
            placed = Placed-move_all (n - 1) t.num_buckets n t.buckets below;
            single = λ k. ground (
              arith,
              nodes_of-move_all t.hash_mask (n - 1) t.buckets t.num_buckets t.num_buckets k,
              valid.placed,
              valid.single k,
            );
            sized = valid.sized ∙ sym (total-move_all (n - 1) t.num_buckets n t.buckets below);
            mask_of = omega arith;
            power_of = (e, power);
          };
          same_size = refl;
          same_find = λ k.
              rw
                (
                  find-value (rehash ceil_load n t) k,
                  value-move_all t.hash_mask (n - 1) t.buckets t.num_buckets t.num_buckets k
                      (omega arith) valid.placed valid.single,
                  in_old k,
                  find-value t k,
                )
                refl;
        }

    -- `resize` ends, with the least power of two that is not below `n` as the number of buckets. The
    -- invariant, the size and what is found under every key stay.
    pub resize_correct :
        (n : ℕ) (t : Hash K V F)
        → IsHash t
        → Ends (λ u. SameTable t u × LeastPower n u.num_buckets) (resize ceil_load n t)
    unfolding resize rehash
    resize_correct n t valid = Ends-bind (first_power_of_2_correct n) (λ m p.
        elim (Bool-cases (m == t.num_buckets)) [
          | inl same ↦ rw same (
              ends
                (SameTable-refl t valid, subst (LeastPower n) ((==_iff m t.num_buckets).0 same) p))
          | inr other ↦ rw other (ends (rehash-SameTable m p.exponent t valid p.is_power, p))
        ])
