-- ===== src/Util/HashTable/Copy.antt =====
-- `copy_buckets`, the copy constructor and `operator=` of packages/basics/util/c_src/hash_table.h.
use april_ann.Prelude.{
  ℕ, ◌<◌, ◌≡◌, refl, true, [], ◌∷◌, arith, ltb, ◌==◌, if◌then◌else◌, length, sym, ◌∙◌, ap, lt→ltb,
}
use april_ann.Util.HashKey.{Key}
use april_ann.Util.HashTable.{Hash, index_of, find, copy_chain, copy_buckets, copy, assign, clear}
use april_ann.Util.HashTable.Bucket.{Chain, value}
use april_ann.Util.HashTable.Resize.{SameTable, find-value}
use april_ann.Util.HashTable.Valid.{IsHash, index_of_lt, total_cong}

pub copy_chain_same {ℓ} : {K V : Type ℓ} (c : Chain K V) → copy_chain c ≡ c
unfolding copy_chain
copy_chain_same [] = refl
copy_chain_same (e ∷ c) = ap (λ r. e ∷ r) (copy_chain_same c)

module _ {ℓ} {K V F : Type ℓ} ⦃key : Key K⦄ where
  -- Only the buckets in use matter.
  agreeing :
      (other : Hash K V F) (b : ℕ → Chain K V)
      → IsHash other
      → ((i : ℕ) → i < other.num_buckets → b i ≡ other.buckets i)
      → SameTable other (record other { buckets = b })
  unfolding find value
  agreeing other b valid agree =
      let at : (k : K) → b (index_of other k) ≡ other.buckets (index_of other k) =
        λ k. agree (index_of other k) (index_of_lt other valid k) in
      record {
        still_valid = record {
          placed = λ i k h some_node. valid.placed i k h (ground (arith, agree i h));
          single = λ k. ground (arith, at k, valid.single k);
          sized =
              valid.sized
              ∙ sym (total_cong other.num_buckets b other.buckets (λ i h. ap length (agree i h)));
          mask_of = valid.mask_of;
          power_of = valid.power_of;
        };
        same_size = refl;
        same_find = λ k.
            find-value (record other { buckets = b }) k
            ∙ (ap (value k) (at k) ∙ sym (find-value other k));
      }

  copied :
      (other : Hash K V F) (b : ℕ → Chain K V) (i : ℕ)
      → i < other.num_buckets
      → (if ltb i other.num_buckets then copy_chain (other.buckets i) else b i) ≡ other.buckets i
  copied other b i h =
      let e : ltb i other.num_buckets ≡ true = lt→ltb i other.num_buckets h in
      rw e (copy_chain_same (other.buckets i))

  -- The copy is a valid table with the size of the original that finds the same, whatever stood in the
  -- new block.
  pub copy_correct :
      (fresh : ℕ → Chain K V) (other : Hash K V F)
      → IsHash other
      → SameTable other (copy fresh other)
  unfolding copy copy_buckets
  copy_correct fresh other valid = agreeing other _ valid (copied other fresh)

  -- So is a table after an assignment, whatever it held before.
  assign_correct :
      (fresh : ℕ → Chain K V) (t other : Hash K V F)
      → IsHash other
      → SameTable other (assign fresh t other)
  unfolding assign copy_buckets
  assign_correct fresh t other valid = agreeing other _ valid (
      copied other
        (if (clear t).num_buckets == other.num_buckets then (clear t).buckets else fresh))
