-- ===== src/Util/OpenHash/Fresh.antt =====
-- The constructor and `clear` of packages/basics/util/c_src/open_addressing_hash.h.
use native.Mathlib.Nat.{one-le-pow}
use april_ann.Prelude.{
  ℕ, zero, suc, ◌+◌, ◌^◌, ◌≤◌, ◌<◌, ◌≡◌, refl, true, Option, some, none, ap, ◌∙◌, arith, ltb,
  lt→ltb,
}
use april_ann.Prelude.Loop.{Ends-inv}
use april_ann.Util.HashKey.{Key}
use april_ann.Util.OpenHash.{OpenHash, find, clear, empty_table}
use april_ann.Util.OpenHash.Slots.{Free, Used}
use april_ann.Util.OpenHash.Store.{present, missing, used_count}
use april_ann.Util.OpenHash.Table.{Arranged, IsOpen, find_correct, LookOf, used_of}

module _ {ℓ} {K V F : Type ℓ} ⦃key : Key K⦄ (ceil_load : F → ℕ → ℕ) where
  all-Free :
      (empty : K) (b : ℕ → K × V) (n : ℕ)
      → ((i : ℕ) → i < n → Free empty b i)
      → used_count empty b n ≡ 0
  unfolding used_count
  all-Free empty b zero h = refl
  all-Free empty b (suc n) h =
      let here : Free empty b n = h n (omega arith) in
      rw (here, all-Free empty b n (λ i g. h i (omega arith))) (omega arith)

  -- A table without pairs is in order and finds nothing.
  pub record Vacant (t : OpenHash K V F) : Type ℓ where
    pub valid : IsOpen ceil_load t
    pub size : t.the_size ≡ 0
    pub finds : (q : K) → find t q ≡ some none

  vacant :
      (t : OpenHash K V F) (e : ℕ)
      → t.num_buckets ≡ 2 ^ e
      → t.hash_mask + 1 ≡ t.num_buckets
      → t.rehash_threshold ≡ ceil_load t.max_load_factor t.num_buckets
      → t.the_size ≡ 0
      → ((i : ℕ) → i < t.num_buckets → Free t.empty_key t.buckets i)
      → Vacant t
  vacant t e power mask threshold size free =
      let pos : 1 ≤ t.num_buckets = rw power (one-le-pow e 2 (omega arith)) in
      let count : used_of t ≡ 0 = all-Free t.empty_key t.buckets t.num_buckets free in
      let a : Arranged ceil_load t = record {
        power_of = (e, power);
        mask_of = mask;
        chained =
            λ i h used. let f : Free t.empty_key t.buckets i = free i h in absurd (ground arith);
        roomy = omega arith;
        threshold_of = threshold;
      } in
      record {
        valid = record { arranged = a; counted = omega arith };
        size = size;
        finds = λ q.
            let (o, eq, l) = Ends-inv (find_correct ceil_load t a q) in
            eq ∙ ap some (nothing q o l);
      }
    where
      nothing : (q : K) (o : Option V) → LookOf t q o → o ≡ none
      nothing q _ (present {i = i} s) =
          let f : Free t.empty_key t.buckets i = free i s.inside in
          let u : Used t.empty_key t.buckets i = s.used in absurd (ground arith)
      nothing q _ (missing h) = refl

  pub empty_table-Vacant :
      (initial : V) (empty : K) (f : F) (n e : ℕ)
      → n ≡ 2 ^ e
      → Vacant (empty_table ceil_load initial empty f n)
  unfolding empty_table
  empty_table-Vacant initial empty f n e power =
      let pos : 1 ≤ n = rw power (one-le-pow e 2 (omega arith)) in
      vacant (empty_table ceil_load initial empty f n) e power (omega arith) refl refl
        (λ i h. key.equal_key_refl empty)

  -- `clear` keeps a table in order and leaves nothing to be found.
  pub clear_correct : (t : OpenHash K V F) → IsOpen ceil_load t → Vacant (clear t)
  unfolding clear
  clear_correct t valid =
      let a : Arranged ceil_load t = valid.arranged in
      let (e, power) = a.power_of in
      vacant (clear t) e power a.mask_of a.threshold_of refl (λ i h.
        let inside : ltb i t.num_buckets ≡ true = lt→ltb i t.num_buckets h in
        rw inside (key.equal_key_refl t.empty_key))
