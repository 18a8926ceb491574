-- ===== src/DataSet/Join.antt =====
-- dataset.cc, dataset.h: `JoinDataSet`, the patterns of several data sets side by side.
use april_ann.Prelude.{
  ℕ, zero, suc, ◌+◌, ◌<◌, ◌≤◌, ◌≡◌, ◌==◌, if◌then◌else◌, Option, none, some, arith, Bool-cases, inl,
  inr, refl, ◌∙◌, ◌≢◌,
}
use april_ann.Prelude.Array.{update}
use april_ann.Prelude.Int.{ℤ, pos}
use april_ann.Prelude.Loop.{Ends, ends, Ends-bind, Ends-if, for_loop, ◌>>=◌}
use april_ann.DataSet.{DataSet, Reads}
use april_ann.DataSet.Offsets.{Summed, Summed-suc, Summed-mono}
use april_ann.DataSet.Gather.{Gathered, for_loop-Gathered_all, Apart}

pub record JoinDataSet (S T : Type 0) : Type 0 where
  pub num : ℕ
  pub vds : ℕ → DataSet S T
  pub d : ℕ → ℕ

module _ {S T : Type 0} where
  -- One round of the constructor's loop; `none` is the exit on another number of patterns.
  abbrev pub join_step : (ℕ → DataSet S T) → ℕ → ℕ → (ℕ → ℕ) → Option (ℕ → ℕ)
  join_step v ps i d =
      if ps == (v i).num_patterns then some (update d (i + 1) (d i + (v i).pattern_size)) else none

  unfoldable pub make_join : (ℕ → ℕ) → ℕ → (ℕ → DataSet S T) → Option (JoinDataSet S T)
  make_join junk n v = for_loop n (join_step v (v 0).num_patterns) (update junk 0 0) >>= λ d.
      some (record { num = n; vds = v; d = d })

  abbrev pub join_piece : JoinDataSet S T → ℤ → S → ℕ → ℕ → (ℕ → T) → Option (ℕ → T)
  join_piece x index s p i b = (x.vds i).get_pattern index s b (p + x.d i) >>= λ r. some r.1

  unfoldable pub join_get : JoinDataSet S T → ℤ → S → (ℕ → T) → ℕ → Option (ℕ × (ℕ → T))
  join_get x index s b p = for_loop x.num (join_piece x index s p) b >>= λ b'. some (x.d x.num, b')

  abbrev pub join_put_piece : JoinDataSet S T → ℤ → (ℕ → T) → ℕ → ℕ → S → Option S
  join_put_piece x index b p i s = (x.vds i).put_pattern index b (p + x.d i) s >>= λ r. some r.1

  unfoldable pub join_put : JoinDataSet S T → ℤ → (ℕ → T) → ℕ → S → Option (ℕ × S)
  join_put x index b p s =
      for_loop x.num (join_put_piece x index b p) s >>= λ s'. some (x.d x.num, s')

  abbrev pub join_data_set : JoinDataSet S T → DataSet S T
  join_data_set x = record {
    num_patterns = (x.vds 0).num_patterns;
    pattern_size = x.d x.num;
    get_pattern = join_get x;
    put_pattern = join_put x;
  }

  -- The offsets count the values of the patterns before each.
  pub record IsJoin (x : JoinDataSet S T) : Type 0 where
    pub first : x.d 0 ≡ 0
    pub next : (k : ℕ) → k < x.num → x.d (k + 1) ≡ x.d k + (x.vds k).pattern_size
    pub counts : (k : ℕ) → k < x.num → (x.vds 0).num_patterns ≡ (x.vds k).num_patterns

  fill_join-Summed :
      (v : ℕ → DataSet S T) (ps n : ℕ) (d : ℕ → ℕ)
      → d 0 ≡ 0
      → ((k : ℕ) → k < n → ps ≡ (v k).num_patterns)
      → Ends (Summed (λ k. (v k).pattern_size) n) (for_loop n (join_step v ps) d)
  unfolding for_loop
  fill_join-Summed v ps zero d z h = ends (z, λ k l. absurd (omega arith))
  fill_join-Summed v ps (suc n) d z h =
      Ends-bind (fill_join-Summed v ps n d z (λ k l. h k (omega arith))) (λ d' sums.
        Ends-if (ps == (v n).num_patterns)
          (λ _. ends (Summed-suc (λ k. (v k).pattern_size) n d' sums))
          (λ bad. absurd (ground (arith, h n (omega arith)))))

  -- The constructor ends, with the offsets counted up, when the data sets agree in their number of
  -- patterns.
  pub make_join-IsJoin :
      (junk : ℕ → ℕ) (n : ℕ) (v : ℕ → DataSet S T)
      → ((k : ℕ) → k < n → (v 0).num_patterns ≡ (v k).num_patterns)
      → Ends (λ x. IsJoin x × (x.num ≡ n) × (x.vds ≡ v)) (make_join junk n v)
  unfolding make_join
  make_join-IsJoin junk n v h =
      Ends-bind (fill_join-Summed v (v 0).num_patterns n (update junk 0 0) refl h)
        (λ d (z, nx). ends (record { first = z; next = nx; counts = h }, refl, refl))

  module _ (x : JoinDataSet S T) (ok : IsJoin x) where
    part_size : ℕ → ℕ
    part_size k = (x.vds k).pattern_size

    sums : Summed part_size x.num x.d
    unfolding part_size
    sums = (ok.first, ok.next)

    join-Apart : (p : ℕ) → Apart (λ k. p + x.d k) (λ k. (x.vds k).pattern_size) x.num
    unfolding part_size
    join-Apart p k l q r = inl (
        omega (
          arith,
          ok.next k (omega arith),
          Summed-mono part_size x.num x.d sums (k + 1) l (omega arith) (omega arith),
        ))

    -- Reading the joined pattern ends, fills the place of each part with the pattern of that part,
    -- writes nowhere else, and returns the size.
    pub join_get_correct :
        (s : S) (i : ℕ) (b : ℕ → T) (p : ℕ) (f : ℕ → ℕ → T)
        → ((k : ℕ) → k < x.num → Reads (x.vds k) i s (f k))
        → Ends
            (λ r.
              (r.0 ≡ x.d x.num)
              × Gathered (λ k. p + x.d k) (λ k. (x.vds k).pattern_size) f b x.num r.1)
            (join_get x (pos i) s b p)
    unfolding join_get
    join_get_correct s i b p f h =
        Ends-bind
          (for_loop-Gathered_all (λ k. p + x.d k) (λ k. (x.vds k).pattern_size) f x.num
            (join_piece x (pos i) s p) b (join-Apart p)
            (λ k l y. Ends-bind (h k l y (p + x.d k)) (λ r (e, c). ends c)))
          (λ b' g. ends (refl, g))

    module _ (Valid : S → Type 0) (view : ℕ → S → ℕ → T) (b : ℕ → T) (p : ℕ) where
      -- Part `k` of the vector stands in the state as the pattern of data set `k`.
      abbrev pub Stored : ℕ → S → Type 0
      Stored k s = (j : ℕ) → j < (x.vds k).pattern_size → view k s j ≡ b (p + x.d k + j)

      -- What the data sets give: one of them is written, and the others keep their pattern.
      abbrev pub WritesOne : ℤ → Type 0
      WritesOne index =
          (k : ℕ) (s : S)
          → k < x.num
          → Valid s
          → Ends (λ r. Valid r.1 × Stored k r.1 × ((l j : ℕ) → l ≢ k → view l r.1 j ≡ view l s j))
              ((x.vds k).put_pattern index b (p + x.d k) s)

      AllStored : ℕ → S → Type 0
      AllStored n s = Valid s × ((k : ℕ) → k < n → Stored k s)

      one_more :
          (n : ℕ) (s t : S)
          → AllStored n s
          → Valid t
          → Stored n t
          → ((l j : ℕ) → l ≢ n → view l t j ≡ view l s j)
          → AllStored (suc n) t
      unfolding AllStored
      one_more n s t (v, all) v' here kept = (
        v',
        λ k l j q. elim (Bool-cases (k == n)) [
          | inl same ↦ let e : k ≡ n = ground arith in rw e (here j (rw e at q))
          | inr other ↦ kept k j (ground arith) ∙ all k (ground arith) j q
        ],
      )

      put_loop :
          (index : ℤ) (s : S) (n : ℕ)
          → WritesOne index
          → Valid s
          → n ≤ x.num
          → Ends (AllStored n) (for_loop n (join_put_piece x index b p) s)
      unfolding for_loop AllStored
      put_loop index s zero h v l = ends (v, λ k q. absurd (omega arith))
      put_loop index s (suc n) h v l = Ends-bind (put_loop index s n h v (omega arith)) (λ t all.
          Ends-bind (h n t (omega arith) all.0)
            (λ r (v', here, kept). ends (one_more n t r.1 all v' here kept)))

      -- Writing a joined pattern ends, returns the size, and stores every part of the vector, when
      -- writing to one of the data sets leaves the patterns of the others.
      pub join_put_correct :
          (index : ℤ) (s : S)
          → WritesOne index
          → Valid s
          → Ends
              (λ r. (r.0 ≡ x.d x.num) × Valid r.1 × ((k : ℕ) → k < x.num → Stored k r.1))
              (join_put x index b p s)
      unfolding join_put AllStored
      join_put_correct index s h v =
          Ends-bind (put_loop index s x.num h v (omega arith)) (λ t (v', all). ends (refl, v', all))
