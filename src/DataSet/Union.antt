-- ===== src/DataSet/Union.antt =====
-- dataset.cc, dataset.h: `UnionDataSet`, the patterns of several data sets one after the other.
use april_ann.Prelude.{
  ℕ, zero, suc, ◌+◌, ◌<◌, ◌≤◌, ◌≡◌, true, false, ltb, leb, ◌==◌, if◌then◌else◌, Option, none, some,
  arith, Bool-cases, inl, inr, refl, ap, ◌∙◌,
}
use april_ann.Prelude.Array.{update}
use april_ann.Prelude.Int.{ℤ, pos, negsuc, ◌-ℤ◌, -ℤ_parts, eq_of_parts}
use april_ann.Prelude.Loop.{Ends, ends, Ends-bind, Ends-if, Ends-inv, ◌>>=◌}
use april_ann.DataSet.{DataSet}
use april_ann.DataSet.Offsets.{Summed, Summed-suc, Summed-mono}
use april_ann.DataSet.Search.{search, search_lem, Found}

local_index : (a i : ℕ) → pos (a + i) -ℤ pos a ≡ pos i
local_index a i =
    ground (arith, -ℤ_parts (pos (a + i)) (pos a), eq_of_parts (pos (a + i) -ℤ pos a) (pos i))

pub record UnionDataSet (S T : Type 0) : Type 0 where
  pub num : ℕ
  pub vds : ℕ → DataSet S T
  pub d : ℕ → ℕ
  pub patternsz : ℕ

module _ {S T : Type 0} where
  -- The constructor's loop, once it has passed `n` data sets; `none` is the exit on a data set of
  -- another pattern size.
  unfoldable pub fill_union : (ℕ → DataSet S T) → ℕ → ℕ → (ℕ → ℕ) → Option (ℕ → ℕ)
  fill_union v patternsz zero d = some d
  fill_union v patternsz (suc i) d = fill_union v patternsz i d >>= λ d'.
      if patternsz == (v i).pattern_size
      then some (update d' (i + 1) (d' i + (v i).num_patterns))
      else none

  -- `junk` is what the new block of the indices holds.
  unfoldable pub make_union : (ℕ → ℕ) → ℕ → (ℕ → DataSet S T) → Option (UnionDataSet S T)
  make_union junk n v = fill_union v (v 0).pattern_size n (update junk 0 0) >>= λ d.
      some (record { num = n; vds = v; d = d; patternsz = (v 0).pattern_size })

  unfoldable pub union_get : UnionDataSet S T → ℤ → S → (ℕ → T) → ℕ → Option (ℕ × (ℕ → T))
  union_get u (negsuc n) s b p = some (0, b)
  union_get u (pos n) s b p =
      if leb (u.d u.num) n
      then some (0, b)
      else search u.d n u.num 0 u.num >>= λ izq.
          (u.vds izq).get_pattern (pos n -ℤ pos (u.d izq)) s b p

  unfoldable pub union_put : UnionDataSet S T → ℤ → (ℕ → T) → ℕ → S → Option (ℕ × S)
  union_put u (negsuc n) b p s = some (0, s)
  union_put u (pos n) b p s =
      if leb (u.d u.num) n
      then some (0, s)
      else search u.d n u.num 0 u.num >>= λ izq.
          (u.vds izq).put_pattern (pos n -ℤ pos (u.d izq)) b p s

  abbrev pub union_data_set : UnionDataSet S T → DataSet S T
  union_data_set u = record {
    num_patterns = u.d u.num;
    pattern_size = u.patternsz;
    get_pattern = union_get u;
    put_pattern = union_put u;
  }

  -- The indices count the patterns of the data sets before each.
  pub record IsUnion (u : UnionDataSet S T) : Type 0 where
    pub first : u.d 0 ≡ 0
    pub next : (k : ℕ) → k < u.num → u.d (k + 1) ≡ u.d k + (u.vds k).num_patterns
    pub sizes : (k : ℕ) → k < u.num → u.patternsz ≡ (u.vds k).pattern_size

  fill_union-Filled :
      (v : ℕ → DataSet S T) (ps n : ℕ) (d : ℕ → ℕ)
      → d 0 ≡ 0
      → ((k : ℕ) → k < n → ps ≡ (v k).pattern_size)
      → Ends (Summed (λ k. (v k).num_patterns) n) (fill_union v ps n d)
  unfolding fill_union
  fill_union-Filled v ps zero d z h = ends (z, λ k l. absurd (omega arith))
  fill_union-Filled v ps (suc n) d z h =
      Ends-bind (fill_union-Filled v ps n d z (λ k l. h k (omega arith))) (λ d' filled.
        Ends-if (ps == (v n).pattern_size)
          (λ _. ends (Summed-suc (λ k. (v k).num_patterns) n d' filled))
          (λ bad. absurd (ground (arith, h n (omega arith)))))

  -- The constructor ends, with the indices counted up, when the data sets agree in their pattern
  -- size.
  pub make_union-IsUnion :
      (junk : ℕ → ℕ) (n : ℕ) (v : ℕ → DataSet S T)
      → ((k : ℕ) → k < n → (v 0).pattern_size ≡ (v k).pattern_size)
      → Ends (λ u. IsUnion u × (u.num ≡ n) × (u.vds ≡ v)) (make_union junk n v)
  unfolding make_union
  make_union-IsUnion junk n v h =
      Ends-bind (fill_union-Filled v (v 0).pattern_size n (update junk 0 0) refl h)
        (λ d (z, nx). ends (record { first = z; next = nx; sizes = h }, refl, refl))

  module _ (u : UnionDataSet S T) (ok : IsUnion u) where
    sums : Summed (λ k. (u.vds k).num_patterns) u.num u.d
    sums = (ok.first, ok.next)

    -- Only one data set holds an index.
    Found-unique : (n a b : ℕ) → Found u.d n u.num a → Found u.d n u.num b → a ≡ b
    Found-unique n a b (la, qa, ra) (lb, qb, rb) = elim (Bool-cases (ltb a b)) [
      | inl less ↦ absurd (
          omega (
            arith,
            Summed-mono (λ k. (u.vds k).num_patterns) u.num u.d sums (a + 1) b (ground arith)
                (omega arith),
          ))
      | inr more ↦ elim (Bool-cases (ltb b a)) [
        | inl less' ↦ absurd (
            omega (
              arith,
              Summed-mono (λ k. (u.vds k).num_patterns) u.num u.d sums (b + 1) a (ground arith)
                  (omega arith),
            ))
        | inr more' ↦ ground arith
      ]
    ]

    search_finds :
        (k i : ℕ)
        → k < u.num
        → i < (u.vds k).num_patterns
        → search u.d (u.d k + i) u.num 0 u.num ≡ some k
    search_finds k i l q =
        let here : Found u.d (u.d k + i) u.num k = (l, omega arith, omega (arith, ok.next k l)) in
        let below : u.d k + i < u.d u.num = omega (
          arith,
          ok.next k l,
          Summed-mono (λ k. (u.vds k).num_patterns) u.num u.d sums (k + 1) u.num (omega arith)
              (omega arith),
        ) in
        let (m, e, found) = Ends-inv (
          search_lem u.d (u.d k + i) u.num u.num 0 u.num (omega arith) (omega arith) (omega arith)
            (omega (arith, ok.first)) below) in
        e ∙ ap some (Found-unique (u.d k + i) m k found here)

    index_inside :
        (k i : ℕ) → k < u.num → i < (u.vds k).num_patterns → leb (u.d u.num) (u.d k + i) ≡ false
    index_inside k i l q = ground (
      arith,
      ok.next k l,
      Summed-mono (λ k. (u.vds k).num_patterns) u.num u.d sums (k + 1) u.num (omega arith)
          (omega arith),
    )

    -- An index of the union reads and writes as the index in its data set does, and an index from the
    -- number of patterns on returns 0 and changes nothing.
    pub union_correct :
        (k i : ℕ) (s : S) (b : ℕ → T) (p : ℕ)
        → k < u.num
        → i < (u.vds k).num_patterns
        → (union_get u (pos (u.d k + i)) s b p ≡ (u.vds k).get_pattern (pos i) s b p)
          × (union_put u (pos (u.d k + i)) b p s ≡ (u.vds k).put_pattern (pos i) b p s)
          × ((n : ℕ)
              → u.d u.num ≤ n
              → (union_get u (pos n) s b p ≡ some (0, b))
                × (union_put u (pos n) b p s ≡ some (0, s)))
    unfolding union_get union_put
    union_correct k i s b p l q = (
      rw (index_inside k i l q, search_finds k i l q, local_index (u.d k) i) refl,
      rw (index_inside k i l q, search_finds k i l q, local_index (u.d k) i) refl,
      λ n past. let e : leb (u.d u.num) n ≡ true = ground arith in (rw e refl, rw e refl),
    )
