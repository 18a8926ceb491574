-- ===== src/DataSet/Subset.antt =====
-- dataset.cc, dataset.h: `SubDataSet`, `SplitDataSet`, `IdentityDataSet` and `IndexFilterDataSet`.
use april_ann.Prelude.{
  ℕ, zero, suc, ◌+◌, ◌-◌, ◌<◌, ◌≤◌, ◌≡◌, ◌↔◌, sym, inl, inr, ltb, ◌==◌, if◌then◌else◌, Option, none,
  some, arith, refl, Bool-cases, lt→ltb, ap, ◌∙◌,
}
use april_ann.Prelude.Array.{update}
use april_ann.Prelude.Int.{ℤ, pos, negsuc, pos_part, ◌+ℤ◌, ◌-ℤ◌, +ℤ_parts, -ℤ_parts, eq_of_parts}
use april_ann.Prelude.Loop.{Ends, ends, Ends-bind, Ends-map, ◌>>=◌}
use april_ann.DataSet.{DataSet, Copied, Reads, IsTable, Replaced}

module _ {T : Type 0} where
  -- The loop `pat[i] = r[i]`.
  unfoldable pub copy_values : ℕ → (ℕ → T) → ℕ → (ℕ → T) → ℕ → ℕ → T
  copy_values zero r from b p = b
  copy_values (suc n) r from b p = update (copy_values n r from b p) (p + n) (r (from + n))

  unfoldable pub fill_values : ℕ → T → (ℕ → T) → ℕ → ℕ → T
  fill_values zero v b p = b
  fill_values (suc n) v b p = update (fill_values n v b p) (p + n) v

  -- One more value behind those that are copied.
  extend-Copied :
      (n : ℕ) (f : ℕ → T) (b b' : ℕ → T) (p : ℕ)
      → Copied b p n f b'
      → Copied b p (suc n) f (update b' (p + n) (f n))
  extend-Copied n f b b' p c = record {
    inside = λ j l. elim (Bool-cases (j == n)) [
      | inl same ↦ let e : j ≡ n = ground arith in rw e (ground arith)
      | inr other ↦ ground (arith, c.inside j (ground arith))
    ];
    outside = λ j h. elim h [
      | inl left ↦ ground (arith, c.outside j (inl left))
      | inr right ↦ ground (arith, c.outside j (inr (omega arith)))
    ];
  }

  fill_values-Copied :
      (n : ℕ) (v : T) (b : ℕ → T) (p : ℕ) → Copied b p n (λ j. v) (fill_values n v b p)
  unfolding fill_values
  fill_values-Copied zero v b p = record {
    inside = λ j l. absurd (omega arith);
    outside = λ j h. refl;
  }
  fill_values-Copied (suc n) v b p =
      extend-Copied n (λ j. v) b (fill_values n v b p) p (fill_values-Copied n v b p)

  copy_values-Copied :
      (n : ℕ) (r : ℕ → T) (from : ℕ) (b : ℕ → T) (p : ℕ)
      → Copied b p n (λ j. r (from + j)) (copy_values n r from b p)
  unfolding copy_values
  copy_values-Copied zero r from b p = record {
    inside = λ j l. absurd (omega arith);
    outside = λ j h. refl;
  }
  copy_values-Copied (suc n) r from b p =
      extend-Copied n (λ j. r (from + j)) b (copy_values n r from b p) p
        (copy_values-Copied n r from b p)

filter_index : (k : ℕ) → pos (k + 1) -ℤ pos 1 ≡ pos k
filter_index k =
    ground (arith, -ℤ_parts (pos (k + 1)) (pos 1), eq_of_parts (pos (k + 1) -ℤ pos 1) (pos k))

sub_index : (a i : ℕ) → pos a +ℤ pos i ≡ pos (a + i)
sub_index a i = ground (arith, +ℤ_parts (pos a) (pos i), eq_of_parts (pos a +ℤ pos i) (pos (a + i)))

Copied-cong :
    {T : Type 0} {b : ℕ → T} {p n : ℕ} {f g b' : ℕ → T}
    → ((j : ℕ) → j < n → f j ≡ g j)
    → Copied b p n f b'
    → Copied b p n g b'
Copied-cong h c = record { inside = λ j l. c.inside j l ∙ h j l; outside = c.outside }

module _ {S T : Type 0} where
  -- `ini` and `fin` are both in the interval; a sub-set of size 0 has `fin + 1 = ini`.
  unfoldable pub sub_data_set : ℕ → ℕ → DataSet S T → DataSet S T
  sub_data_set ini fin ds = record {
    num_patterns = fin + 1 - ini;
    pattern_size = ds.pattern_size;
    get_pattern = λ index s b p. ds.get_pattern (pos ini +ℤ index) s b p;
    put_pattern = λ index b p s. ds.put_pattern (pos ini +ℤ index) b p s;
  }

  -- `scratch` is what the auxiliary vector holds before the call.
  unfoldable pub split_data_set : (ℕ → T) → ℕ → ℕ → DataSet S T → DataSet S T
  split_data_set scratch ini fin ds = record {
    num_patterns = ds.num_patterns;
    pattern_size = fin + 1 - ini;
    get_pattern = λ index s b p. ds.get_pattern index s scratch 0 >>= λ r.
        some (fin + 1 - ini, copy_values (fin + 1 - ini) r.1 ini b p);
    put_pattern = λ index b p s. some (0, s);
  }

  -- `none` is the failed assertion on the index.
  unfoldable pub identity_get : ℕ → T → T → ℤ → S → (ℕ → T) → ℕ → Option (ℕ × (ℕ → T))
  identity_get size zero_value one_value (negsuc n) s b p = none
  identity_get size zero_value one_value (pos n) s b p =
      if ltb n size
      then some (size, update (fill_values size zero_value b p) (p + n) one_value)
      else none

  unfoldable pub identity_data_set : ℕ → T → T → DataSet S T
  identity_data_set size zero_value one_value = record {
    num_patterns = size;
    pattern_size = size;
    get_pattern = identity_get size zero_value one_value;
    put_pattern = λ index b p s. some (0, s);
  }

  -- The indexes count from 1. `none` is the exit of putPattern.
  unfoldable pub filter_data_set : ℕ → (ℕ → ℕ) → DataSet S T → DataSet S T
  filter_data_set size indexes ds = record {
    num_patterns = size;
    pattern_size = ds.pattern_size;
    get_pattern = λ index s b p. ds.get_pattern (pos (indexes (pos_part index)) -ℤ pos 1) s b p;
    put_pattern = λ index b p s. none;
  }

  -- What a sub-set `sub` from `ini` to `fin` is to the table `ds`.
  pub record IsInterval (ini fin : ℕ) (ds : DataSet S T) (Valid : S → Type 0) (view : S → ℕ → ℕ → T)
      (sub : DataSet S T) : Type 0 where
    pub members : (i : ℕ) → (i < sub.num_patterns) ↔ (ini + i ≤ fin)
    pub same_size : sub.pattern_size ≡ ds.pattern_size
    pub reads : (s : S) (i : ℕ) → Valid s → ini + i ≤ fin → Reads sub i s (view s (ini + i))
    pub writes :
        (s : S) (i : ℕ) (b : ℕ → T) (p : ℕ)
        → Valid s
        → ini + i ≤ fin
        → Ends
            (λ r.
              (r.0 ≡ ds.pattern_size)
              × Valid r.1
              × Replaced ds view (ini + i) (λ j. b (p + j)) s r.1)
            (sub.put_pattern (pos i) b p s)

  -- A sub-set of a table from ini to fin, where fin is below its number of patterns, has the
  -- indices i with ini + i up to fin and no other. It reads at i the pattern of the table at ini +
  -- i. A pattern written at i replaces the pattern of the table at ini + i and no other one of the
  -- whole table.
  pub sub-IsInterval :
      (ini fin : ℕ) (ds : DataSet S T) (Valid : S → Type 0) (view : S → ℕ → ℕ → T)
      → fin < ds.num_patterns
      → IsTable ds Valid view
      → IsInterval ini fin ds Valid view (sub_data_set ini fin ds)
  unfolding sub_data_set
  sub-IsInterval ini fin ds Valid view l t = record {
    members = λ i. (λ h. omega arith, λ h. omega arith);
    same_size = refl;
    reads = λ s i v q b p. rw (sub_index ini i) (t.reads s (ini + i) v (omega arith) b p);
    writes = λ s i b p v q. rw (sub_index ini i) (t.writes s (ini + i) b p v (omega arith));
  }

  Replaced-IsInterval :
      (ini fin i : ℕ) (ds sub : DataSet S T) (Valid : S → Type 0) (view : S → ℕ → ℕ → T) (f : ℕ → T)
      (s u : S)
      → fin < ds.num_patterns
      → IsInterval ini fin ds Valid view sub
      → Replaced ds view (ini + i) f s u
      → Replaced sub (λ s k. view s (ini + k)) i f s u
  Replaced-IsInterval ini fin i ds sub Valid view f s u l o c = record {
    written = λ j q. c.written j (rw o.same_size at q);
    kept = λ k j other below small.
        let inside = (o.members k).0 below in
        c.kept (ini + k) j (λ e. other (omega arith)) (omega arith) (rw o.same_size at small);
  }

  -- The sub-set is a table of its own.
  sub-IsTable :
      (ini fin : ℕ) (ds : DataSet S T) (Valid : S → Type 0) (view : S → ℕ → ℕ → T)
      → fin < ds.num_patterns
      → IsTable ds Valid view
      → IsTable (sub_data_set ini fin ds) Valid (λ s i. view s (ini + i))
  sub-IsTable ini fin ds Valid view l t =
      let sub : DataSet S T = sub_data_set ini fin ds in
      let o = sub-IsInterval ini fin ds Valid view l t in
      record {
        reads = λ s i v q. o.reads s i v ((o.members i).0 q);
        writes = λ s i b p v q. Ends-map (o.writes s i b p v ((o.members i).0 q)) (λ r (e, v', c). (
          e ∙ sym o.same_size,
          v',
          Replaced-IsInterval ini fin i ds sub Valid view (λ j. b (p + j)) s r.1 l o c,
        ));
      }

  -- A split of a pattern that can be read is its interval from ini to fin.
  pub split_correct :
      (scratch : ℕ → T) (ini fin : ℕ) (ds : DataSet S T) (i : ℕ) (s : S) (f : ℕ → T)
      → fin < ds.pattern_size
      → Reads ds i s f
      → Reads (split_data_set scratch ini fin ds) i s (λ j. f (ini + j))
  unfolding split_data_set
  split_correct scratch ini fin ds i s f l h b p = Ends-bind (h scratch 0) (λ r (e, c). ends (
    refl,
    Copied-cong
        (λ j q.
          ap r.1 {x = ini + j} {y = 0 + (ini + j)} (omega arith) ∙ c.inside (ini + j) (omega arith))
        (copy_values-Copied (fin + 1 - ini) r.1 ini b p),
  ))

  -- Reading pattern n of the identity fills the vector with zeros and puts the one at place n.
  pub identity_correct :
      (size n : ℕ) (zero_value one_value : T) (s : S)
      → n < size
      → Reads
          (identity_data_set size zero_value one_value)
          n
          s
          (λ j. if n == j then one_value else zero_value)
  unfolding identity_data_set identity_get
  identity_correct size n zero_value one_value s l b p =
      let c = fill_values-Copied size zero_value b p in
      rw (lt→ltb n size l) (
        ends (
          refl,
          record {
            inside = λ j q. ground (arith, c.inside j q);
            outside = λ j h. elim h [
              | inl left ↦ ground (arith, c.outside j (inl left))
              | inr right ↦ ground (arith, c.outside j (inr right))
            ];
          },
        ))

  -- A filter shows at i the pattern whose number, counted from 1, its table holds at i.
  pub filter_correct :
      (size : ℕ) (indexes : ℕ → ℕ) (ds : DataSet S T) (i k : ℕ) (s : S) (f : ℕ → T)
      → indexes i ≡ k + 1
      → Reads ds k s f
      → Reads (filter_data_set size indexes ds) i s f
  unfolding filter_data_set
  filter_correct size indexes ds i k s f e h b p = rw (e, filter_index k) (h b p)
