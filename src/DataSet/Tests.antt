-- ===== src/DataSet/Tests.antt =====
-- dataset.cc: runs on tables in memory, and the theorems at concrete data sets.
use april_ann.Prelude.{
  ℕ, ◌+◌, ◌-◌, ◌*◌, ◌<◌, ◌≢◌, ◌≤◌, ◌≡◌, true, false, ltb, leb, ◌==◌, ◌&&◌, if◌then◌else◌, Option,
  none, some, arith, refl, ap, ◌⊎◌,
}
use april_ann.Prelude.Array.{update}
use april_ann.Prelude.Int.{ℤ, pos, negsuc}
use april_ann.Prelude.Loop.{Ends, ends}
use april_ann.DataSet.{DataSet, Reads, IsTable}
use april_ann.DataSet.Subset.{sub_data_set, IsInterval, sub-IsInterval}
use april_ann.DataSet.Index.{IndexDataSet}
use april_ann.Prelude.Int.{◌-ℤ◌}
use april_ann.DataSet.Gather.{Gathered}
use april_ann.DataSet.Union.{UnionDataSet, IsUnion, union_get, union_put, union_correct}
use april_ann.DataSet.Join.{
  JoinDataSet, IsJoin, join_get, join_put, join_get_correct, join_put_correct,
}
use april_ann.DataSet.Context.{ContextualizerDataSet, make_context, context_get}
use april_ann.DataSet.Context.Correct.{context_get_correct, Framed}

-- Tables, their patterns and the values of these.
abbrev Store : Type 0
Store = ℕ → ℕ → ℕ → ℕ

abbrev blit : (ℕ → ℕ) → ℕ → ℕ → (ℕ → ℕ) → ℕ → ℕ
blit b p m f j = if leb p j && ltb j (p + m) then f (j - p) else b j

abbrev table_get : ℕ → ℕ → ℤ → Store → (ℕ → ℕ) → ℕ → Option (ℕ × (ℕ → ℕ))
table_get id m (pos i) s b p = some (m, blit b p m (s id i))
table_get id m (negsuc i) s b p = none

abbrev table_put : ℕ → ℕ → ℤ → (ℕ → ℕ) → ℕ → Store → Option (ℕ × Store)
table_put id m (pos i) b p s = some (m, update s id (update (s id) i (λ j. b (p + j))))
table_put id m (negsuc i) b p s = none

abbrev table : ℕ → ℕ → ℕ → DataSet Store ℕ
table id n m = record {
  num_patterns = n;
  pattern_size = m;
  get_pattern = table_get id m;
  put_pattern = table_put id m;
}

abbrev digits : Store
digits id i j = 100 * id + 10 * i + j

abbrev paper : ℕ → ℕ
paper i = 7

middle : (p m j : ℕ) → j < m → (leb p (p + j) && ltb (p + j) (p + m)) ≡ true
middle p m j l = ground arith

blit_outside : (b : ℕ → ℕ) (p m j : ℕ) (f : ℕ → ℕ) → (j < p) ⊎ (p + m ≤ j) → blit b p m f j ≡ b j
blit_outside b p m j f h = ground arith

table-Reads : (id n m i : ℕ) (s : Store) → Reads (table id n m) i s (s id i)
table-Reads id n m i s b p = ends (
  refl,
  record {
    inside = λ j l. rw (middle p m j l) (ap (s id i) (omega arith));
    outside = λ j h. blit_outside b p m j (s id i) h;
  },
)

abbrev three_tables : ℕ → DataSet Store ℕ
three_tables k = table k (k + 2) 2

abbrev whole : UnionDataSet Store ℕ
whole = record {
  num = 3;
  vds = three_tables;
  d = λ k. if k == 0 then 0 else if k == 1 then 2 else if k == 2 then 5 else 9;
  patternsz = 2;
}

whole-IsUnion : IsUnion whole
whole-IsUnion = record { first = refl; next = λ k l. ground arith; sizes = λ k l. refl }

union_correct_example :
    (union_get whole (pos (2 + 1)) digits paper 4 ≡ table_get 1 2 (pos 1) digits paper 4)
    × (union_put whole (pos (2 + 1)) paper 4 digits ≡ table_put 1 2 (pos 1) paper 4 digits)
    × ((n : ℕ)
        → 9 ≤ n
        → (union_get whole (pos n) digits paper 4 ≡ some (0, paper))
          × (union_put whole (pos n) paper 4 digits ≡ some (0, digits)))
union_correct_example =
    union_correct whole whole-IsUnion 1 1 digits paper 4 (omega arith) (omega arith)

abbrev wide_tables : ℕ → DataSet Store ℕ
wide_tables k = table k 4 (k + 2)

abbrev side : JoinDataSet Store ℕ
side = record { num = 2; vds = wide_tables; d = λ k. if k == 0 then 0 else if k == 1 then 2 else 5 }

side-IsJoin : IsJoin side
side-IsJoin = record { first = refl; next = λ k l. ground arith; counts = λ k l. refl }

join_get_correct_example :
    Ends
      (λ r. (r.0 ≡ 5) × Gathered (λ k. 6 + side.d k) (λ k. k + 2) (λ k. digits k 3) paper 2 r.1)
      (join_get side (pos 3) digits paper 6)
join_get_correct_example =
    join_get_correct side side-IsJoin digits 3 paper 6 (λ k. digits k 3)
      (λ k l. table-Reads k 4 (k + 2) 3 digits)

abbrev Anything : Store → Type 0
Anything s = 0 ≤ 1

same_test : (k : ℕ) → (k == k) ≡ true
same_test k = ground arith

other_test : (k l : ℕ) → l ≢ k → (k == l) ≡ false
other_test k l h = ground arith

table_put_lem :
    (k : ℕ) (s : Store)
    → Ends
        (λ r.
          Anything r.1
          × ((j : ℕ) → j < k + 2 → r.1 k 3 j ≡ paper (6 + side.d k + j))
          × ((l j : ℕ) → l ≢ k → r.1 l 3 j ≡ s l 3 j))
        (table_put k (k + 2) (pos 3) paper (6 + side.d k) s)
table_put_lem k s =
    ends (omega arith, λ j l. rw (same_test k) refl, λ l j other. rw (other_test k l other) refl)

join_put_correct_example :
    Ends
      (λ r. (r.0 ≡ 5) × Anything r.1 × ((k : ℕ) → k < 2 → (j : ℕ) → j < k + 2 → r.1 k 3 j ≡ 7))
      (join_put side (pos 3) paper 6 digits)
join_put_correct_example =
    join_put_correct side side-IsJoin Anything (λ k s j. s k 3 j) paper 6 (pos 3) digits
      (λ k s l v. table_put_lem k s) (omega arith)

abbrev framed : ContextualizerDataSet Store ℕ
framed = record {
  ctxtizq = 1;
  ctxtder = 2;
  ds = table 0 5 2;
  numpatterns = 5;
  patternsize = 8;
  reverse = true;
}

framed_runs : make_context (table 0 5 2) 1 2 true ≡ framed
unfolding make_context
framed_runs = refl

context_get_correct_example :
    Ends
      (λ r.
        (r.0 ≡ 8)
        × Framed framed digits 4 9
            (λ k. digits 0 k)
            (omega arith)
            (λ k l. table-Reads 0 5 2 k digits)
            paper
            r.1)
      (context_get framed (pos 4) digits paper 9)
context_get_correct_example =
    context_get_correct framed digits 4 9 (λ k. digits 0 k) (omega arith)
      (λ k l. table-Reads 0 5 2 k digits) paper

abbrev rows_of : ℕ → Store → ℕ → ℕ → ℕ
rows_of id s i j = s id i j

table-IsTable : (id n m : ℕ) → IsTable (table id n m) Anything (rows_of id)
table-IsTable id n m = record {
  reads = λ s i v l. table-Reads id n m i s;
  writes = λ s i b p v l. ends (
    refl,
    v,
    record {
      written = λ j q. rw (same_test id, same_test i) refl;
      kept = λ k j other below q. rw (same_test id, other_test i k other) refl;
    },
  );
}

sub-IsInterval_example :
    IsInterval 1 3 (table 2 5 4) Anything (rows_of 2) (sub_data_set 1 3 (table 2 5 4))
sub-IsInterval_example =
    sub-IsInterval 1 3 (table 2 5 4) Anything (rows_of 2) (omega arith) (table-IsTable 2 5 4)

-- Two dictionaries, of 3 and 2 values; the indices count from 1.
abbrev word_sizes : ℕ → ℕ
word_sizes k = if k == 0 then 3 else 2

abbrev looked_up : IndexDataSet Store ℕ
looked_up = record {
  indices = table 5 6 2;
  numdiccionarios = 2;
  diccionarios = λ k. table k 9 (word_sizes k);
  patternsize = 5;
  firstindex = pos 1;
}

abbrev numbers : Store
numbers id i j = if id == 5 then 4 else digits id i j

four_counts : pos 4 -ℤ pos 1 ≡ pos 3
unfolding ◌-ℤ◌
four_counts = refl
