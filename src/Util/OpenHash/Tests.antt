-- ===== src/Util/OpenHash/Tests.antt =====
-- Runs of the open-addressing table, and the conditions of its theorems at small tables.
use mathlib.Core.Path.{subst}
use april_ann.Prelude.{ℕ, ◌+◌, ◌*◌, ◌≤◌, ◌<◌, ◌≡◌, refl, false, some, none, arith, ◌==◌, ◌/◌}
use april_ann.Prelude.Loop.{◌>>=◌, Ends, Ends-some}
use april_ann.Util.HashKey.{Key, ◌=k=◌, masked}
use april_ann.Util.OpenHash.{
  OpenHash, empty_table, insert, subscript, find, find_pair, seek, clear, make_room, put_key,
  step_of,
}
use april_ann.Util.OpenHash.Fresh.{Vacant, empty_table-Vacant, clear_correct}
use april_ann.Util.OpenHash.Insert.{Stored, open_insert_correct}
use april_ann.Util.OpenHash.Probe.{at, at_reaches}
use april_ann.Util.OpenHash.Table.{IsOpen, find_correct, LookOf}

-- Keys that all hash to one position with one step, but for their own.
instance small_key : Key ℕ
small_key = record {
  equal_key = λ a b. a == b;
  hash_function = λ a. a * 65536;
  equal_key_refl = λ a. ground arith;
  equal_key_symm = λ a b. ground arith;
  equal_key_trans = λ a b c e f. ground arith;
  hash_function-equal_key = λ a b e. ground arith;
}

-- Three quarters of the positions, rounded up.
abbrev three_quarters : ℕ → ℕ → ℕ
three_quarters f n = (3 * n + 3) / 4

three_quarters_le : (f n : ℕ) → three_quarters f n ≤ n
three_quarters_le f n = omega arith

abbrev vacant_4 : OpenHash ℕ ℕ ℕ
vacant_4 = empty_table three_quarters 0 0 75 4

vacant_4-IsOpen : IsOpen three_quarters vacant_4
vacant_4-IsOpen = (empty_table-Vacant three_quarters 0 0 75 4 2 refl).valid

-- A table after an insertion.
abbrev open_table : OpenHash ℕ ℕ ℕ
open_table = elim (insert three_quarters 0 vacant_4 5 50) [ none ↦ vacant_4 | some u ↦ u ]

is_inserted : insert three_quarters 0 vacant_4 5 50 ≡ some open_table
unfolding small_key empty_table insert subscript seek make_room put_key step_of masked
is_inserted = refl

open_table-IsOpen : IsOpen three_quarters open_table
unfolding small_key empty_table
open_table-IsOpen =
    (Ends-some (
      subst (Ends (Stored three_quarters three_quarters_le 0 vacant_4 5 50)) is_inserted (
        open_insert_correct three_quarters three_quarters_le 0 vacant_4 5 50 vacant_4-IsOpen
          refl))).valid

nine_is_real : (9 =k= open_table.empty_key) ≡ false
unfolding small_key empty_table insert subscript seek make_room put_key step_of masked
nine_is_real = refl

open_insert_correct_example :
    Ends
      (Stored three_quarters three_quarters_le 0 open_table 9 90)
      (insert three_quarters 0 open_table 9 90)
open_insert_correct_example =
    open_insert_correct three_quarters three_quarters_le 0 open_table 9 90 open_table-IsOpen
      nine_is_real

find_correct_example : Ends (LookOf open_table 5) (find open_table 5)
find_correct_example = find_correct three_quarters open_table open_table-IsOpen.arranged 5

clear_correct_example : Vacant three_quarters (clear open_table)
clear_correct_example = clear_correct three_quarters open_table open_table-IsOpen

at_reaches_example : (j : ℕ) × (j < 8) × (at {K = ℕ} 7 3 j ≡ 5)
at_reaches_example = at_reaches {K = ℕ} 3 3 5 (omega arith)

-- After `clear` a new key finds the old value of its position.
stale_value :
    (insert three_quarters 0 vacant_4 5 50 >>= λ t.
    subscript three_quarters 0 (clear t) 5 >>= λ r. find r.0 5)
    ≡ some (some 50)
unfolding small_key empty_table insert subscript seek make_room put_key step_of masked clear find
    find_pair
stale_value = refl
