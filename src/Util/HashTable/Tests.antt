-- ===== src/Util/HashTable/Tests.antt =====
-- Runs of the hash table, and the conditions of its theorems at small tables.
use april_ann.Prelude.{ℕ, ◌+◌, ◌*◌, ◌≡◌, refl, some, [], ◌∷◌, arith, ◌==◌}
use april_ann.Prelude.Loop.{◌>>=◌, Ends}
use april_ann.Util.HashKey.{Key, masked, hash_unsigned}
use april_ann.Util.HashTable.{
  Hash, empty_table, first_power_of_2, double_up, insert, find, find_pair, erase, resize, rehash,
  get_hash_nodes, push_nodes, delete_if, add_node, write, begin, find_and_add_pair, empty, move_all,
  move_chain,
}
use april_ann.Util.HashTable.Bucket.{chain_pair, chain_write}
use april_ann.Util.HashTable.DeleteIf.{Deleted, delete_if_correct}
use april_ann.Util.HashTable.Erase.{Erased, erase_correct}
use april_ann.Util.HashTable.Insert.{Inserted, insert_correct, write-IsHash, add_node-IsHash}
use april_ann.Util.HashTable.Iterate.{collect, begin-collect}
use april_ann.Util.HashTable.Load.{IsLoaded, empty_table-IsHash, insert-IsLoaded}
use april_ann.Util.HashTable.Power.{LeastPower}
use april_ann.Util.HashTable.Resize.{SameTable, resize_correct}
use april_ann.Util.HashTable.Valid.{IsHash}

instance nat_key : Key ℕ
unfolding hash_unsigned
nat_key = record {
  equal_key = λ a b. a == b;
  hash_function = hash_unsigned;
  equal_key_refl = λ a. ground arith;
  equal_key_symm = λ a b. ground arith;
  equal_key_trans = λ a b c e f. ground arith;
  hash_function-equal_key = λ a b e. ground arith;
}

abbrev product : ℕ → ℕ → ℕ
product f n = f * n

abbrev table_0 : Hash ℕ ℕ ℕ
table_0 = empty_table product 1 4

table_0-IsHash : IsHash table_0
table_0-IsHash = empty_table-IsHash product 1 4 2 refl

abbrev table_1 : Hash ℕ ℕ ℕ
table_1 = write (add_node 0 table_0 5) 5 50

table_1-IsHash : IsHash table_1
unfolding find_pair chain_pair hash_unsigned masked empty_table nat_key
table_1-IsHash =
    write-IsHash (add_node 0 table_0 5) 5 50 (add_node-IsHash 0 table_0 5 table_0-IsHash refl)

abbrev table_2 : Hash ℕ ℕ ℕ
table_2 = write (add_node 0 table_1 9) 9 90

table_2-IsHash : IsHash table_2
unfolding find_pair chain_pair chain_write hash_unsigned masked empty_table add_node write nat_key
table_2-IsHash =
    write-IsHash (add_node 0 table_1 9) 9 90 (add_node-IsHash 0 table_1 9 table_1-IsHash refl)

insert_correct_example : Ends (Inserted 0 table_2 6 60) (insert product 0 table_2 6 60)
insert_correct_example = insert_correct 0 table_2 6 product 60 table_2-IsHash

erase_correct_example : Erased table_2 9 (erase table_2 9)
erase_correct_example = erase_correct table_2 9 table_2-IsHash

resize_correct_example :
    Ends (λ u. SameTable table_2 u × LeastPower 13 u.num_buckets) (resize product 13 table_2)
resize_correct_example = resize_correct product 13 table_2 table_2-IsHash

begin-collect_example :
    (begin table_2 >>= collect table_2 (table_2.the_size + 1)) ≡ some (get_hash_nodes table_2)
begin-collect_example = begin-collect table_2 table_2-IsHash

delete_if_correct_example : Deleted (λ e. e.0 == 5) table_2 (delete_if (λ e. e.0 == 5) table_2)
delete_if_correct_example = delete_if_correct (λ e. e.0 == 5) table_2 table_2-IsHash

-- A load factor of at least 1.
abbrev next_product : ℕ → ℕ → ℕ
next_product f n = (f + 1) * n

abbrev loaded_table : Hash ℕ ℕ ℕ
loaded_table = write (add_node 0 (empty_table next_product 0 4) 5) 5 50

loaded_table-IsHash : IsHash loaded_table
unfolding find_pair chain_pair hash_unsigned masked empty_table nat_key
loaded_table-IsHash = write-IsHash (add_node 0 (empty_table next_product 0 4) 5) 5 50 (
    add_node-IsHash 0 (empty_table next_product 0 4) 5 (empty_table-IsHash next_product 0 4 2 refl)
      refl)

loaded_table-IsLoaded : IsLoaded next_product loaded_table
unfolding write add_node empty_table
loaded_table-IsLoaded = record { threshold_of = refl; below = omega arith }

insert-IsLoaded_example :
    Ends (λ r. IsLoaded next_product r.1) (insert next_product 0 loaded_table 6 60)
unfolding write add_node empty_table
insert-IsLoaded_example =
    insert-IsLoaded next_product 0 loaded_table 6 (omega arith) 60 loaded_table-IsHash
      loaded_table-IsLoaded

-- The keys 5 and 9 share a bucket of four.
two_in_a_bucket : get_hash_nodes table_2 ≡ (9, 90) ∷ (5, 50) ∷ []
unfolding get_hash_nodes push_nodes write add_node empty_table masked chain_write hash_unsigned
    empty nat_key
two_in_a_bucket = refl

-- The third insertion fills the table of four buckets, and the table of eight still has the others.
rehashed :
    (insert next_product 0 (record table_2 { rehash_threshold = 3 }) 6 60 >>= λ r. find r.1 9)
    ≡ some 90
unfolding insert find write add_node empty_table masked chain_write chain_pair hash_unsigned resize
    rehash first_power_of_2 find_and_add_pair find_pair double_up move_all move_chain nat_key
rehashed = refl

-- After deleting one of the two pairs the size is still 2.
still_two : (delete_if (λ e. e.0 == 5) table_2).the_size ≡ 2
unfolding delete_if write add_node empty_table
still_two = refl
