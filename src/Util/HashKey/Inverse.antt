-- ===== src/Util/HashKey/Inverse.antt =====
-- packages/basics/util/c_src/aux_hash_table.h: the hash functions on numbers lose nothing.
use april_ann.Prelude.{ℕ, ◌+◌, ◌*◌, ◌%◌, ◌<◌, ◌-◌, ◌≡◌, arith}
use april_ann.Util.HashKey.{word, cte_hash, hash_unsigned, hash_pair}

-- The multiplier is odd, and this is its inverse modulo 2 ^ 32.
abbrev pub cte_inverse : ℕ
cte_inverse = 340573321

-- The hash of a number of 32 bits gives the number back: no two of them have the same hash.
pub hash_unsigned_back : (i : ℕ) → i < word → (cte_inverse * hash_unsigned i) % word ≡ i
unfolding hash_unsigned
hash_unsigned_back i h = omega arith

-- So does the hash of a pair, for each first number.
pub hash_pair_back :
    (i j : ℕ)
    → j < word
    → ((cte_inverse * hash_pair i j) % word + (word - (cte_hash * i) % word)) % word ≡ j
unfolding hash_pair
hash_pair_back i j h = omega arith
