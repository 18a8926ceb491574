-- ===== src/Util/HashKey/Tests.antt =====
-- Runs of the hash functions, and the conditions of their theorems.
use april_ann.Prelude.{◌≡◌, refl, [], ◌∷◌, arith}
use april_ann.Util.HashKey.{hash_c_string}
use april_ann.Util.HashKey.Loops.{Nonzero, nonzero_nil, nonzero_cons}

letters-Nonzero : Nonzero (97 ∷ 98 ∷ [])
letters-Nonzero = nonzero_cons (omega arith) (nonzero_cons (omega arith) nonzero_nil)

-- The loop stops at the character 0.
stops_at_zero : hash_c_string 1 (0 ∷ 5 ∷ []) ≡ 1
unfolding hash_c_string
stops_at_zero = refl
