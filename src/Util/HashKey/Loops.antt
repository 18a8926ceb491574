-- ===== src/Util/HashKey/Loops.antt =====
-- packages/basics/util/c_src/aux_hash_table.h: the loops over sequences compute one hash.
use april_ann.Prelude.{
  ℕ, zero, suc, ◌<◌, ◌≡◌, refl, List, [], ◌∷◌, ◌++◌, arith, length, take, get_or, ◌∙◌, ap,
}
use april_ann.Util.HashKey.{mix, hash_bytes, hash_const_string, hash_c_string, hash_vector}

-- No element is the character 0.
pub data Nonzero : List ℕ → Type 0 where
  nonzero_nil : Nonzero []
  nonzero_cons : {r : ℕ} {rs : List ℕ} → 0 < r → Nonzero rs → Nonzero (r ∷ rs)

hash_const_string_lem :
    (resul : ℕ) (l : ℕ) (rs : List ℕ) → hash_const_string resul l rs ≡ hash_bytes resul (take l rs)
unfolding hash_const_string hash_bytes
hash_const_string_lem resul zero rs = refl
hash_const_string_lem resul (suc l) [] = refl
hash_const_string_lem resul (suc l) (r ∷ rs) = hash_const_string_lem (mix resul r) l rs

hash_c_string_lem :
    (resul : ℕ) (rs rest : List ℕ)
    → Nonzero rs
    → hash_c_string resul (rs ++ 0 ∷ rest) ≡ hash_bytes resul rs
unfolding hash_c_string hash_bytes
hash_c_string_lem resul _ rest nonzero_nil = refl
hash_c_string_lem resul (r ∷ rs) rest (nonzero_cons p h) =
    ground (arith, hash_c_string_lem (mix resul r) rs rest h)

hash_vector_first :
    (resul : ℕ) (key : ℕ → ℕ) (n : ℕ)
    → hash_vector resul key (suc n) ≡ hash_vector (mix resul (key 0)) (λ i. key (suc i)) n
unfolding hash_vector
hash_vector_first resul key zero = refl
hash_vector_first resul key (suc n) = ap (λ h. mix h (key (suc n))) (hash_vector_first resul key n)

hash_vector_lem :
    (resul : ℕ) (rs : List ℕ)
    → hash_vector resul (λ i. get_or rs i 0) (length rs) ≡ hash_bytes resul rs
unfolding hash_vector hash_bytes
hash_vector_lem resul [] = refl
hash_vector_lem resul (r ∷ rs) =
    hash_vector_first resul (λ i. get_or (r ∷ rs) i 0) (length rs)
    ∙ hash_vector_lem (mix resul r) rs

take_length : (rs rest : List ℕ) → take (length rs) (rs ++ rest) ≡ rs
take_length [] rest = refl
take_length (r ∷ rs) rest = ap (λ l. r ∷ l) (take_length rs rest)

-- The same sequence has the same hash as the bytes of a key, as a counted string, as a string that ends
-- at the character 0, when it has no such character itself, and as the vector of its elements.
hash_loops_agree :
    (rs rest : List ℕ)
    → Nonzero rs
    → (hash_const_string 1 (length rs) (rs ++ rest) ≡ hash_bytes 1 rs)
      × (hash_c_string 1 (rs ++ 0 ∷ rest) ≡ hash_bytes 1 rs)
      × (hash_vector 1 (λ i. get_or rs i 0) (length rs) ≡ hash_bytes 1 rs)
hash_loops_agree rs rest nonzero = (
  hash_const_string_lem 1 (length rs) (rs ++ rest) ∙ ap (hash_bytes 1) (take_length rs rest),
  hash_c_string_lem 1 rs rest nonzero,
  hash_vector_lem 1 rs,
)
