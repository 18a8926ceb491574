-- ===== src/Util/HashKey.antt =====
-- packages/basics/util/c_src/aux_hash_table.h: what the hash tables ask of the template parameters
-- `HashFcn` and `EqualKey`, and the default hash functions on unsigned numbers of 32 bits.
pub mod Inverse
pub mod Loops
mod Tests
use Prim.Native.Nat.{bit_and, bitwise, bit_and-bitwise, digits, min}
use april_ann.Prelude.Bits.{bit_and_le}
use april_ann.Prelude.{
  ℕ, zero, suc, ◌+◌, ◌*◌, ◌%◌, ◌/◌, ◌^◌, ◌≤◌, ◌<◌, ◌-◌, ◌≡◌, refl, Bool, true, List, [], ◌∷◌, ◌++◌,
  arith, ◌==◌, if◌then◌else◌, length, take, sym, ◌∙◌,
}

-- An equality test and a hash function. Keys that are equal in this sense need not be the same value.
pub record Key {ℓ} (K : Type ℓ) : Type ℓ where
  pub equal_key : K → K → Bool
  pub hash_function : K → ℕ
  pub equal_key_refl : (a : K) → equal_key a a ≡ true
  pub equal_key_symm : (a b : K) → equal_key a b ≡ equal_key b a
  pub equal_key_trans :
      (a b c : K) → equal_key a b ≡ true → equal_key b c ≡ true → equal_key a c ≡ true
  pub hash_function-equal_key : (a b : K) → equal_key a b ≡ true → hash_function a ≡ hash_function b

module _ {ℓ} {K : Type ℓ} ⦃key : Key K⦄ where
  infix 50 ◌=k=◌
  abbrev pub ◌=k=◌ : K → K → Bool
  a =k= b = key.equal_key a b

  -- `hash_function(k) & mask`
  unfoldable pub masked : ℕ → K → ℕ
  masked mask k = bit_and (key.hash_function k) mask

  pub =k=_congr_left : (a b c : K) → (a =k= b) ≡ true → a =k= c ≡ b =k= c
  =k=_congr_left a b c e =
      ground (arith, key.equal_key_symm a b, key.equal_key_trans a b c, key.equal_key_trans b a c)

  pub =k=_congr_right : (a b c : K) → (b =k= c) ≡ true → a =k= b ≡ a =k= c
  =k=_congr_right a b c e =
      ground (arith, key.equal_key_symm a b, key.equal_key_symm a c, =k=_congr_left b c a e)

  pub masked_congr : (mask : ℕ) (a b : K) → (a =k= b) ≡ true → masked mask a ≡ masked mask b
  unfolding masked
  masked_congr mask a b e = ground (arith, key.hash_function-equal_key a b e)

pub masked_le {ℓ} : {K : Type ℓ} ⦃key : Key K⦄ (mask : ℕ) (k : K) → masked mask k ≤ mask
unfolding masked
masked_le ⦃key⦄ mask k = bit_and_le (key.hash_function k) mask

abbrev pub word : ℕ
word = 2 ^ 32

abbrev pub cte_hash : ℕ
cte_hash = 2654435769

-- `default_hash_function<unsigned int>`, and of an `int` by its bit pattern
unfoldable pub hash_unsigned : ℕ → ℕ
hash_unsigned i = (cte_hash * i) % word

-- `default_hash_function<pair<unsigned int, unsigned int> >`
unfoldable pub hash_pair : ℕ → ℕ → ℕ
hash_pair i j = (((cte_hash * i) % word + j) % word * cte_hash) % word

-- `resul = (resul + r) * cte_hash;`, where `r` is a byte, character or element as an unsigned number
-- of 32 bits.
unfoldable pub mix : ℕ → ℕ → ℕ
mix resul r = ((resul + r) % word * cte_hash) % word

-- `default_hash_function<T>`: the loop over the bytes of the key.
unfoldable pub hash_bytes : ℕ → List ℕ → ℕ
unfolding mix
hash_bytes resul [] = resul
hash_bytes resul (r ∷ rs) = hash_bytes (mix resul r) rs

-- `default_hash_function<constString>`: the loop over `l` characters.
unfoldable pub hash_const_string : ℕ → ℕ → List ℕ → ℕ
unfolding mix
hash_const_string resul zero rs = resul
hash_const_string resul (suc l) [] = resul
hash_const_string resul (suc l) (r ∷ rs) = hash_const_string (mix resul r) l rs

-- `default_hash_function<char *>`: the loop up to the character 0.
unfoldable pub hash_c_string : ℕ → List ℕ → ℕ
unfolding mix
hash_c_string resul [] = resul
hash_c_string resul (r ∷ rs) =
    let rest = hash_c_string (mix resul r) rs in if r == 0 then resul else rest

-- `hash_restricted_vector`: the loop over the first `n` elements of a vector.
unfoldable pub hash_vector : ℕ → (ℕ → ℕ) → ℕ → ℕ
unfolding mix
hash_vector resul key zero = resul
hash_vector resul key (suc n) = mix (hash_vector resul key n) (key n)
