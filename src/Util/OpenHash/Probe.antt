-- ===== src/Util/OpenHash/Probe.antt =====
-- The probe sequence of packages/basics/util/c_src/open_addressing_hash.h: an odd step reaches every
-- position of a vector whose length is a power of two.
use Prim.Native.Nat.{bit_or, bit_or-bitwise}
use native.Mathlib.Nat.{
  two-pow-succ, one-le-pow, mod-add-div, mod-lt, mod-add-mod, add-mul-mod_self_right, mod-eq_of_lt,
}
use april_ann.Prelude.Bits.{bit_and_mask, bit_and_le}
use april_ann.Prelude.{
  ℕ, zero, suc, ◌+◌, ◌*◌, ◌-◌, ◌/◌, ◌%◌, ◌^◌, ◌≤◌, ◌<◌, ◌≡◌, refl, true, sym, ap, ◌∙◌, arith, ◌⊎◌,
  inl, inr, Bool-cases, ◌==◌,
}
use april_ann.Util.HashKey.{Key, ◌=k=◌, masked, masked_le}
use april_ann.Util.OpenHash.{step_of, next_index}

bit_or_odd : (a : ℕ) → bit_or a 1 % 2 ≡ 1
bit_or_odd zero = refl
bit_or_odd (suc a) = simp bit_or-bitwise (omega arith)

even_or_odd : (q : ℕ) → ((h : ℕ) × (q ≡ 2 * h)) ⊎ ((h : ℕ) × (q ≡ 2 * h + 1))
even_or_odd q = elim (Bool-cases (q % 2 == 0)) [
  | inl even ↦ inl (q / 2, ground arith)
  | inr odd ↦ inr (q / 2, ground arith)
]

lifted :
    (u s p q h m : ℕ)
    → u * s ≡ 1 + p * q
    → q ≡ 2 * h + 1
    → s ≡ 2 * m + 1
    → (u + p) * s ≡ 1 + (p + p) * (h + m + 1)
lifted u s p q h m eq odd_q half =
    let sum : q + s ≡ 2 * (h + m + 1) = omega arith in
    let spread : (u + p) * s ≡ 1 + p * (q + s) = grind arith in spread ∙ rw sum (grind arith)

-- An odd number has an inverse modulo a power of two.
inverse : (s e : ℕ) → s % 2 ≡ 1 → (u : ℕ) × ((q : ℕ) × (u * s ≡ 1 + 2 ^ e * q))
inverse s zero odd = (1, (s - 1, omega arith))
inverse s (suc e) odd =
    let (u, (q, eq)) = inverse s e odd in
    elim (even_or_odd q) [
      | inl (h, even) ↦ (u, (h, rw (two-pow-succ e, eq, even) (grind arith)))
      | inr (h, odd_q) ↦
          let half : s ≡ 2 * (s / 2) + 1 = omega arith in
          (
            u + 2 ^ e,
            (h + s / 2 + 1, rw (two-pow-succ e) (lifted u s (2 ^ e) q h (s / 2) eq odd_q half)),
          )
    ]

regroup : (hash r s c n v : ℕ) → r + n * c ≡ v → hash + r * s + c * s * n ≡ hash + v * s
regroup hash r s c n v split = rw (sym split) (grind arith)

mul_assoc : (d u s : ℕ) → d * u * s ≡ d * (u * s)
mul_assoc d u s = grind arith

-- The steps from `hash` to `i`, counted by the inverse `u` of the step `s`.
solves :
    (n hash s u q i : ℕ)
    → u * s ≡ 1 + n * q
    → i < n
    → (hash + (i + (n * hash - hash)) * u % n * s) % n ≡ i
solves n hash s u q i eq h =
    let d : ℕ = i + (n * hash - hash) in
    let r : ℕ = d * u % n in
    let c : ℕ = d * u / n in
    let split : r + n * c ≡ d * u = mod-add-div (d * u) n in
    let least : hash ≤ n * hash = grind arith in
    let total : hash + d ≡ i + n * hash = omega arith in
    let whole : hash + r * s + c * s * n ≡ hash + d * (u * s) =
      regroup hash r s c n (d * u) split ∙ ap (λ m. hash + m) (mul_assoc d u s) in
    let reached : hash + d * (u * s) ≡ i + (hash + d * q) * n = rw eq (grind arith) in
    sym (add-mul-mod_self_right (hash + r * s) (c * s) n)
    ∙ (ap (λ m. m % n) (whole ∙ reached)
        ∙ (add-mul-mod_self_right i (hash + d * q) n ∙ mod-eq_of_lt h))

module _ {ℓ} {K : Type ℓ} ⦃key : Key K⦄ where
  step_odd : (k : K) → step_of k % 2 ≡ 1
  unfolding step_of
  step_odd k = bit_or_odd (key.hash_function k / 2 ^ 15)

  -- The position after `j` steps.
  unfoldable pub at : ℕ → K → ℕ → ℕ
  at mask k zero = masked mask k
  at mask k (suc j) = next_index mask k (at mask k j)

  pub at_le : (mask : ℕ) (k : K) (j : ℕ) → at mask k j ≤ mask
  unfolding at
  at_le mask k zero = masked_le mask k
  at_le mask k (suc j) = bit_and_le (at mask k j + step_of k) mask

  pub at_congr : (mask : ℕ) (a b : K) → (a =k= b) ≡ true → (j : ℕ) → at mask a j ≡ at mask b j
  unfolding at step_of masked
  at_congr mask a b e zero = ground (arith, key.hash_function-equal_key a b e)
  at_congr mask a b e (suc j) =
      ground (arith, key.hash_function-equal_key a b e, at_congr mask a b e j)

  at_mod :
      (e : ℕ) (k : K) (j : ℕ) → at (2 ^ e - 1) k j ≡ (key.hash_function k + j * step_of k) % 2 ^ e
  unfolding at masked
  at_mod e k zero = bit_and_mask e (key.hash_function k) ∙ ap (λ n. n % 2 ^ e) (omega arith)
  at_mod e k (suc j) =
      let h : ℕ = key.hash_function k in
      let s : ℕ = step_of k in
      rw (bit_and_mask e (at (2 ^ e - 1) k j + s), at_mod e k j, mod-add-mod (h + j * s) (2 ^ e) s)
        (ap (λ n. n % 2 ^ e) (grind arith))

  -- Every position is reached within as many steps as there are positions.
  pub at_reaches :
      (e : ℕ) (k : K) (i : ℕ) → i < 2 ^ e → (j : ℕ) × (j < 2 ^ e) × (at (2 ^ e - 1) k j ≡ i)
  at_reaches e k i h =
      let n : ℕ = 2 ^ e in
      let hash : ℕ = key.hash_function k in
      let s : ℕ = step_of k in
      let (u, (q, eq)) = inverse s e (step_odd k) in
      let pos : 1 ≤ n = one-le-pow e 2 (omega arith) in
      let j : ℕ = (i + (n * hash - hash)) * u in
      (j % n, mod-lt j pos, at_mod e k (j % n) ∙ solves n hash s u q i eq h)
