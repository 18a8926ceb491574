-- ===== src/Prelude/Bits.antt =====
-- `&` with a mask of low digits, as a remainder.
use Prim.Native.Nat.{bit_and, bit_and-bitwise, digits, min}
use native.Mathlib.Nat.{
  two-pow-succ, one-le-pow, mod-add-div, mod-lt, add-mul-mod_self_right, mod-eq_of_lt,
}
use Prim.Native.Nat.{ℕ, zero, suc, ◌+◌, ◌-◌, ◌*◌, ◌/◌, ◌%◌, ◌^◌, ◌≤◌, ◌<◌}
use mathlib.Core.Path.{◌≡◌, refl, sym, ap, ◌∙◌}
use native.Mathlib.Omega.{arith}

module _ (f : ℕ → ℕ → ℕ) where
  -- The recursion does not depend on its fuel.
  digits_enough : (n m a b : ℕ) → a ≤ n → a ≤ m → digits (λ _. 0) f n a b ≡ digits (λ _. 0) f m a b
  digits_enough zero zero a b p q = refl
  digits_enough zero (suc m) zero b p q = refl
  digits_enough (suc n) zero zero b p q = refl
  digits_enough (suc n) (suc m) zero b p q = refl
  digits_enough zero (suc m) (suc a) b p q = absurd (omega arith)
  digits_enough (suc n) zero (suc a) b p q = absurd (omega arith)
  digits_enough (suc n) (suc m) (suc a) b p q =
      omega (arith, digits_enough n m (suc a / 2) (b / 2) (omega arith) (omega arith))

bit_and_low : (a b : ℕ) → bit_and a b ≡ bit_and (a / 2) (b / 2) * 2 + min (a % 2) (b % 2)
bit_and_low zero b = simp bit_and-bitwise (omega arith)
bit_and_low (suc a) b =
    simp bit_and-bitwise (
      omega
        (arith, digits_enough min a (suc a / 2) (suc a / 2) (b / 2) (omega arith) (omega arith)))

digits_le : (n a b : ℕ) → digits (λ _. 0) min n a b ≤ b
digits_le zero a b = omega arith
digits_le (suc n) zero b = omega arith
digits_le (suc n) (suc a) b = omega (arith, digits_le n (suc a / 2) (b / 2))

pub bit_and_le : (a b : ℕ) → bit_and a b ≤ b
bit_and_le a b = simp bit_and-bitwise (digits_le a a b)

-- The lowest digit of a remainder by an even number.
mod_double : (a p : ℕ) → 0 < p → (a / 2 % p) * 2 + a % 2 ≡ a % (p + p)
mod_double a p pos =
    let s : ℕ = a / 2 % p in
    let q : ℕ = a / 2 / p in
    let split : s + p * q ≡ a / 2 = mod-add-div (a / 2) p in
    let small : s < p = mod-lt (a / 2) pos in
    let parts : a ≡ (s * 2 + a % 2) + q * (p + p) = grind arith in
    sym (
      ap (λ n. n % (p + p)) parts
      ∙ (add-mul-mod_self_right (s * 2 + a % 2) q (p + p) ∙ mod-eq_of_lt (omega arith)))

-- `a & (2 ^ e - 1)`
pub bit_and_mask : (e a : ℕ) → bit_and a (2 ^ e - 1) ≡ a % 2 ^ e
bit_and_mask zero a = omega (arith, bit_and_le a 0)
bit_and_mask (suc e) a =
    let pos : 1 ≤ 2 ^ e = one-le-pow e 2 (omega arith) in
    let mask : (2 ^ suc e - 1) / 2 ≡ 2 ^ e - 1 = omega (arith, two-pow-succ e) in
    let odd : (2 ^ suc e - 1) % 2 ≡ 1 = omega (arith, two-pow-succ e) in
    let bit : min (a % 2) 1 ≡ a % 2 = omega arith in
    rw (bit_and_low a (2 ^ suc e - 1), mask, odd, bit, bit_and_mask e (a / 2), two-pow-succ e)
      (mod_double a (2 ^ e) pos)
