-- ===== src/Util/HashTable/Power.antt =====
-- `first_power_of_2` of packages/basics/util/c_src/hash_table.h.
use native.Mathlib.Nat.{pow-le-pow_right, two-pow-succ, one-le-pow}
use april_ann.Prelude.{
  ℕ, zero, suc, ◌+◌, ◌^◌, ◌≤◌, ◌<◌, ◌≡◌, refl, some, arith, inl, inr, ltb, Bool-cases, sym, ap, ◌∙◌,
}
use april_ann.Prelude.Loop.{Ends, ends, Ends-inv, Ends-if}
use april_ann.Util.HashTable.{double_up, first_power_of_2}

-- The least power of two that is not below `value`.
pub record LeastPower (value r : ℕ) : Type 0 where
  pub exponent : ℕ
  pub is_power : r ≡ 2 ^ exponent
  pub enough : value ≤ r
  pub least : (f : ℕ) → value ≤ 2 ^ f → r ≤ 2 ^ f

exponent_lt : (e f : ℕ) → 2 ^ e < 2 ^ f → e < f
exponent_lt e f h = elim (Bool-cases (ltb e f)) [
  | inl below ↦ ground arith
  | inr above ↦
      let big : 2 ^ f ≤ 2 ^ e = pow-le-pow_right {n = 2} (omega arith) (ground arith) in
      absurd (omega arith)
]

doubled_le : (e f : ℕ) → 2 ^ e < 2 ^ f → 2 ^ suc e ≤ 2 ^ f
doubled_le e f h = pow-le-pow_right {n = 2} (omega arith) (exponent_lt e f h)

double_up-Ends :
    (fuel e value : ℕ)
    → 0 < fuel
    → value < fuel + 2 ^ e
    → ((f : ℕ) → value ≤ 2 ^ f → 2 ^ e ≤ 2 ^ f)
    → Ends (LeastPower value) (double_up fuel (2 ^ e) value)
unfolding double_up
double_up-Ends zero e value q h least = absurd (omega arith)
double_up-Ends (suc fuel) e value q h least =
    Ends-if (ltb (2 ^ e) value)
      (λ below.
        let lt : 2 ^ e < value = ground arith in
        rw (sym (two-pow-succ e)) (
          double_up-Ends fuel (suc e) value (omega arith)
            (omega (arith, two-pow-succ e, one-le-pow e 2 (omega arith)))
            (λ f r. doubled_le e f (omega arith))))
      (λ above.
        ends (record { exponent = e; is_power = refl; enough = ground arith; least = least }))

-- The loop ends within `value + 1` steps, at the least power of two that is not below `value`.
pub first_power_of_2_correct : (value : ℕ) → Ends (LeastPower value) (first_power_of_2 value)
unfolding first_power_of_2
first_power_of_2_correct value =
    double_up-Ends (suc value) 0 value (omega arith) (omega arith)
      (λ f q. one-le-pow f 2 (omega arith))

-- A power of two is its own result.
pub first_power_of_2_fixed : (e : ℕ) → first_power_of_2 (2 ^ e) ≡ some (2 ^ e)
first_power_of_2_fixed e =
    let (r, eq, p) = Ends-inv (first_power_of_2_correct (2 ^ e)) in
    let low : 2 ^ e ≤ r = p.enough in
    let high : r ≤ 2 ^ e = p.least e (omega arith) in
    let same : r ≡ 2 ^ e = omega arith in eq ∙ ap some same
