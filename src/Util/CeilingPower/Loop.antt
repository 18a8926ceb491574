-- ===== src/Util/CeilingPower/Loop.antt =====
-- The loop of packages/basics/util/c_src/ceiling_power_of_two.cc.
use native.Mathlib.Nat.{pow-le-pow_right, two-pow-succ}
use april_ann.Prelude.{
  ℕ, zero, suc, ◌+◌, ◌*◌, ◌%◌, ◌^◌, ◌≤◌, ◌<◌, ◌≡◌, refl, ap, ◌∙◌, true, none, arith, ltb, inl, inr,
  Bool-cases, ◌⊎◌,
}
use april_ann.Prelude.Loop.{Ends, ends, Ends-if}
use april_ann.Util.CeilingPower.{double_until, ceiling_power_of_two}

-- A power of two from `value` on, the least one.
record Ceiling (value r : ℕ) : Type 0 where
  exponent : ℕ
  is_power : r ≡ 2 ^ exponent
  enough : value ≤ r
  close : (r ≡ 1) ⊎ (r < 2 * value)

pow_mono : (i j : ℕ) → i ≤ j → 2 ^ i ≤ 2 ^ j
pow_mono i j h = pow-le-pow_right {n = 2} (omega arith) h

wrap_small : (p q : ℕ) → q ≡ p + p → q ≤ 2 ^ 31 → p * 2 % 2 ^ 32 ≡ q
wrap_small p q e h = omega arith

exponent_small : (e value : ℕ) → 2 ^ e < value → value ≤ 2 ^ 31 → e < 31
exponent_small e value h v = elim (Bool-cases (ltb e 31)) [
  | inl below ↦ ground arith
  | inr above ↦ let big : 2 ^ 31 ≤ 2 ^ e = pow_mono 31 e (ground arith) in absurd (omega arith)
]

no_wrap : (e : ℕ) → e < 31 → 2 ^ e * 2 % 2 ^ 32 ≡ 2 ^ suc e
no_wrap e h =
    let low : 2 ^ suc e ≤ 2 ^ 31 = pow_mono (suc e) 31 (omega arith) in
    let twice : 2 ^ suc e ≡ 2 ^ e + 2 ^ e = two-pow-succ e in
    wrap_small (2 ^ e) (2 ^ suc e) twice low

double_until-Ends :
    (fuel e value : ℕ)
    → fuel + e ≡ 32
    → value ≤ 2 ^ 31
    → 0 < fuel
    → (2 ^ e ≡ 1) ⊎ (2 ^ e < 2 * value)
    → Ends (Ceiling value) (double_until fuel (2 ^ e) value)
unfolding double_until
double_until-Ends zero e value s v pos close = absurd (omega arith)
double_until-Ends (suc fuel) e value s v pos close =
    Ends-if (ltb (2 ^ e) value)
      (λ below.
        let lt : 2 ^ e < value = ground arith in
        let small : e < 31 = exponent_small e value lt v in
        let twice : 2 ^ suc e ≡ 2 ^ e + 2 ^ e = two-pow-succ e in
        rw (no_wrap e small)
          (double_until-Ends fuel (suc e) value (omega arith) v (omega arith) (inr (omega arith))))
      (λ above.
        ends (record { exponent = e; is_power = refl; enough = ground arith; close = close }))

-- Up to the highest bit, the loop ends at the least power of two that is not below the number.
ceiling_power_of_two-Ends :
    (value : ℕ) → value ≤ 2 ^ 31 → Ends (Ceiling value) (ceiling_power_of_two value)
unfolding ceiling_power_of_two
ceiling_power_of_two-Ends value v = double_until-Ends 32 0 value refl v (omega arith) (inl refl)

-- Beyond it, the loop goes on for ever.
never_ends :
    (fuel value p : ℕ)
    → 2 ^ 31 < value
    → ((e : ℕ) × (e < 32) × (p ≡ 2 ^ e)) ⊎ (p ≡ 0)
    → double_until fuel p value ≡ none
unfolding double_until
never_ends zero value p v h = refl
never_ends (suc fuel) value p v (inr z) =
    let lt : ltb p value ≡ true = ground arith in
    rw lt (never_ends fuel value (p * 2 % 2 ^ 32) v (inr (omega arith)))
never_ends (suc fuel) value p v (inl (e, small, eq)) = elim (Bool-cases (ltb e 31)) [
  | inl below ↦
      let some_e : e < 31 = ground arith in
      let low : 2 ^ e ≤ 2 ^ 31 = pow_mono e 31 (omega arith) in
      let lt : ltb p value ≡ true = ground arith in
      let next : p * 2 % 2 ^ 32 ≡ 2 ^ suc e = ap (λ q. q * 2 % 2 ^ 32) eq ∙ no_wrap e some_e in
      rw lt (never_ends fuel value (p * 2 % 2 ^ 32) v (inl (suc e, omega arith, next)))
  | inr top ↦
      let at_top : e ≡ 31 = ground arith in
      let value_of : p ≡ 2 ^ 31 = eq ∙ ap (λ j. 2 ^ j) at_top in
      let lt : ltb p value ≡ true = ground arith in
      rw lt (never_ends fuel value (p * 2 % 2 ^ 32) v (inr (omega arith)))
]

-- No number of rounds is enough for a number above the highest bit.
ceiling_never_ends : (fuel value : ℕ) → 2 ^ 31 < value → double_until fuel 1 value ≡ none
ceiling_never_ends fuel value v = never_ends fuel value 1 v (inl (0, omega arith, refl))
