-- ===== src/Util/CeilingPower.antt =====
-- packages/basics/util/c_src/ceiling_power_of_two.cc, on unsigned numbers of 32 bits.
mod Loop
use april_ann.Prelude.{ℕ, zero, suc, ◌+◌, ◌*◌, ◌%◌, ◌^◌, Option, none, some, ltb, if◌then◌else◌}

-- The loop of `ceilingPowerOfTwo`.
unfoldable pub double_until : ℕ → ℕ → ℕ → Option ℕ
double_until zero power_of_two value = none
double_until (suc fuel) power_of_two value =
    let rest = double_until fuel (power_of_two * 2 % 2 ^ 32) value in
    if ltb power_of_two value then rest else some power_of_two

-- The power reaches the highest bit in 31 rounds.
unfoldable pub ceiling_power_of_two : ℕ → Option ℕ
unfolding double_until
ceiling_power_of_two value = double_until 32 1 value
