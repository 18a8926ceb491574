-- ===== src/Util/Binarizer/Digits.antt =====
-- The two tables of binarizer.cc undo each other, and division gives the digits.
use april_ann.Prelude.{
  ℕ, zero, suc, ◌+◌, ◌*◌, ◌/◌, ◌%◌, ◌<◌, ◌≡◌, Bool, true, ◌&&◌, ◌==◌, arith, refl,
}
use april_ann.Util.Binarizer.{cod, uncod, cod_at, uncod_at, digit32, digit64, double_word}

unfoldable inverse_below : ℕ → Bool
inverse_below zero = true
inverse_below (suc n) = inverse_below n && (uncod_at (cod_at n) == n)

inverse_all : inverse_below 85 ≡ true
unfolding inverse_below cod_at uncod_at cod uncod
inverse_all = refl

below-inverse : (n d : ℕ) → inverse_below n ≡ true → d < n → uncod_at (cod_at d) ≡ d
unfolding inverse_below
below-inverse zero d h l = absurd (omega arith)
below-inverse (suc n) d h l = ground (arith, below-inverse n d)

-- Every digit is read back from its character.
pub uncod_at-cod_at : (d : ℕ) → d < 85 → uncod_at (cod_at d) ≡ d
uncod_at-cod_at d l = below-inverse 85 d inverse_all l

pub digit32_lem : (a b : ℕ) → b ≡ a / 85 → a < 4294967296 → digit32 a b + 85 * b ≡ a
unfolding digit32
digit32_lem a b e l = omega arith

pub digit32_bound : (a b : ℕ) → b ≡ a / 85 → a < 4294967296 → digit32 a b < 85
unfolding digit32
digit32_bound a b e l = omega arith

pub digit64_lem : (a b : ℕ) → b ≡ a / 85 → a < double_word → digit64 a b + 85 * b ≡ a
unfolding digit64
digit64_lem a b e l = omega arith

pub digit64_bound : (a b : ℕ) → b ≡ a / 85 → a < double_word → digit64 a b < 85
unfolding digit64
digit64_bound a b e l = omega arith

pub digit64_mod : (a b : ℕ) → b ≡ a / 85 → a < double_word → digit64 a b ≡ a % 85
unfolding digit64
digit64_mod a b e l = omega arith
