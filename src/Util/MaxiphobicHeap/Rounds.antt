-- ===== src/Util/MaxiphobicHeap/Rounds.antt =====
-- How many rounds the loop of `merge` takes in packages/basics/util/c_src/maxiphobic_minheap.h: each
-- leaves less than two thirds of the nodes.
use native.Mathlib.Nat.{pow-suc}
use april_ann.Prelude.{ℕ, zero, suc, ◌+◌, ◌*◌, ◌^◌, ◌≤◌, ◌<◌, ◌≡◌, sym, arith}

-- `k` rounds are enough for `n` nodes.
abbrev pub Enough : ℕ → ℕ → Type 0
Enough n k = n * 2 ^ k < 3 ^ k

mul_mono : (a b p : ℕ) → a ≤ b → a * p ≤ b * p
mul_mono a b p h = grind arith

thirds : (n m p q : ℕ) → 3 * m < 2 * n → n * (p * 2) < q * 3 → m * p < q
thirds n m p q h enough =
    let scaled : 3 * m * p ≤ 2 * n * p = mul_mono (3 * m) (2 * n) p (omega arith) in
    let left : 3 * m * p ≡ 3 * (m * p) = grind arith in
    let right : 2 * n * p ≡ n * (p * 2) = grind arith in omega arith

pub fewer_rounds : (n m k : ℕ) → 3 * m < 2 * n → Enough n (suc k) → Enough m k
fewer_rounds n m k h enough =
    let e : n * (2 ^ k * 2) < 3 ^ k * 3 = rw (sym (pow-suc 2 k), sym (pow-suc 3 k)) enough in
    thirds n m (2 ^ k) (3 ^ k) h e

grows : (n p q : ℕ) → n * p < q → 2 * p ≤ q → ((1 + n) * (p * 2) < q * 3) × (2 * (p * 2) ≤ q * 3)
grows n p q h g =
    let spread : (1 + n) * (p * 2) ≡ 2 * (n * p) + 2 * p = grind arith in (omega arith, omega arith)

from_two : (n : ℕ) → ((2 + n) * 2 ^ (2 + n) < 3 ^ (2 + n)) × (2 * 2 ^ (2 + n) ≤ 3 ^ (2 + n))
from_two zero = (omega arith, omega arith)
from_two (suc n) =
    let e : 2 + suc n ≡ suc (2 + n) = omega arith in
    let e' : 1 + (2 + n) ≡ suc (2 + n) = omega arith in
    let (below, double) = from_two n in
    rw (e, pow-suc 2 (2 + n), pow-suc 3 (2 + n), sym e')
      (grows (2 + n) (2 ^ (2 + n)) (3 ^ (2 + n)) below double)

pub Enough-linear : (n : ℕ) → Enough n n
Enough-linear zero = omega arith
Enough-linear (suc zero) = omega arith
Enough-linear (suc (suc n)) = let e : suc (suc n) ≡ 2 + n = omega arith in rw e ((from_two n).0)
