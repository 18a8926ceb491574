-- ===== src/DataSet/Bits/Byte.antt =====
-- `BitDataSet`: a bit of a byte, set or cleared, and the others as they were.
use april_ann.Prelude.{
  ℕ, zero, suc, ◌<◌, ◌≡◌, Bool, true, false, ◌&&◌, ltb, ltb→lt, ◌==◌, ==_iff, if◌then◌else◌, arith,
  refl, Bool-cases, inl, inr,
}
use april_ann.DataSet.Bits.{bit_of, clear_bit, set_bit}

and_left : (a b : Bool) → (a && b) ≡ true → a ≡ true
and_left true b h = refl
and_left false b h = h

and_right : (a b : Bool) → (a && b) ≡ true → b ≡ true
and_right true b h = h
and_right false true h = refl
and_right false false h = h

unfoldable all_below : (ℕ → Bool) → ℕ → Bool
all_below f zero = true
all_below f (suc n) = all_below f n && f n

all_below_lem : (f : ℕ → Bool) (n i : ℕ) → all_below f n ≡ true → i < n → f i ≡ true
unfolding all_below
all_below_lem f zero i h l = absurd (omega arith)
all_below_lem f (suc n) i h l = elim (Bool-cases (i == n)) [
  | inl same ↦ let e : i ≡ n = ground arith in rw e (and_right (all_below f n) (f n) h)
  | inr other ↦ all_below_lem f n i (and_left (all_below f n) (f n) h) (ground arith)
]

-- A test of every byte `v` and every two places `b` and `c` in it.
everywhere :
    (test : ℕ → ℕ → ℕ → Bool)
    → all_below (λ v. all_below (λ b. all_below (test v b) 8) 8) 256 ≡ true
    → (v b c : ℕ) → v < 256
    → b < 8
    → c < 8
    → test v b c ≡ true
everywhere test h v b c l m n =
    all_below_lem (test v b) 8 c
      (all_below_lem (λ b'. all_below (test v b') 8) 8 b
        (all_below_lem (λ v'. all_below (λ b'. all_below (test v' b') 8) 8) 256 v h l) m)
      n

-- The value of a byte after putPattern has treated one bit, for a value that is zero or not.
abbrev pub put_bit : Bool → ℕ → ℕ → ℕ
put_bit z v b = if z then clear_bit v b else set_bit v b

abbrev puts_right : Bool → ℕ → ℕ → ℕ → Bool
puts_right z v b c =
    bit_of (put_bit z v b) c == (if b == c then (if z then 0 else 1) else bit_of v c)

pub bit_of-put_bit :
    (z : Bool) (v b c : ℕ)
    → v < 256
    → b < 8
    → c < 8
    → bit_of (put_bit z v b) c ≡ (if b == c then (if z then 0 else 1) else bit_of v c)
unfolding all_below
bit_of-put_bit true v b c l m n = (==_iff _ _).0 (everywhere (puts_right true) refl v b c l m n)
bit_of-put_bit false v b c l m n = (==_iff _ _).0 (everywhere (puts_right false) refl v b c l m n)

pub put_bit-bound : (z : Bool) (v b : ℕ) → v < 256 → b < 8 → put_bit z v b < 256
unfolding all_below
put_bit-bound true v b l m =
    ltb→lt (clear_bit v b) 256
      (everywhere (λ v' b' c. ltb (clear_bit v' b') 256) refl v b 0 l m (omega arith))
put_bit-bound false v b l m =
    ltb→lt (set_bit v b) 256
      (everywhere (λ v' b' c. ltb (set_bit v' b') 256) refl v b 0 l m (omega arith))
