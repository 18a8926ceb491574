-- ===== src/DataSet/Bits/Packed.antt =====
-- `BitDataSet`: the values of a pattern in the packed bytes.
use april_ann.Prelude.{
  ℕ, zero, suc, ◌+◌, ◌*◌, ◌/◌, ◌%◌, ◌<◌, ◌≤◌, ◌≡◌, ◌≢◌, ◌⊎◌, Bool, true, false, ltb, ◌==◌,
  if◌then◌else◌, arith, refl, Bool-cases, inl, inr, sym, ap, ◌∙◌,
}
use april_ann.Prelude.Array.{update}
use april_ann.DataSet.Bits.{
  BitDataSet, cursor_at, bit_of, read_bits, write_bits, bits_get, bits_put,
}
use april_ann.DataSet.Bits.Byte.{put_bit, bit_of-put_bit, put_bit-bound}

-- The bit with the number `g` in the whole block.
abbrev pub bit_at : (ℕ → ℕ) → ℕ → ℕ
bit_at bytes g = bit_of (bytes (g / 8)) (g % 8)

abbrev pub AreBytes : (ℕ → ℕ) → Type 0
AreBytes bytes = (i : ℕ) → bytes i < 256

cursor_at_lem :
    (start n : ℕ)
    → ((cursor_at start n).byte_pos ≡ (start + n) / 8)
      × ((cursor_at start n).bit_pos ≡ (start + n) % 8)
unfolding cursor_at
cursor_at_lem start zero = (grind arith, grind arith)
cursor_at_lem start (suc n) = let (e, f) = cursor_at_lem start n in (ground arith, ground arith)

abbrev write_bit : Bool → (ℕ → ℕ) → ℕ → ℕ → ℕ
write_bit z bytes g = update bytes (g / 8) (put_bit z (bytes (g / 8)) (g % 8))

write_bit-AreBytes :
    (z : Bool) (bytes : ℕ → ℕ) (g : ℕ) → AreBytes bytes → AreBytes (write_bit z bytes g)
write_bit-AreBytes z bytes g h i = elim (Bool-cases (g / 8 == i)) [
  | inl same ↦ rw same (put_bit-bound z (bytes (g / 8)) (g % 8) (h (g / 8)) (omega arith))
  | inr other ↦ rw other (h i)
]

same_test : (k : ℕ) → (k == k) ≡ true
same_test k = ground arith

places_differ : (g k : ℕ) → g / 8 ≡ k / 8 → (g % 8 == k % 8) ≡ (g == k)
places_differ g k e = ground arith

numbers_differ : (g k : ℕ) → (g / 8 == k / 8) ≡ false → (g == k) ≡ false
numbers_differ g k e = ground arith

bit_at-write_bit :
    (z : Bool) (bytes : ℕ → ℕ) (g k : ℕ)
    → AreBytes bytes
    → bit_at (write_bit z bytes g) k ≡ (if g == k then (if z then 0 else 1) else bit_at bytes k)
bit_at-write_bit z bytes g k h = elim (Bool-cases (g / 8 == k / 8)) [
  | inl same ↦
      let e : g / 8 ≡ k / 8 = ground arith in
      rw (e, same_test (k / 8), sym (places_differ g k e))
        (bit_of-put_bit z (bytes (k / 8)) (g % 8) (k % 8) (h (k / 8)) (omega arith) (omega arith))
  | inr other ↦ rw (other, numbers_differ g k other) refl
]

shifted : (a n k : ℕ) → (k == n) ≡ false → (a + n == a + k) ≡ false
shifted a n k h = ground arith

outside_test : (start n g : ℕ) → (g < start) ⊎ (start + suc n ≤ g) → (start + n == g) ≡ false
outside_test start n g h = ground arith

shorter : (start n g : ℕ) → (g < start) ⊎ (start + suc n ≤ g) → (g < start) ⊎ (start + n ≤ g)
shorter start n g (inl l) = inl l
shorter start n g (inr l) = inr (omega arith)

row_end : (j i k n : ℕ) → j < i → k < n → j * n + k < i * n
row_end j i k n l m = grind arith

row_begin : (i j k n : ℕ) → i < j → i * n + n ≤ j * n + k
row_begin i j k n l = grind arith

-- The bits of a pattern, and the bits of the others.
record Packed {T : Type 0} (is_zero : T → Bool) (start n : ℕ) (f : ℕ → T) (before after : ℕ → ℕ)
    : Type 0 where
  bytes : AreBytes after
  own : (k : ℕ) → k < n → bit_at after (start + k) ≡ (if is_zero (f k) then 0 else 1)
  rest : (g : ℕ) → (g < start) ⊎ (start + n ≤ g) → bit_at after g ≡ bit_at before g

module _ {T : Type 0} (is_zero : T → Bool) where
  Packed-suc :
      (start n : ℕ) (f : ℕ → T) (bytes b : ℕ → ℕ)
      → Packed is_zero start n f bytes b
      → Packed is_zero start (suc n) f bytes (write_bit (is_zero (f n)) b (start + n))
  Packed-suc start n f bytes b d = record {
    bytes = write_bit-AreBytes (is_zero (f n)) b (start + n) d.bytes;
    own = λ k l.
        bit_at-write_bit (is_zero (f n)) b (start + n) (start + k) d.bytes
        ∙ elim (Bool-cases (k == n)) [
          | inl same ↦ let e : k ≡ n = ground arith in rw (e, same_test (start + n)) refl
          | inr other ↦ rw (shifted start n k other) (d.own k (ground arith))
        ];
    rest = λ g l.
        bit_at-write_bit (is_zero (f n)) b (start + n) g d.bytes
        ∙ rw (outside_test start n g l) (d.rest g (shorter start n g l));
  }

  write_bits-Packed :
      (start n : ℕ) (pat : ℕ → T) (p : ℕ) (bytes : ℕ → ℕ)
      → AreBytes bytes
      → Packed is_zero start n (λ k. pat (p + k)) bytes (write_bits is_zero start n pat p bytes)
  unfolding write_bits
  write_bits-Packed start zero pat p bytes h = record {
    bytes = h;
    own = λ k l. absurd (omega arith);
    rest = λ g l. refl;
  }
  write_bits-Packed start (suc n) pat p bytes h =
      rw ((cursor_at_lem start n).0, (cursor_at_lem start n).1)
        (Packed-suc start n (λ k. pat (p + k)) bytes (write_bits is_zero start n pat p bytes)
          (write_bits-Packed start n pat p bytes h))

module _ {T : Type 0} (zero_value one_value : T) where
  read_bits_lem :
      (bytes : ℕ → ℕ) (start n : ℕ) (out : ℕ → T) (q k : ℕ)
      → k < n
      → read_bits zero_value one_value bytes start n out q (q + k)
        ≡ (if bit_at bytes (start + k) == 1 then one_value else zero_value)
  unfolding read_bits
  read_bits_lem bytes start zero out q k l = absurd (omega arith)
  read_bits_lem bytes start (suc n) out q k l = elim (Bool-cases (k == n)) [
    | inl same ↦
        let e : k ≡ n = ground arith in
        rw (e, same_test (q + n), (cursor_at_lem start n).0, (cursor_at_lem start n).1) refl
    | inr other ↦ rw (shifted q n k other) (read_bits_lem bytes start n out q k (ground arith))
  ]

as_value :
    {T : Type 0} (z : Bool) (zero_value one_value : T)
    → (if (if z then 0 else 1) == 1 then one_value else zero_value)
      ≡ (if z then zero_value else one_value)
as_value true zero_value one_value = refl
as_value false zero_value one_value = refl

bits_apart : (i j k n : ℕ) → j ≢ i → k < n → (j * n + k < i * n) ⊎ (i * n + n ≤ j * n + k)
bits_apart i j k n h l = elim (Bool-cases (ltb j i)) [
  | inl less ↦ inl (row_end j i k n (ground arith) l)
  | inr more ↦ inr (row_begin i j k n (ground arith))
]

module _ {T : Type 0} (is_zero : T → Bool) (zero_value one_value : T) where
  abbrev pub value_at : BitDataSet → (ℕ → T) → ℕ → ℕ → ℕ → T
  value_at x out q j k = (bits_get zero_value one_value x j out q).1 (q + k)

  -- After a pattern has been put at an index, each of its values is read there as the zero or the one
  -- value that it stands for, and every pattern at another index is read as before, also where the two
  -- share a byte. The block keeps to bytes.
  pub bits_put_correct :
      (x : BitDataSet) (i : ℕ) (pat : ℕ → T) (p : ℕ) (out : ℕ → T) (q : ℕ)
      → AreBytes x.bytes
      → let y = (bits_put is_zero x i pat p).1 in
        AreBytes y.bytes
        × ((k : ℕ)
            → k < x.patternsize
            → value_at y out q i k ≡ (if is_zero (pat (p + k)) then zero_value else one_value))
        × ((j k : ℕ) → j ≢ i → k < x.patternsize → value_at y out q j k ≡ value_at x out q j k)
  unfolding bits_put bits_get
  bits_put_correct x i pat p out q h =
      let start = i * x.patternsize in
      let n = x.patternsize in
      let done = write_bits-Packed is_zero start n pat p x.bytes h in
      let y = write_bits is_zero start n pat p x.bytes in
      (
        done.bytes,
        λ k l.
            read_bits_lem zero_value one_value y start n out q k l
            ∙ (rw (done.own k l) (as_value (is_zero (pat (p + k))) zero_value one_value)),
        λ j k d l.
            read_bits_lem zero_value one_value y (j * n) n out q k l
            ∙ ap (λ v. if v == 1 then one_value else zero_value)
                (done.rest (j * n + k) (bits_apart i j k n d l))
            ∙ sym (read_bits_lem zero_value one_value x.bytes (j * n) n out q k l),
      )
