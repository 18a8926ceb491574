-- ===== src/Util/Binarizer/Words.antt =====
-- Writing a word with binarizer.cc and reading it back.
use april_ann.Prelude.{
  ℕ, ◌+◌, ◌-◌, ◌*◌, ◌/◌, ◌%◌, ◌<◌, ◌≤◌, ◌≡◌, false, arith, refl, ap, ◌∙◌, sym, ltb, if◌then◌else◌,
  ◌⊎◌, inl, inr,
}
use april_ann.Prelude.Int.{ℤ, pos, negsuc}
use april_ann.Util.Binarizer.{
  digit32, digit64, word, double_word, half, code_uint16, decode_uint16, code_uint32, decode_uint32,
  code_uint64, decode_uint64, add32, mul32, add64, mul64, bits_of, int_of, code_int32, decode_int32,
}
use april_ann.Util.Binarizer.Digits.{
  uncod_at-cod_at, digit32_lem, digit32_bound, digit64_lem, digit64_bound, digit64_mod,
}
use april_ann.Util.Binarizer.Places.{
  code_uint32-at_0, code_uint32-at_1, code_uint32-at_2, code_uint32-at_3, code_uint32-at_4,
  code_uint64-at_0, code_uint64-at_1, code_uint64-at_2, code_uint64-at_3, code_uint64-at_4,
  code_uint64-at_5, code_uint64-at_6, code_uint64-at_7, code_uint64-at_8, code_uint64-at_9,
  code_uint16-at_0, code_uint16-at_1, code_uint16-at_2,
}

-- The sum of the products does not wrap in 32 bits.
sum32 :
    (a d0 d1 d2 d3 d4 a1 a2 a3 : ℕ)
    → d0 + 85 * a1 ≡ a
    → d1 + 85 * a2 ≡ a1
    → d2 + 85 * a3 ≡ a2
    → d3 + 85 * d4 ≡ a3
    → a < word
    → add32
        (add32 (add32 (add32 (mul32 d4 52200625) (mul32 d3 614125)) (mul32 d2 7225)) (mul32 d1 85))
        d0
      ≡ a
sum32 a d0 d1 d2 d3 d4 a1 a2 a3 e0 e1 e2 e3 l = omega arith

-- Every number below 2^32 is decoded from its code.
pub decode_uint32-code_uint32 :
    (a : ℕ) (b : ℕ → ℕ) (p : ℕ) → a < word → decode_uint32 (code_uint32 a b p) p ≡ a
unfolding decode_uint32
decode_uint32-code_uint32 a b p l =
    rw
      (
        code_uint32-at_0 a b p,
        code_uint32-at_1 a b p,
        code_uint32-at_2 a b p,
        code_uint32-at_3 a b p,
        code_uint32-at_4 a b p,
        uncod_at-cod_at (a / 52200625) (omega arith),
        uncod_at-cod_at (digit32 (a / 614125) (a / 52200625))
            (digit32_bound (a / 614125) (a / 52200625) (omega arith) (omega arith)),
        uncod_at-cod_at (digit32 (a / 7225) (a / 614125))
            (digit32_bound (a / 7225) (a / 614125) (omega arith) (omega arith)),
        uncod_at-cod_at (digit32 (a / 85) (a / 7225))
            (digit32_bound (a / 85) (a / 7225) (omega arith) (omega arith)),
        uncod_at-cod_at (digit32 a (a / 85)) (digit32_bound a (a / 85) refl l),
      )
      (sum32 a (digit32 a (a / 85)) (digit32 (a / 85) (a / 7225)) (digit32 (a / 7225) (a / 614125))
        (digit32 (a / 614125) (a / 52200625)) (a / 52200625) (a / 85) (a / 7225) (a / 614125)
        (digit32_lem a (a / 85) refl l)
        (digit32_lem (a / 85) (a / 7225) (omega arith) (omega arith))
        (digit32_lem (a / 7225) (a / 614125) (omega arith) (omega arith))
        (digit32_lem (a / 614125) (a / 52200625) (omega arith) (omega arith)) l)

-- What the product for the fifth digit from the right loses.
abbrev pub lost : ℕ → ℕ
lost a = if ltb 82 ((a / 52200625) % 85) then word else 0

sum64 :
    (a d0 d1 d2 d3 d4 d5 d6 d7 d8 d9 a1 a2 a3 a4 a5 a6 a7 a8 : ℕ)
    → d0 + 85 * a1 ≡ a
    → d1 + 85 * a2 ≡ a1
    → d2 + 85 * a3 ≡ a2
    → d3 + 85 * a4 ≡ a3
    → d4 + 85 * a5 ≡ a4
    → d5 + 85 * a6 ≡ a5
    → d6 + 85 * a7 ≡ a6
    → d7 + 85 * a8 ≡ a7
    → d8 + 85 * d9 ≡ a8
    → d4 < 85
    → d3 < 85
    → d2 < 85
    → d1 < 85
    → a < double_word
    → add64
          (add64
            (add64
              (add64
                (add64
                  (add64
                    (add64
                      (add64
                        (add64 (mul64 d9 231616946283203125) (mul64 d8 2724905250390625))
                        (mul64 d7 32057708828125))
                      (mul64 d6 377149515625))
                    (mul64 d5 4437053125))
                  (mul32 d4 52200625))
                (mul32 d3 614125))
              (mul32 d2 7225))
            (mul32 d1 85))
          d0
        + (if ltb 82 d4 then word else 0)
      ≡ a
sum64 a d0 d1 d2 d3 d4 d5 d6 d7 d8 d9 a1 a2 a3 a4 a5 a6 a7 a8 e0 e1 e2 e3 e4 e5 e6 e7 e8 l4 l3 l2 l1
      l =
    ground arith

-- Every number below 2^64 is decoded from its code, except that it comes out 2^32 too small when its
-- fifth digit from the right, in base 85, is 83 or 84.
pub decode_uint64-code_uint64 :
    (a : ℕ) (b : ℕ → ℕ) (p : ℕ) → a < double_word → decode_uint64 (code_uint64 a b p) p + lost a ≡ a
unfolding decode_uint64
decode_uint64-code_uint64 a b p l =
    rw
      (
        code_uint64-at_0 a b p,
        code_uint64-at_1 a b p,
        code_uint64-at_2 a b p,
        code_uint64-at_3 a b p,
        code_uint64-at_4 a b p,
        code_uint64-at_5 a b p,
        code_uint64-at_6 a b p,
        code_uint64-at_7 a b p,
        code_uint64-at_8 a b p,
        code_uint64-at_9 a b p,
        uncod_at-cod_at (a / 231616946283203125) (omega arith),
        uncod_at-cod_at (digit64 (a / 2724905250390625) (a / 231616946283203125)) (
            digit64_bound (a / 2724905250390625) (a / 231616946283203125) (omega arith)
              (omega arith)),
        uncod_at-cod_at (digit64 (a / 32057708828125) (a / 2724905250390625))
            (digit64_bound (a / 32057708828125) (a / 2724905250390625) (omega arith) (omega arith)),
        uncod_at-cod_at (digit64 (a / 377149515625) (a / 32057708828125))
            (digit64_bound (a / 377149515625) (a / 32057708828125) (omega arith) (omega arith)),
        uncod_at-cod_at (digit64 (a / 4437053125) (a / 377149515625))
            (digit64_bound (a / 4437053125) (a / 377149515625) (omega arith) (omega arith)),
        uncod_at-cod_at (digit64 (a / 52200625) (a / 4437053125))
            (digit64_bound (a / 52200625) (a / 4437053125) (omega arith) (omega arith)),
        uncod_at-cod_at (digit64 (a / 614125) (a / 52200625))
            (digit64_bound (a / 614125) (a / 52200625) (omega arith) (omega arith)),
        uncod_at-cod_at (digit64 (a / 7225) (a / 614125))
            (digit64_bound (a / 7225) (a / 614125) (omega arith) (omega arith)),
        uncod_at-cod_at (digit64 (a / 85) (a / 7225))
            (digit64_bound (a / 85) (a / 7225) (omega arith) (omega arith)),
        uncod_at-cod_at (digit64 a (a / 85)) (digit64_bound a (a / 85) refl l),
        sym (digit64_mod (a / 52200625) (a / 4437053125) (omega arith) (omega arith)),
      )
      (sum64 a (digit64 a (a / 85)) (digit64 (a / 85) (a / 7225)) (digit64 (a / 7225) (a / 614125))
        (digit64 (a / 614125) (a / 52200625)) (digit64 (a / 52200625) (a / 4437053125))
        (digit64 (a / 4437053125) (a / 377149515625))
        (digit64 (a / 377149515625) (a / 32057708828125))
        (digit64 (a / 32057708828125) (a / 2724905250390625))
        (digit64 (a / 2724905250390625) (a / 231616946283203125)) (a / 231616946283203125) (a / 85)
        (a / 7225) (a / 614125) (a / 52200625) (a / 4437053125) (a / 377149515625)
        (a / 32057708828125) (a / 2724905250390625) (digit64_lem a (a / 85) refl l)
        (digit64_lem (a / 85) (a / 7225) (omega arith) (omega arith))
        (digit64_lem (a / 7225) (a / 614125) (omega arith) (omega arith))
        (digit64_lem (a / 614125) (a / 52200625) (omega arith) (omega arith))
        (digit64_lem (a / 52200625) (a / 4437053125) (omega arith) (omega arith))
        (digit64_lem (a / 4437053125) (a / 377149515625) (omega arith) (omega arith))
        (digit64_lem (a / 377149515625) (a / 32057708828125) (omega arith) (omega arith))
        (digit64_lem (a / 32057708828125) (a / 2724905250390625) (omega arith) (omega arith))
        (digit64_lem (a / 2724905250390625) (a / 231616946283203125) (omega arith) (omega arith))
        (digit64_bound (a / 52200625) (a / 4437053125) (omega arith) (omega arith))
        (digit64_bound (a / 614125) (a / 52200625) (omega arith) (omega arith))
        (digit64_bound (a / 7225) (a / 614125) (omega arith) (omega arith))
        (digit64_bound (a / 85) (a / 7225) (omega arith) (omega arith)) l)

-- The signed numbers of 32 bits.
abbrev pub InInt32 : ℤ → Type 0
InInt32 (pos n) = n < 2147483648
InInt32 (negsuc n) = n < 2147483648

bits_of-bound : (i : ℤ) → InInt32 i → bits_of i < word
unfolding bits_of
bits_of-bound (pos n) l = omega arith
bits_of-bound (negsuc n) l = omega arith

not_below : (n : ℕ) → 2147483648 ≤ n → ltb n 2147483648 ≡ false
not_below n l = ground arith

int_of-bits_of : (i : ℤ) → InInt32 i → int_of (bits_of i) ≡ i
unfolding int_of bits_of
int_of-bits_of (pos n) l = ground arith
int_of-bits_of (negsuc n) l =
    rw (not_below (word - 1 - n) (omega arith))
      (ap negsuc {x = word - 1 - (word - 1 - n)} (omega arith))

-- Every signed number of 32 bits is decoded from its code.
pub decode_int32-code_int32 :
    (i : ℤ) (b : ℕ → ℕ) (p : ℕ) → InInt32 i → decode_int32 (code_int32 i b p) p ≡ i
unfolding decode_int32 code_int32
decode_int32-code_int32 i b p l =
    ap int_of (decode_uint32-code_uint32 (bits_of i) b p (bits_of-bound i l)) ∙ int_of-bits_of i l

pub code_int32_other :
    (i : ℤ) (b : ℕ → ℕ) (p j : ℕ) → (j < p) ⊎ (p + 5 ≤ j) → code_int32 i b p j ≡ b j
unfolding code_int32 code_uint32
code_int32_other i b p j (inl l) = ground arith
code_int32_other i b p j (inr l) = ground arith

pub decode_int32_cong :
    (b c : ℕ → ℕ) (p : ℕ) → ((j : ℕ) → j < p + 5 → b j ≡ c j) → decode_int32 b p ≡ decode_int32 c p
unfolding decode_int32 decode_uint32
decode_int32_cong b c p h =
    rw
      (
        h p (omega arith),
        h (p + 1) (omega arith),
        h (p + 2) (omega arith),
        h (p + 3) (omega arith),
        h (p + 4) (omega arith),
      )
      refl

sum16 :
    (a d0 d1 d2 a1 : ℕ)
    → d0 + 85 * a1 ≡ a
    → d1 + 85 * d2 ≡ a1
    → a < half
    → add32 (add32 (mul32 d2 7225) (mul32 d1 85)) d0 % half ≡ a
sum16 a d0 d1 d2 a1 e0 e1 l = omega arith

half_small : (n : ℕ) → n < half → n % half ≡ n
half_small n l = omega arith

-- Every number below 2^16 is decoded from its code.
pub decode_uint16-code_uint16 :
    (a : ℕ) (b : ℕ → ℕ) (p : ℕ) → a < half → decode_uint16 (code_uint16 a b p) p ≡ a
unfolding decode_uint16
decode_uint16-code_uint16 a b p l =
    rw
      (
        code_uint16-at_0 a b p,
        code_uint16-at_1 a b p,
        code_uint16-at_2 a b p,
        half_small (a / 85) (omega arith),
        half_small (a / 7225) (omega arith),
        uncod_at-cod_at (a / 7225) (omega arith),
        uncod_at-cod_at (digit32 (a / 85) (a / 7225))
            (digit32_bound (a / 85) (a / 7225) (omega arith) (omega arith)),
        uncod_at-cod_at (digit32 a (a / 85)) (digit32_bound a (a / 85) refl (omega arith)),
      )
      (sum16 a (digit32 a (a / 85)) (digit32 (a / 85) (a / 7225)) (a / 7225) (a / 85)
        (digit32_lem a (a / 85) refl (omega arith))
        (digit32_lem (a / 85) (a / 7225) (omega arith) (omega arith)) l)
