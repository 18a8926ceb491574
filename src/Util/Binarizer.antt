-- ===== src/Util/Binarizer.antt =====
-- binarizer.h and binarizer.cc: machine integers written as printable base-85 digits. A block of
-- characters is a function from positions; a number is written from a position on.
use april_ann.Prelude.{
  ℕ, zero, suc, ◌+◌, ◌-◌, ◌*◌, ◌/◌, ◌%◌, List, [], ◌∷◌, Bool, true, false, ◌&&◌, not, ◌==◌, leb,
  ltb, if◌then◌else◌, get_or,
}
use april_ann.Prelude.Array.{update}
use april_ann.Prelude.Int.{ℤ, pos, negsuc}
pub mod Digits
pub mod Places
pub mod Words
pub mod Rows
mod Tests

-- The characters of the 85 digits, in order.
unfoldable pub cod : List ℕ
cod =
    33 ∷ 36 ∷ 37 ∷ 38 ∷ 39 ∷ 40 ∷ 41 ∷ 42 ∷ 43 ∷ 44 ∷ 46 ∷ 47 ∷ 48 ∷ 49 ∷ 50 ∷ 51 ∷ 52 ∷ 53 ∷ 54
    ∷ 55 ∷ 56 ∷ 57 ∷ 58 ∷ 59 ∷ 60 ∷ 61 ∷ 62 ∷ 63 ∷ 64 ∷ 65 ∷ 66 ∷ 67 ∷ 68 ∷ 69 ∷ 70 ∷ 71 ∷ 72 ∷ 73
    ∷ 74 ∷ 75 ∷ 76 ∷ 77 ∷ 78 ∷ 79 ∷ 80 ∷ 81 ∷ 82 ∷ 83 ∷ 84 ∷ 85 ∷ 86 ∷ 87 ∷ 88 ∷ 89 ∷ 90 ∷ 94 ∷ 95
    ∷ 96 ∷ 97 ∷ 98 ∷ 99 ∷ 100 ∷ 101 ∷ 102 ∷ 103 ∷ 104 ∷ 105 ∷ 106 ∷ 107 ∷ 108 ∷ 109 ∷ 110 ∷ 111
    ∷ 112 ∷ 113 ∷ 114 ∷ 115 ∷ 116 ∷ 117 ∷ 118 ∷ 119 ∷ 120 ∷ 121 ∷ 122 ∷ 123 ∷ []

-- The digit of each of the 256 characters; 0 where the character is none.
unfoldable pub uncod : List ℕ
uncod =
    0 ∷ 0 ∷ 0 ∷ 0 ∷ 0 ∷ 0 ∷ 0 ∷ 0 ∷ 0 ∷ 0 ∷ 0 ∷ 0 ∷ 0 ∷ 0 ∷ 0 ∷ 0 ∷ 0 ∷ 0 ∷ 0 ∷ 0 ∷ 0 ∷ 0 ∷ 0 ∷ 0
    ∷ 0 ∷ 0 ∷ 0 ∷ 0 ∷ 0 ∷ 0 ∷ 0 ∷ 0 ∷ 0 ∷ 0 ∷ 0 ∷ 0 ∷ 1 ∷ 2 ∷ 3 ∷ 4 ∷ 5 ∷ 6 ∷ 7 ∷ 8 ∷ 9 ∷ 0 ∷ 10
    ∷ 11 ∷ 12 ∷ 13 ∷ 14 ∷ 15 ∷ 16 ∷ 17 ∷ 18 ∷ 19 ∷ 20 ∷ 21 ∷ 22 ∷ 23 ∷ 24 ∷ 25 ∷ 26 ∷ 27 ∷ 28 ∷ 29
    ∷ 30 ∷ 31 ∷ 32 ∷ 33 ∷ 34 ∷ 35 ∷ 36 ∷ 37 ∷ 38 ∷ 39 ∷ 40 ∷ 41 ∷ 42 ∷ 43 ∷ 44 ∷ 45 ∷ 46 ∷ 47 ∷ 48
    ∷ 49 ∷ 50 ∷ 51 ∷ 52 ∷ 53 ∷ 54 ∷ 0 ∷ 0 ∷ 0 ∷ 55 ∷ 56 ∷ 57 ∷ 58 ∷ 59 ∷ 60 ∷ 61 ∷ 62 ∷ 63 ∷ 64 ∷ 65
    ∷ 66 ∷ 67 ∷ 68 ∷ 69 ∷ 70 ∷ 71 ∷ 72 ∷ 73 ∷ 74 ∷ 75 ∷ 76 ∷ 77 ∷ 78 ∷ 79 ∷ 80 ∷ 81 ∷ 82 ∷ 83 ∷ 84
    ∷ 0 ∷ 0 ∷ 0 ∷ 0 ∷ 0 ∷ 0 ∷ 0 ∷ 0 ∷ 0 ∷ 0 ∷ 0 ∷ 0 ∷ 0 ∷ 0 ∷ 0 ∷ 0 ∷ 0 ∷ 0 ∷ 0 ∷ 0 ∷ 0 ∷ 0 ∷ 0 ∷ 0
    ∷ 0 ∷ 0 ∷ 0 ∷ 0 ∷ 0 ∷ 0 ∷ 0 ∷ 0 ∷ 0 ∷ 0 ∷ 0 ∷ 0 ∷ 0 ∷ 0 ∷ 0 ∷ 0 ∷ 0 ∷ 0 ∷ 0 ∷ 0 ∷ 0 ∷ 0 ∷ 0 ∷ 0
    ∷ 0 ∷ 0 ∷ 0 ∷ 0 ∷ 0 ∷ 0 ∷ 0 ∷ 0 ∷ 0 ∷ 0 ∷ 0 ∷ 0 ∷ 0 ∷ 0 ∷ 0 ∷ 0 ∷ 0 ∷ 0 ∷ 0 ∷ 0 ∷ 0 ∷ 0 ∷ 0 ∷ 0
    ∷ 0 ∷ 0 ∷ 0 ∷ 0 ∷ 0 ∷ 0 ∷ 0 ∷ 0 ∷ 0 ∷ 0 ∷ 0 ∷ 0 ∷ 0 ∷ 0 ∷ 0 ∷ 0 ∷ 0 ∷ 0 ∷ 0 ∷ 0 ∷ 0 ∷ 0 ∷ 0 ∷ 0
    ∷ 0 ∷ 0 ∷ 0 ∷ 0 ∷ 0 ∷ 0 ∷ 0 ∷ 0 ∷ 0 ∷ 0 ∷ 0 ∷ 0 ∷ 0 ∷ 0 ∷ 0 ∷ 0 ∷ 0 ∷ 0 ∷ 0 ∷ 0 ∷ 0 ∷ 0 ∷ 0 ∷ 0
    ∷ 0 ∷ 0 ∷ 0 ∷ 0 ∷ 0 ∷ 0 ∷ 0 ∷ 0 ∷ 0 ∷ 0 ∷ 0 ∷ 0 ∷ []

unfoldable pub cod_at : ℕ → ℕ
cod_at d = get_or cod d 0

unfoldable pub uncod_at : ℕ → ℕ
uncod_at c = get_or uncod c 0

abbrev pub word : ℕ
word = 4294967296

abbrev pub add32 : ℕ → ℕ → ℕ
add32 a b = (a + b) % word

abbrev pub sub32 : ℕ → ℕ → ℕ
sub32 a b = (a + word - b) % word

abbrev pub mul32 : ℕ → ℕ → ℕ
mul32 a b = (a * b) % word

abbrev pub half : ℕ
half = 65536

-- The last digit of `a`, where `b` is `a / 85`.
unfoldable pub digit32 : ℕ → ℕ → ℕ
digit32 a b = sub32 a (mul32 b 85)

unfoldable pub code_uint16 : ℕ → (ℕ → ℕ) → ℕ → ℕ → ℕ
code_uint16 a0 b p =
    let a1 = (a0 / 85) % half in
    let a2 = (a0 / 7225) % half in
    let b' = update b p (cod_at a2) in
    let b'' = update b' (p + 1) (cod_at (digit32 a1 a2)) in
    update b'' (p + 2) (cod_at (digit32 a0 a1))

unfoldable pub decode_uint16 : (ℕ → ℕ) → ℕ → ℕ
decode_uint16 b p =
    add32 (add32 (mul32 (uncod_at (b p)) 7225) (mul32 (uncod_at (b (p + 1))) 85))
      (uncod_at (b (p + 2)))
    % half

unfoldable pub code_uint32 : ℕ → (ℕ → ℕ) → ℕ → ℕ → ℕ
code_uint32 a0 b p =
    let a1 = a0 / 85 in
    let a2 = a0 / 7225 in
    let a3 = a0 / 614125 in
    let a4 = a0 / 52200625 in
    let b0 = update b p (cod_at a4) in
    let b1 = update b0 (p + 1) (cod_at (digit32 a3 a4)) in
    let b2 = update b1 (p + 2) (cod_at (digit32 a2 a3)) in
    let b3 = update b2 (p + 3) (cod_at (digit32 a1 a2)) in
    update b3 (p + 4) (cod_at (digit32 a0 a1))

-- What the last five characters add to a number, in 32 bits.
unfoldable pub decode_uint32 : (ℕ → ℕ) → ℕ → ℕ
decode_uint32 c p =
    add32
      (add32
        (add32 (add32 (mul32 (uncod_at (c p)) 52200625) (mul32 (uncod_at (c (p + 1))) 614125))
          (mul32 (uncod_at (c (p + 2))) 7225))
        (mul32 (uncod_at (c (p + 3))) 85))
      (uncod_at (c (p + 4)))

abbrev pub double_word : ℕ
double_word = 18446744073709551616

abbrev pub add64 : ℕ → ℕ → ℕ
add64 a b = (a + b) % double_word

abbrev pub mul64 : ℕ → ℕ → ℕ
mul64 a b = (a * b) % double_word

unfoldable pub digit64 : ℕ → ℕ → ℕ
digit64 a b = (a + double_word - mul64 b 85) % double_word

unfoldable pub code_uint64 : ℕ → (ℕ → ℕ) → ℕ → ℕ → ℕ
code_uint64 a0 b p =
    let a1 = a0 / 85 in
    let a2 = a0 / 7225 in
    let a3 = a0 / 614125 in
    let a4 = a0 / 52200625 in
    let a5 = a0 / 4437053125 in
    let a6 = a0 / 377149515625 in
    let a7 = a0 / 32057708828125 in
    let a8 = a0 / 2724905250390625 in
    let a9 = a0 / 231616946283203125 in
    let b0 = update b p (cod_at a9) in
    let b1 = update b0 (p + 1) (cod_at (digit64 a8 a9)) in
    let b2 = update b1 (p + 2) (cod_at (digit64 a7 a8)) in
    let b3 = update b2 (p + 3) (cod_at (digit64 a6 a7)) in
    let b4 = update b3 (p + 4) (cod_at (digit64 a5 a6)) in
    let b5 = update b4 (p + 5) (cod_at (digit64 a4 a5)) in
    let b6 = update b5 (p + 6) (cod_at (digit64 a3 a4)) in
    let b7 = update b6 (p + 7) (cod_at (digit64 a2 a3)) in
    let b8 = update b7 (p + 8) (cod_at (digit64 a1 a2)) in
    update b8 (p + 9) (cod_at (digit64 a0 a1))

-- The constants up to 85⁴ have 32 bits, so that their products wrap there, before they are added
-- in 64 bits.
unfoldable pub decode_uint64 : (ℕ → ℕ) → ℕ → ℕ
decode_uint64 c p =
    let s0 = mul64 (uncod_at (c p)) 231616946283203125 in
    let s1 = add64 s0 (mul64 (uncod_at (c (p + 1))) 2724905250390625) in
    let s2 = add64 s1 (mul64 (uncod_at (c (p + 2))) 32057708828125) in
    let s3 = add64 s2 (mul64 (uncod_at (c (p + 3))) 377149515625) in
    let s4 = add64 s3 (mul64 (uncod_at (c (p + 4))) 4437053125) in
    let s5 = add64 s4 (mul32 (uncod_at (c (p + 5))) 52200625) in
    let s6 = add64 s5 (mul32 (uncod_at (c (p + 6))) 614125) in
    let s7 = add64 s6 (mul32 (uncod_at (c (p + 7))) 7225) in
    let s8 = add64 s7 (mul32 (uncod_at (c (p + 8))) 85) in add64 s8 (uncod_at (c (p + 9)))

-- The copies between a signed number and an unsigned one of the same bits.
unfoldable pub bits_of : ℤ → ℕ
bits_of (pos n) = n
bits_of (negsuc n) = word - 1 - n

unfoldable pub int_of : ℕ → ℤ
int_of n = if ltb n 2147483648 then pos n else negsuc (word - 1 - n)

unfoldable pub code_int32 : ℤ → (ℕ → ℕ) → ℕ → ℕ → ℕ
code_int32 a0 b p = code_uint32 (bits_of a0) b p

unfoldable pub decode_int32 : (ℕ → ℕ) → ℕ → ℤ
decode_int32 b p = int_of (decode_uint32 b p)

unfoldable pub buffer_size_32 : ℕ → Bool → ℕ
buffer_size_32 num with_newlines =
    let estimation = num * 5 + 1 in
    if with_newlines then estimation + (num / 16 + 1) else estimation

-- A block and the position that is written next.
pub record Output : Type 0 where
  pub buffer : ℕ → ℕ
  pub rb : ℕ

abbrev pub emit : Output → ℕ → Output
emit o c = record { buffer = update o.buffer o.rb c; rb = o.rb + 1 }

abbrev pub emit_int32 : Output → ℤ → Output
emit_int32 o v = record { buffer = code_int32 v o.buffer o.rb; rb = o.rb + 5 }

-- One round of the loop for the number at `i`.
unfoldable pub write_number : (ℕ → ℤ) → Bool → ℕ → Output → Output
write_number vect with_newlines i o =
    let o' = emit_int32 o (vect i) in
    if with_newlines && not (not ((i + 1) % 16 == 0)) then emit o' 10 else o'

-- The loop, once it has passed `n` numbers.
unfoldable pub write_numbers : (ℕ → ℤ) → Bool → ℕ → Output → Output
write_numbers vect with_newlines zero o = o
write_numbers vect with_newlines (suc n) o =
    write_number vect with_newlines n (write_numbers vect with_newlines n o)

-- The block after the call, and the number that is returned.
unfoldable pub code_vector_int32 : (ℕ → ℤ) → ℕ → (ℕ → ℕ) → ℕ → Bool → Output
code_vector_int32 vect vect_size dest_buffer dest_buffer_size with_newlines =
    let start : Output = record { buffer = dest_buffer; rb = 0 } in
    let o = write_numbers vect with_newlines vect_size start in
    let o' = if with_newlines && not (vect_size % 16 == 0) then emit o 10 else o in
    if leb (buffer_size_32 vect_size with_newlines) dest_buffer_size then emit o' 0 else start
