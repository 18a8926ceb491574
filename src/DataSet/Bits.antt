-- ===== src/DataSet/Bits.antt =====
-- dataset.cc, dataset.h: `BitDataSet`, patterns of zeros and ones packed eight to a byte. The index is a
-- number; `&`, `|` and `^` with a single bit are written out on the byte.
pub mod Byte
pub mod Packed
mod Tests
use april_ann.Prelude.{ℕ, zero, suc, ◌+◌, ◌-◌, ◌*◌, ◌/◌, ◌%◌, ◌^◌, Bool, ltb, ◌==◌, if◌then◌else◌}
use april_ann.Prelude.Array.{update}

pub record BitDataSet : Type 0 where
  pub numpatterns : ℕ
  pub patternsize : ℕ
  pub bytes : ℕ → ℕ

-- How many bytes the constructor takes, and their start at 0.
unfoldable pub byte_count : ℕ → ℕ → ℕ
byte_count nump patsize = nump * patsize / 8 + 1

unfoldable pub make_bits : (ℕ → ℕ) → ℕ → ℕ → BitDataSet
make_bits junk nump patsize = record {
  numpatterns = nump;
  patternsize = patsize;
  bytes = λ i. if ltb i (byte_count nump patsize) then 0 else junk i;
}

-- `(v >> b) & 1`
abbrev pub bit_of : ℕ → ℕ → ℕ
bit_of v b = v / 2 ^ b % 2

-- `v & (0xff ^ (1 << b))`
abbrev pub clear_bit : ℕ → ℕ → ℕ
clear_bit v b = if bit_of v b == 1 then v - 2 ^ b else v

-- `v | (1 << b)`
abbrev pub set_bit : ℕ → ℕ → ℕ
set_bit v b = if bit_of v b == 1 then v else v + 2 ^ b

-- `bytePos` and `bitPos`, once they have moved `n` times.
pub record Cursor : Type 0 where
  pub byte_pos : ℕ
  pub bit_pos : ℕ

abbrev pub move_on : Cursor → Cursor
move_on c =
    if ltb 7 (c.bit_pos + 1)
    then record { byte_pos = c.byte_pos + 1; bit_pos = 0 }
    else record { byte_pos = c.byte_pos; bit_pos = c.bit_pos + 1 }

unfoldable pub cursor_at : ℕ → ℕ → Cursor
cursor_at start zero = record { byte_pos = start / 8; bit_pos = start % 8 }
cursor_at start (suc n) = move_on (cursor_at start n)

module _ {T : Type 0} (zero_value one_value : T) where
  -- The loop of getPattern, once it has passed `n` values.
  unfoldable pub read_bits : (ℕ → ℕ) → ℕ → ℕ → (ℕ → T) → ℕ → ℕ → T
  read_bits bytes start zero pat p = pat
  read_bits bytes start (suc n) pat p =
      let c = cursor_at start n in
      update (read_bits bytes start n pat p) (p + n)
        (if bit_of (bytes c.byte_pos) c.bit_pos == 1 then one_value else zero_value)

  unfoldable pub bits_get : BitDataSet → ℕ → (ℕ → T) → ℕ → ℕ × (ℕ → T)
  bits_get x index pat p =
      (x.patternsize, read_bits x.bytes (index * x.patternsize) x.patternsize pat p)

module _ {T : Type 0} (is_zero : T → Bool) where
  -- The loop of putPattern, once it has passed `n` values.
  unfoldable pub write_bits : ℕ → ℕ → (ℕ → T) → ℕ → (ℕ → ℕ) → ℕ → ℕ
  write_bits start zero pat p bytes = bytes
  write_bits start (suc n) pat p bytes =
      let c = cursor_at start n in
      let before = write_bits start n pat p bytes in
      update before c.byte_pos (
        if is_zero (pat (p + n))
        then clear_bit (before c.byte_pos) c.bit_pos
        else set_bit (before c.byte_pos) c.bit_pos)

  unfoldable pub bits_put : BitDataSet → ℕ → (ℕ → T) → ℕ → ℕ × BitDataSet
  bits_put x index pat p = (
    x.patternsize,
    record x { bytes = write_bits (index * x.patternsize) x.patternsize pat p x.bytes },
  )
