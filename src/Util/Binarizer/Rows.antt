-- ===== src/Util/Binarizer/Rows.antt =====
-- binarizer.cc, `code_vector_int32`: the places of the numbers in the row.
use april_ann.Prelude.{
  ℕ, zero, suc, ◌+◌, ◌-◌, ◌*◌, ◌/◌, ◌%◌, ◌<◌, ◌≤◌, ◌≡◌, Bool, true, false, ◌&&◌, not, ◌==◌, arith,
  refl, ◌∙◌, sym, leb, if◌then◌else◌, inl, inr, Bool-cases,
}
use april_ann.Prelude.Array.{update}
use april_ann.Prelude.Int.{ℤ}
use april_ann.Util.Binarizer.{
  Output, emit, code_int32, decode_int32, buffer_size_32, write_number, write_numbers,
  code_vector_int32,
}
use april_ann.Util.Binarizer.Places.{update_other}
use april_ann.Util.Binarizer.Words.{
  InInt32, decode_int32-code_int32, code_int32_other, decode_int32_cong,
}

-- Where the number at `k` begins.
unfoldable pub place : Bool → ℕ → ℕ
place with_newlines k = 5 * k + (if with_newlines then k / 16 else 0)

module _ (vect : ℕ → ℤ) (with_newlines : Bool) where
  -- The first `n` numbers stand in their places, and the next is written behind them.
  record Written (n : ℕ) (o : Output) : Type 0 where
    next : o.rb ≡ place with_newlines n
    read :
        (k : ℕ) → k < n → InInt32 (vect k) → decode_int32 o.buffer (place with_newlines k) ≡ vect k

  place_step :
      (n r : ℕ) (b : ℕ → ℕ)
      → r ≡ place with_newlines n
      → (write_number vect with_newlines n (record { buffer = b; rb = r })).rb
        ≡ place with_newlines (suc n)
  unfolding write_number place
  place_step n r b e = elim (Bool-cases with_newlines) [
    | inl on ↦ rw on ground arith
    | inr off ↦ rw off ground arith
  ]

  buffer_step :
      (n r j : ℕ) (b : ℕ → ℕ)
      → j < r + 5
      → (write_number vect with_newlines n (record { buffer = b; rb = r })).buffer j
        ≡ code_int32 (vect n) b r j
  unfolding write_number
  buffer_step n r j b l = ground arith

  place_mono : (k n : ℕ) → k < n → place with_newlines k + 5 ≤ place with_newlines n
  unfolding place
  place_mono k n l = elim (Bool-cases with_newlines) [
    | inl on ↦ rw on (omega arith)
    | inr off ↦ rw off (omega arith)
  ]

  place_zero : 0 ≡ place with_newlines 0
  unfolding place
  place_zero = elim (Bool-cases with_newlines) [ inl on ↦ rw on refl | inr off ↦ rw off refl ]

  place_le : (k n : ℕ) → k < suc n → place with_newlines k ≤ place with_newlines n
  unfolding place
  place_le k n l = elim (Bool-cases with_newlines) [
    | inl on ↦ rw on (omega arith)
    | inr off ↦ rw off (omega arith)
  ]

  read_back :
      (n r k : ℕ) (b : ℕ → ℕ)
      → Written n (record { buffer = b; rb = r })
      → k < suc n
      → InInt32 (vect k)
      → decode_int32 (code_int32 (vect n) b r) (place with_newlines k) ≡ vect k
  read_back n r k b w l i = elim (Bool-cases (k == n)) [
    | inl last ↦
        let same : k ≡ n = ground arith in
        rw (same, sym w.next) (decode_int32-code_int32 (vect n) b r (rw same at i))
    | inr earlier ↦
        decode_int32_cong (code_int32 (vect n) b r) b (place with_newlines k) (λ j below.
          code_int32_other (vect n) b r j
            (inl (omega (arith, place_mono k n (ground arith), w.next))))
        ∙ w.read k (ground arith) i
  ]

  number-Written :
      (n r : ℕ) (b : ℕ → ℕ)
      → Written n (record { buffer = b; rb = r })
      → Written (suc n) (write_number vect with_newlines n (record { buffer = b; rb = r }))
  number-Written n r b w = record {
    next = place_step n r b w.next;
    read = λ k l i.
        decode_int32_cong (write_number vect with_newlines n (record { buffer = b; rb = r })).buffer
          (code_int32 (vect n) b r) (place with_newlines k)
          (λ j below. buffer_step n r j b (omega (arith, place_le k n (omega arith), w.next)))
        ∙ read_back n r k b w l i;
  }

  numbers-Written :
      (n : ℕ) (b : ℕ → ℕ)
      → Written n (write_numbers vect with_newlines n (record { buffer = b; rb = 0 }))
  unfolding write_numbers
  numbers-Written zero b = record { next = place_zero; read = λ k l i. absurd (omega arith) }
  numbers-Written (suc n) b =
      number-Written n (write_numbers vect with_newlines n (record { buffer = b; rb = 0 })).rb
        (write_numbers vect with_newlines n (record { buffer = b; rb = 0 })).buffer
        (numbers-Written n b)

  -- The numbers fit in the room that `buffer_size_32` promises.
  buffer_size_32_enough :
      (n : ℕ)
      → place with_newlines n + (if with_newlines && not (n % 16 == 0) then 1 else 0) + 1
        ≤ buffer_size_32 n with_newlines
  unfolding place buffer_size_32
  buffer_size_32_enough n = elim (Bool-cases with_newlines) [
    | inl on ↦ rw on (ground arith)
    | inr off ↦ rw off (ground arith)
  ]

  abbrev pub Reads : ℕ → (ℕ → ℕ) → Type 0
  Reads n b = (k : ℕ) → k < n → InInt32 (vect k) → decode_int32 b (place with_newlines k) ≡ vect k

  emit-Reads :
      (n r c : ℕ) (b : ℕ → ℕ) → place with_newlines n ≤ r → Reads n b → Reads n (update b r c)
  emit-Reads n r c b q h k l i =
      decode_int32_cong (update b r c) b (place with_newlines k)
        (λ j below. update_other b r j c (λ e. omega (arith, place_mono k n l)))
      ∙ h k l i

  -- From its position on, the output leaves the block `before`.
  abbrev Kept : (ℕ → ℕ) → Output → Type 0
  Kept before o = (j : ℕ) → o.rb ≤ j → o.buffer j ≡ before j

  emit-Kept :
      (r c : ℕ) (b before : ℕ → ℕ)
      → Kept before (record { buffer = b; rb = r })
      → Kept before (emit (record { buffer = b; rb = r }) c)
  emit-Kept r c b before h j l = update_other b r j c (λ e. omega arith) ∙ h j (omega arith)

  Kept-if :
      (before : ℕ → ℕ) (c : Bool) (o o' : Output)
      → Kept before o
      → Kept before o'
      → Kept before (if c then o else o')
  Kept-if before true o o' h h' = h
  Kept-if before false o o' h h' = h'

  number-Kept :
      (n r : ℕ) (b before : ℕ → ℕ)
      → Kept before (record { buffer = b; rb = r })
      → Kept before (write_number vect with_newlines n (record { buffer = b; rb = r }))
  unfolding write_number
  number-Kept n r b before h =
      let five : Output = record { buffer = code_int32 (vect n) b r; rb = r + 5 } in
      let kept : Kept before five =
        λ j l. code_int32_other (vect n) b r j (inr l) ∙ h j (omega arith) in
      Kept-if before (with_newlines && not (not ((n + 1) % 16 == 0))) (emit five 10) five
        (emit-Kept (r + 5) 10 (code_int32 (vect n) b r) before kept) kept

  numbers-Kept :
      (n : ℕ) (before : ℕ → ℕ)
      → Kept before (write_numbers vect with_newlines n (record { buffer = before; rb = 0 }))
  unfolding write_numbers
  numbers-Kept zero before j l = refl
  numbers-Kept (suc n) before j l =
      number-Kept n (write_numbers vect with_newlines n (record { buffer = before; rb = 0 })).rb
        (write_numbers vect with_newlines n (record { buffer = before; rb = 0 })).buffer before
        (numbers-Kept n before) j l

  -- What the call promises of the block `before` and its size, for the output that it leaves: the
  -- characters are in the block, the last is 0, the numbers can be read, and nothing behind has changed.
  abbrev pub Holds : ℕ → (ℕ → ℕ) → ℕ → Output → Type 0
  Holds n before size o =
      (o.rb ≤ size)
      × (o.buffer (o.rb - 1) ≡ 0)
      × Reads n o.buffer
      × ((j : ℕ) → o.rb ≤ j → o.buffer j ≡ before j)

  end-Holds :
      (n r size : ℕ) (b before : ℕ → ℕ)
      → place with_newlines n ≤ r
      → r + 1 ≤ size
      → Reads n b
      → Kept before (record { buffer = b; rb = r })
      → Holds n before size (emit (record { buffer = b; rb = r }) 0)
  end-Holds n r size b before q l h kept =
      (l, ground arith, emit-Reads n r 0 b q h, emit-Kept r 0 b before kept)

  -- When buffer_size_32 says that the block is large enough, the number of characters returned is at
  -- most the size of the block, the last of them is 0, every number that has 32 bits is decoded from
  -- its place, and nothing is written from the number of characters returned on, so that the call stays
  -- inside the block.
  pub code_vector_int32_correct :
      (vect_size : ℕ) (dest_buffer : ℕ → ℕ) (dest_buffer_size : ℕ)
      → buffer_size_32 vect_size with_newlines ≤ dest_buffer_size
      → Holds vect_size dest_buffer dest_buffer_size
          (code_vector_int32 vect vect_size dest_buffer dest_buffer_size with_newlines)
  unfolding code_vector_int32
  code_vector_int32_correct n dest size h =
      let start : Output = record { buffer = dest; rb = 0 } in
      let o = write_numbers vect with_newlines n start in
      let w : Written n o = numbers-Written n dest in
      let kept : Kept dest o = numbers-Kept n dest in
      let room = buffer_size_32_enough n in
      let fits : leb (buffer_size_32 n with_newlines) size ≡ true = ground arith in
      rw fits (elim (Bool-cases (with_newlines && not (n % 16 == 0))) [
        | inl open_row ↦ rw open_row (
            end-Holds n (o.rb + 1) size (update o.buffer o.rb 10) dest (omega (arith, w.next))
              (omega (arith, w.next, rw open_row at room))
              (emit-Reads n o.rb 10 o.buffer (omega (arith, w.next)) w.read)
              (emit-Kept o.rb 10 o.buffer dest kept))
        | inr full ↦ rw full (
            end-Holds n o.rb size o.buffer dest (omega (arith, w.next))
              (omega (arith, w.next, rw full at room)) w.read kept)
      ])
