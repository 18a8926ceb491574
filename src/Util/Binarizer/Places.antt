-- ===== src/Util/Binarizer/Places.antt =====
-- Where binarizer.cc puts the characters of a word.
use april_ann.Prelude.{ℕ, ◌+◌, ◌/◌, ◌%◌, ◌≡◌, arith, ◌≢◌}
use april_ann.Prelude.Array.{update}
use april_ann.Util.Binarizer.{cod_at, digit32, digit64, half, code_uint16, code_uint32, code_uint64}

module _ {ℓ} {A : Type ℓ} where
  pub update_same : (b : ℕ → A) (i : ℕ) (v : A) → update b i v i ≡ v
  update_same b i v = ground arith

  pub update_other : (b : ℕ → A) (i j : ℕ) (v : A) → i ≢ j → update b i v j ≡ b j
  update_other b i j v h = ground arith

-- A digit written and read back.

pub code_uint32-at_0 : (a : ℕ) (b : ℕ → ℕ) (p : ℕ) → code_uint32 a b p p ≡ cod_at (a / 52200625)
unfolding code_uint32
code_uint32-at_0 a b p = ground arith

pub code_uint32-at_1 :
    (a : ℕ) (b : ℕ → ℕ) (p : ℕ)
    → code_uint32 a b p (p + 1) ≡ cod_at (digit32 (a / 614125) (a / 52200625))
unfolding code_uint32
code_uint32-at_1 a b p = ground arith

pub code_uint32-at_2 :
    (a : ℕ) (b : ℕ → ℕ) (p : ℕ)
    → code_uint32 a b p (p + 2) ≡ cod_at (digit32 (a / 7225) (a / 614125))
unfolding code_uint32
code_uint32-at_2 a b p = ground arith

pub code_uint32-at_3 :
    (a : ℕ) (b : ℕ → ℕ) (p : ℕ) → code_uint32 a b p (p + 3) ≡ cod_at (digit32 (a / 85) (a / 7225))
unfolding code_uint32
code_uint32-at_3 a b p = ground arith

pub code_uint32-at_4 :
    (a : ℕ) (b : ℕ → ℕ) (p : ℕ) → code_uint32 a b p (p + 4) ≡ cod_at (digit32 a (a / 85))
unfolding code_uint32
code_uint32-at_4 a b p = ground arith

pub code_uint64-at_0 :
    (a : ℕ) (b : ℕ → ℕ) (p : ℕ) → code_uint64 a b p p ≡ cod_at (a / 231616946283203125)
unfolding code_uint64
code_uint64-at_0 a b p = ground arith

pub code_uint64-at_1 :
    (a : ℕ) (b : ℕ → ℕ) (p : ℕ)
    → code_uint64 a b p (p + 1) ≡ cod_at (digit64 (a / 2724905250390625) (a / 231616946283203125))
unfolding code_uint64
code_uint64-at_1 a b p = ground arith

pub code_uint64-at_2 :
    (a : ℕ) (b : ℕ → ℕ) (p : ℕ)
    → code_uint64 a b p (p + 2) ≡ cod_at (digit64 (a / 32057708828125) (a / 2724905250390625))
unfolding code_uint64
code_uint64-at_2 a b p = ground arith

pub code_uint64-at_3 :
    (a : ℕ) (b : ℕ → ℕ) (p : ℕ)
    → code_uint64 a b p (p + 3) ≡ cod_at (digit64 (a / 377149515625) (a / 32057708828125))
unfolding code_uint64
code_uint64-at_3 a b p = ground arith

pub code_uint64-at_4 :
    (a : ℕ) (b : ℕ → ℕ) (p : ℕ)
    → code_uint64 a b p (p + 4) ≡ cod_at (digit64 (a / 4437053125) (a / 377149515625))
unfolding code_uint64
code_uint64-at_4 a b p = ground arith

pub code_uint64-at_5 :
    (a : ℕ) (b : ℕ → ℕ) (p : ℕ)
    → code_uint64 a b p (p + 5) ≡ cod_at (digit64 (a / 52200625) (a / 4437053125))
unfolding code_uint64
code_uint64-at_5 a b p = ground arith

pub code_uint64-at_6 :
    (a : ℕ) (b : ℕ → ℕ) (p : ℕ)
    → code_uint64 a b p (p + 6) ≡ cod_at (digit64 (a / 614125) (a / 52200625))
unfolding code_uint64
code_uint64-at_6 a b p = ground arith

pub code_uint64-at_7 :
    (a : ℕ) (b : ℕ → ℕ) (p : ℕ)
    → code_uint64 a b p (p + 7) ≡ cod_at (digit64 (a / 7225) (a / 614125))
unfolding code_uint64
code_uint64-at_7 a b p = ground arith

pub code_uint64-at_8 :
    (a : ℕ) (b : ℕ → ℕ) (p : ℕ) → code_uint64 a b p (p + 8) ≡ cod_at (digit64 (a / 85) (a / 7225))
unfolding code_uint64
code_uint64-at_8 a b p = ground arith

pub code_uint64-at_9 :
    (a : ℕ) (b : ℕ → ℕ) (p : ℕ) → code_uint64 a b p (p + 9) ≡ cod_at (digit64 a (a / 85))
unfolding code_uint64
code_uint64-at_9 a b p = ground arith

pub code_uint16-at_0 :
    (a : ℕ) (b : ℕ → ℕ) (p : ℕ) → code_uint16 a b p p ≡ cod_at ((a / 7225) % half)
unfolding code_uint16
code_uint16-at_0 a b p = ground arith

pub code_uint16-at_1 :
    (a : ℕ) (b : ℕ → ℕ) (p : ℕ)
    → code_uint16 a b p (p + 1) ≡ cod_at (digit32 ((a / 85) % half) ((a / 7225) % half))
unfolding code_uint16
code_uint16-at_1 a b p = ground arith

pub code_uint16-at_2 :
    (a : ℕ) (b : ℕ → ℕ) (p : ℕ) → code_uint16 a b p (p + 2) ≡ cod_at (digit32 a ((a / 85) % half))
unfolding code_uint16
code_uint16-at_2 a b p = ground arith
