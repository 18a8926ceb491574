-- ===== src/Util/Binarizer/Tests.antt =====
-- binarizer.cc: runs, and the theorems at concrete numbers.
use april_ann.Prelude.{ℕ, ◌+◌, ◌≡◌, true, ◌==◌, if◌then◌else◌, arith, refl}
use april_ann.Prelude.Int.{ℤ, pos, negsuc}
use april_ann.Util.Binarizer.{
  code_uint64, decode_uint64, code_vector_int32, cod, uncod, buffer_size_32, cod_at, uncod_at,
  digit64,
}
use april_ann.Util.Binarizer.Words.{lost, decode_uint64-code_uint64}
use april_ann.Util.Binarizer.Rows.{Holds, code_vector_int32_correct}

abbrev page : ℕ → ℕ
page i = 0

abbrev samples : ℕ → ℤ
samples i = if i == 0 then negsuc 6 else pos i

abbrev unlucky : ℕ
unlucky = 4332651875

-- `unlucky` is 83 * 85 ^ 4, and another number is read back.
unlucky_runs : decode_uint64 (code_uint64 unlucky page 0) 0 ≡ 37684579
unfolding decode_uint64 code_uint64 cod_at uncod_at cod uncod digit64
unlucky_runs = refl

decode_uint64-code_uint64_example :
    decode_uint64 (code_uint64 unlucky page 0) 0 + lost unlucky ≡ unlucky
decode_uint64-code_uint64_example = decode_uint64-code_uint64 unlucky page 0 (omega arith)

code_vector_int32_correct_example :
    Holds samples true 17 page 95 (code_vector_int32 samples 17 page 95 true)
unfolding buffer_size_32
code_vector_int32_correct_example = code_vector_int32_correct samples true 17 page 95 (omega arith)
