-- ===== src/DataSet/Bits/Tests.antt =====
-- dataset.cc, `BitDataSet`: runs, and the theorem at patterns of three values, which share bytes.
use april_ann.Prelude.{ℕ, ◌+◌, ◌<◌, ◌≡◌, ◌≢◌, ◌==◌, if◌then◌else◌, arith, refl}
use april_ann.DataSet.Bits.{BitDataSet, make_bits, bits_put, write_bits, cursor_at, byte_count}
use april_ann.DataSet.Bits.Packed.{AreBytes, value_at, bits_put_correct}

abbrev blank : ℕ → ℕ
blank i = 5

abbrev triples : BitDataSet
triples = record { numpatterns = 6; patternsize = 3; bytes = λ i. 170 }

triples_run : (bits_put (λ v. v == 0) triples 2 (λ i. i) 0).1.bytes 0 ≡ 170
unfolding bits_put write_bits cursor_at
triples_run = refl

fresh_runs : (make_bits blank 6 3).bytes 2 ≡ 0
unfolding make_bits byte_count
fresh_runs = refl

bits_put_correct_example :
    AreBytes (bits_put (λ v. v == 0) triples 2 (λ i. i) 0).1.bytes
    × ((k : ℕ)
        → k < 3
        → value_at (λ v. v == 0) 0 1 (bits_put (λ v. v == 0) triples 2 (λ i. i) 0).1 blank 7 2 k
          ≡ (if 0 + k == 0 then 0 else 1))
    × ((j k : ℕ)
        → j ≢ 2
        → k < 3
        → value_at (λ v. v == 0) 0 1 (bits_put (λ v. v == 0) triples 2 (λ i. i) 0).1 blank 7 j k
          ≡ value_at (λ v. v == 0) 0 1 triples blank 7 j k)
bits_put_correct_example =
    bits_put_correct (λ v. v == 0) 0 1 triples 2 (λ i. i) 0 blank 7 (λ i. omega arith)
