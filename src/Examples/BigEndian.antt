-- ===== src/Examples/BigEndian.antt =====
-- Words written and read.
use cc_common.Base.{◌≡◌, refl, arith, [], ◌∷◌, ◌++◌, ok}
use cc_common.BigEndian.{write_uint32, write_uint64, read_uint64}
use cc_common.BigEndian.Laws.{read-write_uint64, read_uint64_digits}

written : write_uint32 0x0102_03ff ≡ 1 ∷ 2 ∷ 3 ∷ 255 ∷ []
unfolding write_uint32
written = refl

read-write_uint64_example :
    read_uint64 (write_uint64 0x8000_0000_0000_0001 ++ []) ≡ ok 0x8000_0000_0000_0001
read-write_uint64_example = read-write_uint64 0x8000_0000_0000_0001 [] (omega arith)

read_uint64_digits_example :
    read_uint64 (1 ∷ 2 ∷ 3 ∷ 4 ∷ 5 ∷ 6 ∷ 7 ∷ 255 ∷ 9 ∷ []) ≡ ok 0x0102_0304_0506_07ff
read_uint64_digits_example =
    read_uint64_digits 1 2 3 4 5 6 7 255 (9 ∷ [])
      (omega arith, omega arith, omega arith, omega arith)
      (omega arith, omega arith, omega arith, omega arith)
