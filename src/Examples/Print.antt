-- ===== src/Examples/Print.antt =====
-- Printing values at concrete inputs.
use cc_common.Base.{
  ℕ, ◌≡◌, refl, arith, true, List, [], ◌∷◌, ◌++◌, ok, fault, ap, length, zero, suc, All,
}
use cc_common.Slice.{Slice, zero_slice}
use cc_common.Slice.Expand.{Holds, Holds-zero}
use cc_common.Slice.Append.{IsClosed}
use cc_common.Value.{Value, nil, pos_int, str, bytes, arr, item, no_items, map, field, no_fields}
use cc_common.Value.Print.{print, print_r, digits}
use cc_common.Value.Print.Texts.{text}
use cc_common.Value.Print.Laws.{print_lem}
use cc_common.Value.Print.Bytes.{print_r-past, IsFour}
use cc_common.Alloc.{zeroing_realloc, zeroing_realloc-IsRealloc}

-- "%f" of any float, for what is printed here.
abbrev no_text : ℕ → List ℕ
no_text w = []

-- { "hi" = [ true, 42 ] }, with the type before each value.
abbrev small : Value
small =
    map (
      field (str (104 ∷ 105 ∷ []) 2) (arr (item (pos_int 42) (item (nil true) no_items))) no_fields)

text-small :
    text no_text no_text small
    ≡ 49 ∷ 48 ∷ 58 ∷ 123 ∷ 32 ∷ 55 ∷ 58 ∷ 104 ∷ 105 ∷ 32 ∷ 61 ∷ 32 ∷ 57 ∷ 58 ∷ 91 ∷ 32 ∷ 51 ∷ 58
      ∷ 52 ∷ 50 ∷ 44 ∷ 32 ∷ 49 ∷ 58 ∷ 49 ∷ 32 ∷ 93 ∷ 32 ∷ 125 ∷ []
unfolding digits
text-small = refl

print_lem_example :
    (s' : Slice) × (print zeroing_realloc no_text no_text small zero_slice ≡ ok s')
    × Holds s' ([] ++ text no_text no_text small)
    × IsClosed s'
print_lem_example =
    print_lem zeroing_realloc-IsRealloc no_text no_text small zero_slice [] (ground arith)
      Holds-zero (omega (arith, ap (length {A = ℕ}) text-small))

-- 64 bytes -128.
abbrev high : ℕ → List ℕ
high zero = []
high (suc n) = 128 ∷ high n

print_r-past_example :
    print_r zeroing_realloc no_text no_text (bytes (high 64) 64) zero_slice ≡ fault
print_r-past_example =
    print_r-past zeroing_realloc-IsRealloc no_text no_text (high 64) 64 (omega arith) (omega arith)
      (high_four 64) (omega arith)
  where
    high_four : (n : ℕ) → All IsFour (high n)
    high_four zero = tt
    high_four (suc n) = (omega arith, high_four n)
