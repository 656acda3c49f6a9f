-- ===== src/Examples/Binc.antt =====
-- The "binc" codec at concrete values and inputs.
use cc_common.BigEndian.{write_uint32}
use cc_common.Base.{inl, inr, ◌*◌, ◌^◌, ◌≡◌, refl, ap, arith, false, [], ◌∷◌, length, none, ok}
use cc_common.Alloc.{
  zeroing_realloc, zeroing_realloc-IsRealloc, bounded_calloc, bounded_calloc-GrantsShort,
}
use cc_common.Slice.{Slice, zero_slice, contents}
use cc_common.Slice.Expand.{Holds, Holds-zero}
use cc_common.Value.{
  Value, Items, pos_int, neg_int, str, bytes, arr, map, item, no_items, field, no_fields,
}
use cc_common.Simple.Decode.Seen.{trim}
use cc_common.Binc.Encode.{encode}
use cc_common.Binc.Decode.{decode}
use cc_common.Binc.Wire.{
  short_wire, pos_wire, neg_wire, wide_wire, three_wire, four_wire, kept_wire, IsKept, AreKept,
}
use cc_common.Binc.Refines.{encode-two_bytes}
use cc_common.Binc.Wide.{decode-encode_wide}
use cc_common.Binc.RoundTrip.{binc_decode-encode, decode-string_cut}

-- A map from one string to an array of numbers of each width that is kept, and bytes.
abbrev numbers : Items
numbers = item (pos_int 9) (
    item (pos_int 200) (
      item (pos_int 70000)
        (item (pos_int 0x9000_0000) (item (neg_int 3) (item (neg_int 0x12_3456) no_items)))))

abbrev kept_sample : Value
kept_sample =
    map (field (str (65 ∷ 0 ∷ []) 1) (arr (item (bytes (7 ∷ 8 ∷ []) 2) numbers)) no_fields)

wire-kept_sample :
    kept_wire kept_sample
    ≡ 117 ∷ 69 ∷ 65 ∷ 107 ∷ 86 ∷ 7 ∷ 8 ∷ 152 ∷ 16 ∷ 200 ∷ 18 ∷ 1 ∷ 17 ∷ 112 ∷ 19 ∷ 144 ∷ 0 ∷ 0 ∷ 0
      ∷ 32 ∷ 3 ∷ 35 ∷ 0 ∷ 18 ∷ 52 ∷ 86 ∷ []
unfolding kept_wire short_wire pos_wire neg_wire wide_wire three_wire four_wire write_uint32
wire-kept_sample = refl

length-kept_sample : length (kept_wire kept_sample) ≡ 26
length-kept_sample = ap length wire-kept_sample

numbers-AreKept : AreKept numbers
numbers-AreKept = (
  inl (omega arith),
  (
    inl (omega arith),
    (
      inr (omega arith, omega arith),
      (
        inr (omega arith, omega arith),
        ((omega arith, inl (omega arith)), ((omega arith, inr (omega arith, omega arith)), tt)),
      ),
    ),
  ),
)

kept_sample-IsKept : IsKept kept_sample
kept_sample-IsKept = (
  omega arith,
  (
    (omega arith, inl (omega arith)),
    (omega arith, ((omega arith, inl (omega arith)), numbers-AreKept)),
    tt,
  ),
)

binc_decode-encode_example :
    (s : Slice) × (w : Value) × (encode zeroing_realloc
        (λ mem len. [])
        0
        false
        kept_sample
        zero_slice
      ≡ ok s)
    × (decode bounded_calloc (contents s) (3 * length (contents s))
        ≡ ok (w, record { pos = length (contents s); err = none }))
    × (trim w ≡ trim kept_sample)
binc_decode-encode_example =
    binc_decode-encode zeroing_realloc (2 ^ 32) bounded_calloc (λ mem len. []) 0 kept_sample
      zeroing_realloc-IsRealloc bounded_calloc-GrantsShort kept_sample-IsKept
      (omega (arith, length-kept_sample)) (omega (arith, length-kept_sample))

encode-two_bytes_example :
    (s : Slice) × (encode zeroing_realloc (λ mem len. []) 0 false (pos_int 300) zero_slice ≡ ok s)
    × (encode zeroing_realloc (λ mem len. []) 0 false (neg_int 300) zero_slice ≡ ok s)
    × Holds s (1 ∷ 44 ∷ [])
encode-two_bytes_example =
    encode-two_bytes zeroing_realloc (2 ^ 32) (λ mem len. []) 0 false 300 zero_slice []
      zeroing_realloc-IsRealloc Holds-zero (omega arith, omega arith) (omega arith) (omega arith)

decode-string_cut_example :
    decode bounded_calloc (79 ∷ []) 1 ≡ ok (str [] 11, record { pos = 12; err = none })
decode-string_cut_example = decode-string_cut bounded_calloc 11 0 [] (omega arith) (omega arith)

-- 2 ^ 32 + 200: three of the eight bytes are left out.
decode-encode_wide_example :
    (s : Slice) × (encode zeroing_realloc (λ mem len. []) 0 false (pos_int 0x1_0000_00c8) zero_slice
      ≡ ok s)
    × (decode bounded_calloc (contents s) 1
        ≡ ok (pos_int 0xc8_0000_0000, record { pos = length (contents s); err = none }))
decode-encode_wide_example =
    decode-encode_wide zeroing_realloc (2 ^ 32) bounded_calloc (λ mem len. []) 0 0 0x1_0000_00c8
      zeroing_realloc-IsRealloc (omega arith, omega arith) (omega arith) (omega arith)
