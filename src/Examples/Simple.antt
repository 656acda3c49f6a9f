-- ===== src/Examples/Simple.antt =====
-- The "simple" codec at concrete values and inputs.
use cc_common.Base.{◌*◌, ◌^◌, ◌≤◌, ◌≡◌, refl, ap, arith, true, false, [], ◌∷◌, ◌++◌}
use cc_common.Base.{length, none, ok, fault, no_fuel}
use cc_common.Alloc.{
  zeroing_realloc, zeroing_realloc-IsRealloc, bounded_calloc, bounded_calloc-GrantsShort,
}
use cc_common.Slice.{Slice, zero_slice, contents}
use cc_common.Slice.Expand.{Holds, Holds-zero}
use cc_common.Value.{Value, bool, pos_int, str, bytes, arr, map, item, no_items, field, no_fields}
use cc_common.Value.Cursor.{chk, chk2}
use cc_common.Simple.Encode.{encode}
use cc_common.Simple.Encode.Wire.{wire, len_wire, digits_of, size_class}
use cc_common.Simple.Decode.{
  decode, kind, dispatch, read_int, readn, int_width, read_char, decode_len, read_blob, read_array,
  read_map, read_ext,
}
use cc_common.Simple.Decode.Seen.{seen, trim, IsShort}
use cc_common.Simple.RoundTrip.{
  IsShort-IsWell, IsPlain, encode-wire, decode-encode, decode-encode_plain,
}
use cc_common.Simple.Bounds.{decode-pos-le}
use cc_common.Simple.Hostile.{looping, decode-looping}

decode-true : decode bounded_calloc (3 ∷ []) 2 ≡ ok (bool true, record { pos = 1; err = none })
unfolding bounded_calloc decode chk chk2 kind dispatch
decode-true = refl

decode_pair :
    decode bounded_calloc (233 ∷ 2 ∷ 8 ∷ 200 ∷ 217 ∷ 1 ∷ 65 ∷ []) 9
    ≡ ok
        (arr (item (pos_int 200) (item (str (65 ∷ []) 1) no_items)), record { pos = 7; err = none })
unfolding bounded_calloc decode chk chk2 kind dispatch read_array decode_len readn read_char
    read_int int_width read_blob
decode_pair = refl

decode_256 :
    decode bounded_calloc (9 ∷ 1 ∷ 0 ∷ []) 9 ≡ ok (pos_int 1, record { pos = 3; err = none })
unfolding bounded_calloc decode chk chk2 kind dispatch read_array decode_len readn read_char
    read_int int_width read_blob
decode_256 = refl

decode_crash : decode bounded_calloc (242 ∷ 1 ∷ []) 9 ≡ fault
unfolding bounded_calloc decode chk chk2 kind dispatch read_map decode_len readn read_char read_int
    int_width read_blob
decode_crash = refl

decode_loops :
    decode bounded_calloc (233 ∷ 2 ∷ 220 ∷ 0xf5 ∷ 0 ∷ 0 ∷ 0 ∷ 0 ∷ 0 ∷ 0 ∷ 0 ∷ []) 100 ≡ no_fuel
unfolding bounded_calloc decode chk chk2 kind dispatch read_array decode_len readn read_char
    read_int int_width read_blob
decode_loops = refl

decode_over_read : decode bounded_calloc (249 ∷ []) 9 ≡ fault
unfolding bounded_calloc decode chk chk2 kind dispatch read_ext decode_len readn read_char read_int
    int_width read_blob
decode_over_read = refl

-- A map from one string to an array of a number, a boolean and bytes.
abbrev sample : Value
sample = map (
    field (str (65 ∷ 0 ∷ []) 1)
      (arr (item (pos_int 9) (item (bool true) (item (bytes (7 ∷ 8 ∷ []) 2) no_items)))) no_fields)

wire-sample : wire sample ≡ 241 ∷ 1 ∷ 217 ∷ 1 ∷ 65 ∷ 233 ∷ 3 ∷ 8 ∷ 9 ∷ 3 ∷ 225 ∷ 2 ∷ 7 ∷ 8 ∷ []
unfolding wire len_wire digits_of size_class
wire-sample = refl

length-sample : length (wire sample) ≡ 14
length-sample = ap length wire-sample

sample-IsShort : IsShort sample
sample-IsShort =
    (omega arith, (omega arith, (omega arith, (omega arith, (tt, (omega arith, tt)))), tt))

sample-IsPlain : IsPlain sample
sample-IsPlain = (tt, (omega arith, (tt, (tt, tt))), tt)

encode-wire_example :
    (s' : Slice) × (encode zeroing_realloc false sample zero_slice ≡ ok s')
    × Holds s' ([] ++ wire sample)
encode-wire_example =
    encode-wire zeroing_realloc (2 ^ 32) sample zero_slice [] zeroing_realloc-IsRealloc
      (IsShort-IsWell sample sample-IsShort) Holds-zero (omega (arith, length-sample))

decode-encode_example :
    (s : Slice) × (w : Value) × (encode zeroing_realloc false sample zero_slice ≡ ok s)
    × (decode bounded_calloc (contents s) (3 * length (contents s))
        ≡ ok (w, record { pos = length (contents s); err = none }))
    × (trim w ≡ seen sample)
decode-encode_example =
    decode-encode zeroing_realloc (2 ^ 32) bounded_calloc sample zeroing_realloc-IsRealloc
      bounded_calloc-GrantsShort sample-IsShort (omega (arith, length-sample))
      (omega (arith, length-sample))

decode-encode_plain_example :
    (s : Slice) × (w : Value) × (encode zeroing_realloc false sample zero_slice ≡ ok s)
    × (decode bounded_calloc (contents s) (3 * length (contents s))
        ≡ ok (w, record { pos = length (contents s); err = none }))
    × (trim w ≡ trim sample)
decode-encode_plain_example =
    decode-encode_plain zeroing_realloc (2 ^ 32) bounded_calloc sample zeroing_realloc-IsRealloc
      bounded_calloc-GrantsShort sample-IsShort sample-IsPlain (omega (arith, length-sample))
      (omega (arith, length-sample))

decode-pos-le_example : 3 ≤ 3
decode-pos-le_example =
    decode-pos-le bounded_calloc (9 ∷ 1 ∷ 0 ∷ []) 9 (pos_int 1) (record { pos = 3; err = none })
      (omega arith) decode_256

decode-looping_example :
    decode bounded_calloc (looping (0 ∷ 0 ∷ 0 ∷ 0 ∷ 0 ∷ 0 ∷ 0 ∷ [])) 1000 ≡ no_fuel
decode-looping_example =
    decode-looping bounded_calloc (0 ∷ 0 ∷ 0 ∷ 0 ∷ 0 ∷ 0 ∷ 0 ∷ []) 1000 (omega arith) (omega arith)
      two_granted
  where
    two_granted : bounded_calloc 2 40 ≡ true
    two_granted = unfold bounded_calloc in refl
